-- ===== src/Dns/System.antt =====
-- lars_dns as a whole: the thread of `check_route_changes` (lars_dns/src/dns_route.cpp), the handler
-- and the hooks of the connections (dns_service.cpp), and `push_change_task` (subscribe.cpp), which a
-- loop runs between events. The handler is taken apart where the other thread can come in between.
-- `push_change_task` runs whole, or with the other thread's `publish` in the middle of it; no step has
-- anything else come between its parts.
pub mod Sent
pub mod Invariant
pub mod Handler
pub mod News
pub mod Told
pub mod Missed
use lars.Base.{
  ℕ, ◌<◌, ◌^◌, ◌≡◌, ◌⊎◌, Bool, true, List, [], ◌∷◌, Option, none, some, is_some, if◌then◌else◌,
  ◌==◌, Result, ok, get_or,
}
use lars.Base.Dict.{set_at}
use lars.Base.Sets.{contains}
use lars.Agent.Messages.{GetRouteResponse}
use lars.Dns.Route.{Route, Database, Checked, check_round}
use lars.Dns.Subscribe.{
  SubscribeList, Push, new_subscribe_list, publish, push_change_task, route_response,
}
use lars.Dns.Subscribe.Lost.{push_around}
use lars.Dns.Service.{Conn, create_subscribe, get_route, clear_subscribe}

-- How far `get_route` has come: the module is noted and subscribed to, or the hosts are read too.
pub data Handling : Type 0 where
  noted : ℕ → ℕ → Handling
  read : GetRouteResponse → Handling

-- `conns` is that of tcp_server; `handling` is the handler that runs on the connection of an fd; `sent`
-- has what went out on it, the last message first; `owed` is the vector `changes` between the swap and
-- the call of `publish`.
pub record System : Type 0 where
  pub route : Route
  pub last_load_time : ℕ
  pub owed : Option (List ℕ)
  pub list : SubscribeList
  pub conns : ℕ → Option Conn
  pub handling : ℕ → Option Handling
  pub sent : ℕ → List GetRouteResponse

abbrev pub set_at_fd {ℓ} : {A : Type ℓ} → ℕ → A → (ℕ → A) → ℕ → A
set_at_fd fd a f g = if fd == g then a else f g

-- The start of `main`, with the routes that the constructor of Route has loaded.
unfoldable pub new_system : Route → ℕ → System
new_system r now = record {
  route = r;
  last_load_time = now;
  owed = none;
  list = new_subscribe_list;
  conns = λ fd. none;
  handling = λ fd. none;
  sent = λ fd. [];
}

-- The hook of a new connection, which then stands in `conns`.
unfoldable pub connect : ℕ → System → System
connect fd s = record s {
  conns = set_at_fd fd (some (create_subscribe (record { fd = fd; param = none }))) s.conns;
  sent = set_at_fd fd [] s.sent;
}

-- `get_route` in three parts: the subscription, the reading of the hosts, and the sending.
unfoldable pub note : ℕ → ℕ → Conn → System → System
note modid cmdid conn s =
    let o = get_route s.route modid cmdid conn s.list in
    record s {
      list = o.2;
      conns = set_at_fd conn.fd (some o.1) s.conns;
      handling = set_at_fd conn.fd (some (noted modid cmdid)) s.handling;
    }

unfoldable pub read_hosts : ℕ → ℕ → ℕ → System → System
read_hosts fd modid cmdid s = record s {
  handling = set_at_fd fd (some (read (route_response s.route modid cmdid))) s.handling;
}

unfoldable pub answer : ℕ → GetRouteResponse → System → System
answer fd rsp s = record s {
  handling = set_at_fd fd none s.handling;
  sent = set_at_fd fd (rsp ∷ s.sent fd) s.sent;
}

-- What the hook of a closing connection leaves.
unfoldable pub close : Conn × SubscribeList → System → System
close o s = record s { list = o.1; conns = set_at_fd o.0.fd none s.conns }

-- A round up to the call of `publish`.
unfoldable pub reload : Checked → System → System
reload c s = record s { route = c.route; last_load_time = c.last_load_time; owed = c.published }

unfoldable pub publish_owed : List ℕ → System → System
publish_owed changes s = record s { list = publish changes s.list; owed = none }

-- The messages go out in their order.
abbrev pub deliver : List Push → (ℕ → List GetRouteResponse) → ℕ → List GetRouteResponse
deliver [] sent fd = sent fd
deliver (p ∷ ps) sent fd = deliver ps (set_at_fd p.fd (p.rsp ∷ sent p.fd) sent) fd

abbrev pub is_connected : System → ℕ → Bool
is_connected s fd = is_some (s.conns fd)

-- `online` is what the loop listens to.
unfoldable pub push : List ℕ → System → System
push online s =
    let o = push_change_task s.route online (is_connected s) s.list in
    record s { list = o.1; sent = deliver o.0 s.sent }

-- The same with `publish` between the reading of `push_list` and its erasing.
unfoldable pub push_meanwhile : List ℕ → List ℕ → System → System
push_meanwhile online changes s =
    let o = push_around changes s.route online (is_connected s) s.list in
    record s { list = o.1; sent = deliver o.0 s.sent; owed = none }

-- The modules whose hosts differ between two route tables are among the changes. This is what the
-- table RouteChange is for; neither the query nor a reload for its age alone makes sure of it.
abbrev pub NamesChanges : Route → Route → List ℕ → Type 0
NamesChanges r r' changes =
    (k : ℕ)
    → ((v : ℕ) → contains v (set_at k r.data_map) ≡ contains v (set_at k r'.data_map))
      ⊎ (contains k changes ≡ true)

-- What can happen next. The handler, the hooks and `push_change_task` for a connection run in one
-- thread, so that none of them begins while the handler runs.
pub data Step (s : System) : System → Type 0 where
  connects : (fd : ℕ) → s.conns fd ≡ none → Step s (connect fd s)
  notes :
      (modid cmdid fd : ℕ) (conn : Conn)
      → s.conns fd ≡ some conn
      → s.handling fd ≡ none
      → Step s (note modid cmdid conn s)
  reads :
      (fd modid cmdid : ℕ)
      → s.handling fd ≡ some (noted modid cmdid)
      → Step s (read_hosts fd modid cmdid s)
  answers :
      (fd : ℕ) (rsp : GetRouteResponse) → s.handling fd ≡ some (read rsp) → Step s (answer fd rsp s)
  closes :
      (fd : ℕ) (conn : Conn) (o : Conn × SubscribeList)
      → s.conns fd ≡ some conn
      → s.handling fd ≡ none
      → clear_subscribe conn s.list ≡ ok o
      → Step s (close o s)
  reloads :
      (db : Database) (now : ℕ) (c : Checked)
      → s.owed ≡ none
      → check_round db now s.last_load_time s.route ≡ ok c
      → Step s (reload c s)
  publishes : (changes : List ℕ) → s.owed ≡ some changes → Step s (publish_owed changes s)
  pushes :
      (online : List ℕ)
      → ((fd : ℕ) → contains fd online ≡ true → s.handling fd ≡ none)
      → Step s (push online s)
  pushes_meanwhile :
      (online changes : List ℕ)
      → ((fd : ℕ) → contains fd online ≡ true → s.handling fd ≡ none)
      → s.owed ≡ some changes
      → Step s (push_meanwhile online changes s)

pub data Reach (s : System) : System → Type 0 where
  start : Reach s s
  later : {t u : System} → Reach s t → Step t u → Reach s u

-- The ids of a request are not negative, a round's changes name every module whose hosts differ, and no
-- `publish` comes in the middle of `push_change_task`.
abbrev pub Orderly : {s t : System} → Step s t → Type 0
Orderly (connects fd free) = Unit
Orderly (notes modid cmdid fd conn there idle) = (modid < 2 ^ 31) × (cmdid < 2 ^ 31)
Orderly (reads fd modid cmdid busy) = Unit
Orderly (answers fd rsp busy) = Unit
Orderly (closes fd conn o there idle cleared) = Unit
Orderly {s} (reloads db now c clear_now ran) = NamesChanges s.route c.route (get_or c.published [])
Orderly (publishes changes owes) = Unit
Orderly (pushes online idle) = Unit
Orderly (pushes_meanwhile online changes idle owes) = ⊥

-- Every step of the history is so.
abbrev pub AllOrderly : {s t : System} → Reach s t → Type 0
AllOrderly start = Unit
AllOrderly (later r st) = AllOrderly r × Orderly st
