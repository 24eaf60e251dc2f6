-- ===== src/Whole/Routes.antt =====
-- From a row of RouteData to the host that a caller gets.
use lars.Base.{
  ℕ, ◌<◌, ◌^◌, ◌≡◌, refl, sym, ◌∙◌, true, false, List, [], ◌∷◌, some, none, ok, inl, inr, ◌==◌,
  is_empty, arith, Bool-cases,
}
use lars.Base.Dict.{lookup, set_at}
use lars.Base.Sets.{contains, contains-insert_sorted}
use lars.Base.Words.{pair_key, key_hi, key_lo, key_hi-pair_key, key_lo-pair_key}
use lars.Agent.Config.{Config}
use lars.Agent.Messages.{GetHostRequest}
use lars.Agent.LoadBalance.Update.{remote_keys}
use lars.Agent.Wiring.{Agent, shard}
use lars.Agent.Wiring.FirstRequest.{Introduced, first_request}
use lars.Dns.Route.{Row, Route, Database, Checked, check_round, get_hosts}
use lars.Dns.Route.Loading.{has_row, ServesRows, check_round_lem}
use lars.Dns.Subscribe.{SubscribeList, decode_hosts, route_response}
use lars.Dns.Service.{Conn, get_route}

-- Rows of `int`s whose port is not negative.
abbrev pub PortsFit : List Row → Type 0
PortsFit [] = Unit {0}
PortsFit (a ∷ rest) = ((a.ip < 2 ^ 32) × (a.port < 2 ^ 31)) × PortsFit rest

-- A host of a row survives the way through the 64-bit key.
has_row-decoded :
    (k v : ℕ) (rows : List Row)
    → PortsFit rows
    → has_row k v rows ≡ true
    → pair_key (key_hi v) (key_lo v) ≡ v
has_row-decoded k v [] fit h = ground arith
has_row-decoded k v (row ∷ rest) fit h = elim (Bool-cases (pair_key row.ip row.port == v)) [
  | inl here ↦
      let e : pair_key row.ip row.port ≡ v = ground arith in
      let hi = key_hi-pair_key row.ip row.port fit.0.0 fit.0.1 in
      let lo = key_lo-pair_key row.ip row.port fit.0.0 (omega (arith, fit.0.1)) in
      rw (sym e) (rw (hi, lo) refl)
  | inr other ↦ has_row-decoded k v rest fit.1 (ground arith)
]

contains-remote_keys :
    (x : ℕ) (vs : List ℕ)
    → contains x (remote_keys (decode_hosts vs)) ≡ true
    → (v : ℕ) × (contains v vs ≡ true) × (pair_key (key_hi v) (key_lo v) ≡ x)
unfolding remote_keys decode_hosts contains
contains-remote_keys x [] h = ground arith
contains-remote_keys x (v ∷ vs) h = elim (Bool-cases (pair_key (key_hi v) (key_lo v) == x)) [
  | inl here ↦ (v, ground arith, ground arith)
  | inr other ↦
      let (w, there, e) = contains-remote_keys x vs (
        ground (
          arith,
          contains-insert_sorted x (pair_key (key_hi v) (key_lo v)) (remote_keys (decode_hosts vs)),
        )) in
      (w, ground arith, e)
]

-- The keys of a response are those of the rows of its module.
remote_keys-rows :
    (r : Route) (rows : List Row) (modid cmdid x : ℕ)
    → ServesRows r rows
    → PortsFit rows
    → contains x (remote_keys (route_response r modid cmdid).host) ≡ true
    → has_row (pair_key modid cmdid) x rows ≡ true
unfolding route_response get_hosts
remote_keys-rows r rows modid cmdid x serves fit h =
    let k = pair_key modid cmdid in
    let (v, there, e) = contains-remote_keys x (set_at k r.data_map) h in
    let row : has_row k v rows ≡ true = sym (serves k v) ∙ there in
    rw (sym (has_row-decoded k v rows fit row) ∙ e) at row

decode_hosts-given :
    (v : ℕ) (vs : List ℕ) → contains v vs ≡ true → is_empty (decode_hosts vs) ≡ false
unfolding decode_hosts contains
decode_hosts-given v [] h = ground arith
decode_hosts-given v (w ∷ vs) h = refl

response_given :
    (r : Route) (rows : List Row) (modid cmdid v : ℕ)
    → ServesRows r rows
    → has_row (pair_key modid cmdid) v rows ≡ true
    → is_empty (route_response r modid cmdid).host ≡ false
unfolding route_response get_hosts
response_given r rows modid cmdid v serves row =
    let k = pair_key modid cmdid in decode_hosts-given v (set_at k r.data_map) (serves k v ∙ row)

get_route-response :
    (r : Route) (modid cmdid : ℕ) (conn : Conn) (l : SubscribeList)
    → (get_route r modid cmdid conn l).0 ≡ route_response r modid cmdid
unfolding get_route
get_route-response r modid cmdid conn l = ground arith

-- What a caller gets for a module that the agent has not heard of, when lars_dns serves the request
-- that the agent sends on: `Introduced` with the response of `get_route`, and the host is of a row.
abbrev pub Served :
    Config
    → ℕ
    → ℕ
    → ℕ
    → ℕ
    → GetHostRequest
    → Route
    → Conn
    → SubscribeList
    → List Row
    → Agent
    → Type 0
Served cfg now later t i req r conn l rows s =
    (o : Introduced cfg now later t i req (get_route r req.modid req.cmdid conn l).0 s) × (has_row
        (pair_key req.modid req.cmdid) (pair_key o.second.0.host.ip o.second.0.host.port) rows
      ≡ true)

-- A module with ids that have an index `(modid + cmdid) % 3`, that the database has a row for and the
-- agent has not heard of. No row of the table RouteData, of whatever module, has a negative port, and the
-- database answers the queries. lars_dns finds another version and reloads; a caller asks the agent,
-- which asks lars_dns, and then the caller asks again. None of these calls faults; the first answer is
-- that the module does not exist, and the second is a host, by address and port, of a row that the
-- database has for this very module.
pub caller_gets_row :
    (cfg : Config) (db : Database) (now last version : ℕ) (more : List ℕ) (rows : List Row)
    (changes : List (ℕ × ℕ)) (r : Route) (conn : Conn) (l : SubscribeList) (asks later t i v : ℕ)
    (req : GetHostRequest) (s : Agent)
    → db.versions ≡ some (version ∷ more)
    → db.routes ≡ some rows
    → db.changes version ≡ some changes
    → (version == r.version) ≡ false
    → PortsFit rows
    → has_row (pair_key req.modid req.cmdid) v rows ≡ true
    → shard req.modid req.cmdid ≡ ok i
    → lookup (pair_key req.modid req.cmdid) (s.r_lb i).route_lb_map ≡ none
    → (c : Checked) × (check_round db now last r ≡ ok c)
      × Served cfg asks later t i req c.route conn l rows s
unfolding route_response
caller_gets_row cfg db now last version more rows changes r conn l asks later t i v req s ev er ec
      differs fit row own missing =
    let (c, ran, round) = check_round_lem db now last version more rows changes r ev er ec in
    let serves : ServesRows c.route rows = (rw differs at round.1).0 in
    let answer = get_route-response c.route req.modid req.cmdid conn l in
    let o =
      first_request cfg asks later t i req.modid req.cmdid req.seq
        (route_response c.route req.modid req.cmdid).host s own missing
        (response_given c.route rows req.modid req.cmdid v serves row) in
    (
      c,
      ran,
      rw answer (
        o,
        remote_keys-rows c.route rows req.modid req.cmdid
            (pair_key o.second.0.host.ip o.second.0.host.port) serves fit o.named,
      ),
    )
