-- ===== src/Dns/Subscribe.antt =====
-- class SubscribeList and `push_change_task` (lars_dns/src/subscribe.cpp). Each call but the reading
-- of `_push_list` in `push_change_task` holds its lock throughout, so calls are taken in turn.
pub mod Booking
pub mod Publishing
pub mod Pushing
pub mod Messages
pub mod Decoding
pub mod Current
pub mod Lost
use lars.Base.{
  ℕ, Bool, true, false, List, [], ◌∷◌, ◌++◌, Option, none, some, if◌then◌else◌, is_empty, is_some,
  remove,
}
use lars.Base.Dict.{Dict, lookup, insert, erase, set_at, insert_at}
use lars.Base.Sets.{contains}
use lars.Base.Words.{key_hi, key_lo}
use lars.Agent.Messages.{HostAddr, GetRouteResponse}
use lars.Dns.Route.{Route, get_hosts}

-- `book_list` gives the fds of a module, `push_list` the changed modules of an fd.
pub record SubscribeList : Type 0 where
  pub book_list : Dict (List ℕ)
  pub push_list : Dict (List ℕ)

unfoldable pub new_subscribe_list : SubscribeList
new_subscribe_list = record { book_list = []; push_list = [] }

unfoldable pub subscribe : ℕ → ℕ → SubscribeList → SubscribeList
subscribe module_key fd s = record s { book_list = insert_at module_key fd s.book_list }

unfoldable pub unsubscribe : ℕ → ℕ → SubscribeList → SubscribeList
unsubscribe module_key fd s = elim (lookup module_key s.book_list) [
  | none ↦ s
  | some fds ↦
      let rest = remove fd fds in
      if is_empty rest
      then record s { book_list = erase module_key s.book_list }
      else record s { book_list = insert module_key rest s.book_list }
]

-- The loops of `publish`: over the fds of a module, and over the changed modules.
push_fds : ℕ → List ℕ → Dict (List ℕ) → Dict (List ℕ)
push_fds module_key [] m = m
push_fds module_key (fd ∷ fds) m = push_fds module_key fds (insert_at fd module_key m)

push_changes : Dict (List ℕ) → List ℕ → Dict (List ℕ) → Dict (List ℕ)
unfolding push_fds
push_changes book [] m = m
push_changes book (c ∷ cs) m = push_changes book cs (push_fds c (set_at c book) m)

unfoldable pub publish : List ℕ → SubscribeList → SubscribeList
unfolding push_changes
publish changes s = record s { push_list = push_changes s.book_list changes s.push_list }

-- `make_publish_map`: the sets of the fds that are online are copied, `push_list` stays.
copy_set : ℕ → List ℕ → Dict (List ℕ) → Dict (List ℕ)
copy_set fd [] need = need
copy_set fd (a ∷ rest) need = copy_set fd rest (insert_at fd a need)

copy_online : List ℕ → Dict (List ℕ) → Dict (List ℕ) → Dict (List ℕ) → Dict (List ℕ)
unfolding copy_set
copy_online online push [] need = need
copy_online online push ((fd, changed) ∷ rest) need =
    copy_online online push rest
      (if contains fd online then copy_set fd (set_at fd push) need else need)

unfoldable pub make_publish_map : List ℕ → SubscribeList → Dict (List ℕ)
unfolding copy_online
make_publish_map online s = copy_online online s.push_list s.push_list []

-- The `HostInfo`s of a response, and the response for a module's key.
unfoldable pub decode_hosts : List ℕ → List HostAddr
decode_hosts [] = []
decode_hosts (v ∷ rest) = record { ip = key_hi v; port = key_lo v } ∷ decode_hosts rest

unfoldable pub route_response : Route → ℕ → ℕ → GetRouteResponse
unfolding decode_hosts
route_response r modid cmdid = record {
  modid = modid;
  cmdid = cmdid;
  host = decode_hosts (get_hosts r modid cmdid);
}

-- What `push_change_task` does for one fd: a message for each module where `conns[fd]` is set, and
-- the fd leaves `push_list` if there is a module at all.
pub record Push : Type 0 where
  pub fd : ℕ
  pub rsp : GetRouteResponse

push_modules : Route → ℕ → List ℕ → List Push
unfolding route_response
push_modules r fd [] = []
push_modules r fd (k ∷ ks) =
    record { fd = fd; rsp = route_response r (key_hi k) (key_lo k) } ∷ push_modules r fd ks

pub push_all : Route → (ℕ → Bool) → Dict (List ℕ) → SubscribeList → List Push × SubscribeList
unfolding push_modules
push_all r connected [] s = ([], s)
push_all r connected ((fd, ks) ∷ rest) s =
    let s' = if is_empty ks then s else record s { push_list = erase fd s.push_list } in
    let out = push_all r connected rest s' in
    ((if connected fd then push_modules r fd ks else []) ++ out.0, out.1)

-- `online` is what the event loop listens to, `connected` says whether `conns[fd]` is set.
unfoldable pub push_change_task :
    Route → List ℕ → (ℕ → Bool) → SubscribeList → List Push × SubscribeList
unfolding push_all
push_change_task r online connected s = push_all r connected (make_publish_map online s) s
