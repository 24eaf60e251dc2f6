-- ===== src/Agent/LoadBalance/Update.antt =====
-- `load_balance::update`.
pub mod Insert
pub mod Delete
pub mod Refresh
pub mod First
pub mod Entries
use lars.Base.{
  ℕ, ◌+◌, not, List, [], ◌∷◌, ◌++◌, none, some, Result, ok, ◌>>=◌, ◌>>◌, or_fault, assert,
  null_pointer, if◌then◌else◌, remove, is_empty,
}
use lars.Base.Dict.{Dict, lookup, insert, has_key}
use lars.Base.Sets.{contains, insert_sorted}
use lars.Base.Words.{pair_key}
use lars.Agent.Config.{Config}
use lars.Agent.HostInfo.{HostInfo, new_host}
use lars.Agent.LoadBalance.{LoadBalance, fresh, write, load}
use lars.Agent.Messages.{HostAddr, GetRouteResponse}

-- `update`, part 2: one host of the response.
insert_host : Config → ℕ → HostAddr → LoadBalance → LoadBalance
insert_host cfg now a s =
    let key = pair_key a.ip a.port in
    if has_key key s.host_map then s else record s {
      host_map = insert key s.next_cell s.host_map;
      idle_list = s.idle_list ++ s.next_cell ∷ [];
      cell = write s.cell s.next_cell (some (new_host a.ip a.port cfg.init_succ_cnt now));
      next_cell = s.next_cell + 1;
    }

pub insert_hosts : Config → ℕ → List HostAddr → LoadBalance → LoadBalance
unfolding insert_host
insert_hosts cfg now [] s = s
insert_hosts cfg now (a ∷ rest) s = insert_hosts cfg now rest (insert_host cfg now a s)

unfoldable pub remote_keys : List HostAddr → List ℕ
remote_keys [] = []
remote_keys (a ∷ rest) = insert_sorted (pair_key a.ip a.port) (remote_keys rest)

-- Part 3: the keys that the response does not name, in ascending order.
unfoldable pub need_delete : List ℕ → Dict ℕ → List ℕ
need_delete remote [] = []
need_delete remote ((k, p) ∷ m) =
    let rest = need_delete remote m in if contains k remote then rest else insert_sorted k rest

-- Part 4. The object leaves its list and is freed; its entry of `_host_map` stays.
unlist : LoadBalance → ℕ → HostInfo → LoadBalance
unlist s p h =
    if h.overload
    then record s { overload_list = remove p s.overload_list }
    else record s { idle_list = remove p s.idle_list }

delete_host : ℕ → LoadBalance → Result LoadBalance
unfolding unlist
delete_host k s = do
  p ← or_fault (lookup k s.host_map) null_pointer
  h ← load s p
  ok (record (unlist s p h) { cell = write s.cell p none })

pub delete_hosts : List ℕ → LoadBalance → Result LoadBalance
unfolding delete_host
delete_hosts [] s = ok s
delete_hosts (k ∷ ks) s = do s' ← delete_host k s; delete_hosts ks s'

-- `now` is read once at the start, `later` by the constructors.
unfoldable pub update : Config → ℕ → ℕ → GetRouteResponse → LoadBalance → Result LoadBalance
unfolding insert_hosts delete_hosts
update cfg now later rsp s = do
  assert (not (is_empty rsp.host))
  let s' = insert_hosts cfg later rsp.host s
  s'' ← delete_hosts (need_delete (remote_keys rsp.host) s'.host_map) s'
  ok (record s'' { last_update_time = now; status = fresh })
