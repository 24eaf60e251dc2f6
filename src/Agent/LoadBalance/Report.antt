-- ===== src/Agent/LoadBalance/Report.antt =====
-- `load_balance::report` and `load_balance::commit`.
pub mod Lists
pub mod Keeps
pub mod Commit
pub mod Unchanged
use lars.Base.{
  ℕ, ◌+◌, ◌%◌, ◌^◌, Bool, true, false, not, ◌&&◌, ◌||◌, List, [], ◌∷◌, ◌++◌, Option, none, some,
  Result, ok, ◌>>=◌, or_fault, uninitialised, if◌then◌else◌, ◌==◌, leb, remove,
}
use lars.Base.Dict.{lookup}
use lars.Base.Words.{pair_key, add32}
use lars.Agent.Config.{Config}
use lars.Agent.HostInfo.{HostInfo, set_overload, set_idle, count_result}
use lars.Agent.LoadBalance.{LoadBalance, write, load, empty}
use lars.Agent.Messages.{HostCallResult, ReportStatusRequest, ret_succ}

-- Part 2 of `report`: is an idle host that failed overloaded, and an overloaded one idle?
judged_overload : Config → HostInfo → Bool
judged_overload cfg h =
    cfg.err_rate h.verr (add32 h.vsucc h.verr) || leb cfg.contin_err_limit h.contin_err

judged_idle : Config → HostInfo → Bool
judged_idle cfg h =
    cfg.succ_rate h.vsucc (add32 h.vsucc h.verr) || leb cfg.contin_succ_limit h.contin_succ

-- The host `h` of cell `p` moves to the other list.
pub move_to_overload : LoadBalance → ℕ → HostInfo → LoadBalance
move_to_overload s p h = record s {
  cell = write s.cell p (some h);
  idle_list = remove p s.idle_list;
  overload_list = s.overload_list ++ p ∷ [];
}

pub move_to_idle : LoadBalance → ℕ → HostInfo → LoadBalance
move_to_idle s p h = record s {
  cell = write s.cell p (some h);
  overload_list = remove p s.overload_list;
  idle_list = s.idle_list ++ p ∷ [];
}

pub keep_host : LoadBalance → ℕ → HostInfo → LoadBalance
keep_host s p h = record s { cell = write s.cell p (some h) }

-- Part 3 of `report`: the windows. `now - ts >= timeout` is `ts + timeout <= now`.
expire_overload : Config → ℕ → ℕ → ℕ → HostInfo → LoadBalance → Result LoadBalance
unfolding move_to_idle keep_host
expire_overload cfg now later p h s = do
  ts ← or_fault h.overload_ts uninitialised
  if leb (ts + cfg.overload_timeout) now
      then ok (move_to_idle s p (set_idle cfg later h))
      else ok (keep_host s p h)

expire_idle : Config → ℕ → ℕ → ℕ → HostInfo → LoadBalance → LoadBalance
unfolding keep_host
expire_idle cfg now later p h s =
    if leb (h.idle_ts + cfg.idle_timeout) now
    then keep_host s p (set_idle cfg later h)
    else keep_host s p h

expire : Config → ℕ → ℕ → ℕ → HostInfo → LoadBalance → Result LoadBalance
unfolding expire_overload expire_idle
expire cfg now later p h s =
    if h.overload then expire_overload cfg now later p h s else ok (expire_idle cfg now later p h s)

settle : Config → ℕ → ℕ → ℕ → ℕ → HostInfo → LoadBalance → Result LoadBalance
unfolding expire judged_overload judged_idle move_to_overload move_to_idle
settle cfg now later retcode p h s =
    if not h.overload && not (retcode == ret_succ)
    then if judged_overload cfg h
      then ok (move_to_overload s p (set_overload cfg later h))
      else expire cfg now later p h s
    else if h.overload && (retcode == ret_succ)
    then if judged_idle cfg h
      then ok (move_to_idle s p (set_idle cfg later h))
      else expire cfg now later p h s
    else expire cfg now later p h s

-- `now` is the reading of the clock at the start, `later` the one inside set_overload or set_idle.
unfoldable pub report : Config → ℕ → ℕ → ℕ → ℕ → ℕ → LoadBalance → Result LoadBalance
unfolding settle
report cfg now later ip port retcode s = elim (lookup (pair_key ip port) s.host_map) [
  | none ↦ ok s
  | some p ↦ do h ← load s p; settle cfg now later retcode p (count_result retcode h) s
]

-- `commit`: what each entry of a list contributes.
call_results : LoadBalance → Bool → List ℕ → Result (List HostCallResult)
call_results s overload [] = ok []
call_results s overload (p ∷ ps) = do
  h ← load s p
  rest ← call_results s overload ps
  ok (record { ip = h.ip; port = h.port; succ = h.rsucc; err = h.rerr; overload = overload } ∷ rest)

-- The request for `report_queue`, if there is one.
unfoldable pub commit : ℕ → LoadBalance → Result (Option ReportStatusRequest)
unfolding call_results empty
commit now s = if empty s then ok none else do
  idle ← call_results s false s.idle_list
  over ← call_results s true s.overload_list
  ok (
      some (record {
        modid = s.modid;
        cmdid = s.cmdid;
        caller = 127;
        results = idle ++ over;
        ts = now % 2 ^ 32;
      }))
