-- ===== src/Agent/HostInfo.antt =====
-- `struct host_info` (lars_lb_agent/include/host_info.h, src/host_info.cpp).
use lars.Base.{ℕ, Bool, true, false, Option, none, some, if◌then◌else◌, ◌==◌}
use lars.Base.Words.{inc32, pair_key}
use lars.Agent.Config.{Config}
use lars.Agent.Messages.{ret_succ}

-- `overload_ts` is not set by the constructor: `none` is the unset value.
pub record HostInfo : Type 0 where
  pub ip : ℕ
  pub port : ℕ
  pub vsucc : ℕ
  pub verr : ℕ
  pub rsucc : ℕ
  pub rerr : ℕ
  pub contin_succ : ℕ
  pub contin_err : ℕ
  pub idle_ts : ℕ
  pub overload_ts : Option ℕ
  pub overload : Bool

-- The constructor; `now` is its reading of the clock.
unfoldable pub new_host : ℕ → ℕ → ℕ → ℕ → HostInfo
new_host ip port init_succ now = record {
  ip = ip;
  port = port;
  vsucc = init_succ;
  verr = 0;
  rsucc = 0;
  rerr = 0;
  contin_succ = 0;
  contin_err = 0;
  idle_ts = now;
  overload_ts = none;
  overload = false;
}

unfoldable pub set_overload : Config → ℕ → HostInfo → HostInfo
set_overload cfg now h = record h {
  vsucc = 0;
  verr = cfg.init_err_cnt;
  rsucc = 0;
  rerr = 0;
  contin_succ = 0;
  contin_err = 0;
  overload = true;
  overload_ts = some now;
}

unfoldable pub set_idle : Config → ℕ → HostInfo → HostInfo
set_idle cfg now h = record h {
  vsucc = cfg.init_succ_cnt;
  verr = 0;
  rsucc = 0;
  rerr = 0;
  contin_succ = 0;
  contin_err = 0;
  overload = false;
  idle_ts = now;
}

-- Part 1 of `load_balance::report`: the counters that a result moves. They are `uint32_t`.
unfoldable pub count_result : ℕ → HostInfo → HostInfo
count_result retcode h =
    if retcode == ret_succ
    then record h {
      vsucc = inc32 h.vsucc;
      rsucc = inc32 h.rsucc;
      contin_succ = inc32 h.contin_succ;
      contin_err = 0;
    }
    else record h {
      verr = inc32 h.verr;
      rerr = inc32 h.rerr;
      contin_err = inc32 h.contin_err;
      contin_succ = 0;
    }

-- The key of `_host_map`.
abbrev pub host_key : HostInfo → ℕ
host_key h = pair_key h.ip h.port
