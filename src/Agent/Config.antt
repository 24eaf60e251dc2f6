-- ===== src/Agent/Config.antt =====
-- `struct load_balance_config` (lars_lb_agent/include/main_server.h). The two rates are floats:
-- a field says of a count and a total whether `count * 1.0 / total` is above the rate.
use lars.Base.{ℕ, Bool}

pub record Config : Type 0 where
  pub probe_num : ℕ
  pub init_succ_cnt : ℕ
  pub init_err_cnt : ℕ
  pub err_rate : ℕ → ℕ → Bool
  pub succ_rate : ℕ → ℕ → Bool
  pub contin_err_limit : ℕ
  pub contin_succ_limit : ℕ
  pub idle_timeout : ℕ
  pub overload_timeout : ℕ
  pub update_timeout : ℕ
