-- ===== src/Agent/LoadBalance/Valid.antt =====
-- When a load_balance is well formed.
use lars.Base.{
  ℕ, ◌≤◌, ◌≡◌, refl, Bool, true, false, Option, none, some, is_some, if◌then◌else◌, ◌==◌, count,
  arith,
}
use lars.Base.Dict.{Dict, lookup}
use lars.Agent.HostInfo.{HostInfo, host_key}
use lars.Agent.LoadBalance.{LoadBalance, new_load_balance, write}

-- How often the idle and the overload list should name a cell.
abbrev pub idle_at : Option HostInfo → ℕ
idle_at none = 0
idle_at (some h) = if h.overload then 0 else 1

abbrev pub overload_at : Option HostInfo → ℕ
overload_at none = 0
overload_at (some h) = if h.overload then 1 else 0

-- An overloaded host has the time at which it became so.
abbrev pub stamped_at : Option HostInfo → Bool
stamped_at none = true
stamped_at (some h) = if h.overload then is_some h.overload_ts else true

abbrev pub keyed_at : ℕ → Option HostInfo → Bool
keyed_at k none = false
keyed_at k (some h) = host_key h == k

-- The lists hold each live host once, in the list that its flag names, and nothing else.
pub record ListsExact (s : LoadBalance) : Type 0 where
  pub idle_exact : (p : ℕ) → count p s.idle_list ≡ idle_at (s.cell p)
  pub overload_exact : (p : ℕ) → count p s.overload_list ≡ overload_at (s.cell p)
  pub stamped : (p : ℕ) → stamped_at (s.cell p) ≡ true
  pub unused : (p : ℕ) → s.next_cell ≤ p → s.cell p ≡ none

-- Every entry of `_host_map` points to a live host of that key, and every live host has its entry.
pub record Points (m : Dict ℕ) (cell : ℕ → Option HostInfo) : Type 0 where
  pub keyed : (k p : ℕ) → lookup k m ≡ some p → keyed_at k (cell p) ≡ true
  pub entered : (p : ℕ) (h : HostInfo) → cell p ≡ some h → lookup (host_key h) m ≡ some p

abbrev pub Mapped : LoadBalance → Type 0
Mapped s = Points s.host_map s.cell

pub record IsValid (s : LoadBalance) : Type 0 where
  pub lists : ListsExact s
  pub mapped : Mapped s

pub new_load_balance-IsValid : (m c now : ℕ) → IsValid (new_load_balance m c now)
unfolding new_load_balance lookup
new_load_balance-IsValid m c now = record {
  lists = record {
    idle_exact = λ p. refl;
    overload_exact = λ p. refl;
    stamped = λ p. refl;
    unused = λ p h. refl;
  };
  mapped = record { keyed = λ k p e. ground arith; entered = λ p h e. ground arith };
}

module _ (m : Dict ℕ) (cell : ℕ → Option HostInfo) (p : ℕ) (h h' : HostInfo)
    (old : cell p ≡ some h) where
  -- A host that is written back with its address keeps its entry.
  pub write-Points :
      h'.ip ≡ h.ip → h'.port ≡ h.port → Points m cell → Points m (write cell p (some h'))
  write-Points same_ip same_port v = record {
    keyed = λ k q e. ground (arith, v.keyed k q e);
    entered = λ q g e. ground (arith, v.entered q g, v.entered p h);
  }
