-- ===== src/Dns/Subscribe/Current.antt =====
-- Every message of `push_change_task` has the hosts that are in memory.
use lars.Base.{
  ℕ, ◌≡◌, refl, sym, ◌∙◌, Bool, true, ◌&&◌, List, [], ◌∷◌, ◌++◌, inl, inr, ◌==◌, arith, Bool-cases,
}
use lars.Base.Dict.{Dict, set_at}
use lars.Base.Sets.{contains}
use lars.Base.Words.{pair_key, key_hi, key_lo}
use lars.Agent.Messages.{HostAddr}
use lars.Dns.Route.{Route, get_hosts}
use lars.Dns.Subscribe.{
  SubscribeList, Push, route_response, decode_hosts, push_modules, push_all, push_change_task,
}
use lars.Dns.Subscribe.Decoding.{has_host, has_host-decode_hosts}

-- The hosts in memory of a module, as a response has them.
abbrev pub hosts_of : Route → ℕ → List HostAddr
hosts_of r k = decode_hosts (set_at k r.data_map)

abbrev pub SameHosts : List HostAddr → List HostAddr → Type 0
SameHosts a b = (ip port : ℕ) → has_host ip port a ≡ has_host ip port b

has_host-subset :
    (ip port : ℕ) (vs ws : List ℕ)
    → ((v : ℕ) → contains v vs ≡ true → contains v ws ≡ true)
    → has_host ip port (decode_hosts vs) ≡ true
    → has_host ip port (decode_hosts ws) ≡ true
unfolding decode_hosts contains
has_host-subset ip port [] ws sub h = ground arith
has_host-subset ip port (v ∷ vs) ws sub h =
    elim (Bool-cases ((key_hi v == ip) && (key_lo v == port))) [
      | inl here ↦
          let i : key_hi v ≡ ip = ground arith in
          let j : key_lo v ≡ port = ground arith in
          rw (sym i, sym j) (has_host-decode_hosts v ws (sub v (ground arith)))
      | inr further ↦ has_host-subset ip port vs ws (λ w c. sub w (ground arith)) (ground arith)
    ]

Bool-antisym : (a b : Bool) → (a ≡ true → b ≡ true) → (b ≡ true → a ≡ true) → a ≡ b
Bool-antisym a b f g = elim (Bool-cases a) [
  | inl yes_a ↦ yes_a ∙ sym (f yes_a)
  | inr no_a ↦ elim (Bool-cases b) [ inl yes_b ↦ g yes_b ∙ sym yes_b | inr no_b ↦ no_a ∙ sym no_b ]
]

pub SameHosts-decode_hosts :
    (vs ws : List ℕ)
    → ((v : ℕ) → contains v vs ≡ contains v ws)
    → SameHosts (decode_hosts vs) (decode_hosts ws)
SameHosts-decode_hosts vs ws same ip port =
    Bool-antisym _ _ (has_host-subset ip port vs ws λ v c. sym (same v) ∙ c)
      (has_host-subset ip port ws vs λ v c. same v ∙ c)

abbrev pub IsCurrent : Route → Push → Type 0
IsCurrent r p = p.rsp.host ≡ hosts_of r (pair_key p.rsp.modid p.rsp.cmdid)

abbrev pub AllCurrent : Route → List Push → Type 0
AllCurrent r [] = Unit {0}
AllCurrent r (p ∷ ps) = IsCurrent r p × AllCurrent r ps

AllCurrent-append :
    (r : Route) (ps qs : List Push) → AllCurrent r ps → AllCurrent r qs → AllCurrent r (ps ++ qs)
AllCurrent-append r [] qs a b = b
AllCurrent-append r (p ∷ ps) qs a b = (a.0, AllCurrent-append r ps qs a.1 b)

push_modules-AllCurrent : (r : Route) (fd : ℕ) (ks : List ℕ) → AllCurrent r (push_modules r fd ks)
unfolding push_modules route_response get_hosts
push_modules-AllCurrent r fd [] = tt
push_modules-AllCurrent r fd (k ∷ ks) = (refl, push_modules-AllCurrent r fd ks)

push_all-AllCurrent :
    (r : Route) (connected : ℕ → Bool) (m : Dict (List ℕ)) (s : SubscribeList)
    → AllCurrent r (push_all r connected m s).0
unfolding push_all
push_all-AllCurrent r connected [] s = tt
push_all-AllCurrent r connected ((fd, ks) ∷ m) s =
    AllCurrent-append r _ _
      (elim (Bool-cases (connected fd)) [
        | inl yes_it ↦ rw yes_it (push_modules-AllCurrent r fd ks)
        | inr not_it ↦ rw not_it tt
      ])
      (push_all-AllCurrent r connected m _)

pub push_change_task-AllCurrent :
    (r : Route) (online : List ℕ) (connected : ℕ → Bool) (s : SubscribeList)
    → AllCurrent r (push_change_task r online connected s).0
unfolding push_change_task
push_change_task-AllCurrent r online connected s = push_all-AllCurrent r connected _ s
