-- ===== src/Dns/System/Sent.antt =====
-- What the messages on a connection say of a module.
use lars.Base.{
  ℕ, ◌≡◌, refl, ◌∙◌, ap, true, List, [], ◌∷◌, ◌⊎◌, inl, inr, Option, false, none, some,
  if◌then◌else◌, ◌==◌, arith, Bool-cases,
}
use lars.Base.Words.{pair_key}
use lars.Agent.Messages.{HostAddr, GetRouteResponse}
use lars.Dns.Route.{Route}
use lars.Dns.Subscribe.{Push}
use lars.Dns.Subscribe.Decoding.{has_host}
use lars.Dns.Subscribe.Messages.{Elem}
use lars.Dns.System.{deliver, set_at_fd}
use lars.Dns.Subscribe.Current.{hosts_of, SameHosts, IsCurrent, AllCurrent}

-- The hosts in the last message about a module.
abbrev pub last_hosts : ℕ → List GetRouteResponse → Option (List HostAddr)
last_hosts k [] = none
last_hosts k (rsp ∷ rest) =
    if pair_key rsp.modid rsp.cmdid == k then some rsp.host else last_hosts k rest

-- The last message about a module has the hosts in memory.
abbrev pub Says : Route → ℕ → List GetRouteResponse → Type 0
Says r k sent =
    (hosts : List HostAddr) × (last_hosts k sent ≡ some hosts) × SameHosts hosts (hosts_of r k)

-- A message that is added leaves what is said of its module current, and of others as it was.
pub Says-cons :
    (r : Route) (k : ℕ) (rsp : GetRouteResponse) (sent : List GetRouteResponse)
    → ((pair_key rsp.modid rsp.cmdid == k) ≡ true → SameHosts rsp.host (hosts_of r k))
    → ((pair_key rsp.modid rsp.cmdid == k) ≡ false → Says r k sent)
    → Says r k (rsp ∷ sent)
Says-cons r k rsp sent now before = elim (Bool-cases (pair_key rsp.modid rsp.cmdid == k)) [
  | inl here ↦ rw here (rsp.host, refl, now here)
  | inr other ↦ rw other (before other)
]

Says-set :
    (r : Route) (k fd : ℕ) (p : Push) (sent : ℕ → List GetRouteResponse)
    → IsCurrent r p
    → Says r k (sent fd) ⊎ ((p.fd ≡ fd) × (pair_key p.rsp.modid p.rsp.cmdid ≡ k))
    → Says r k (set_at_fd p.fd (p.rsp ∷ sent p.fd) sent fd)
Says-set r k fd p sent now known = elim (Bool-cases (p.fd == fd)) [
  | inr other ↦ elim known [
    | inl says ↦ rw other says
    | inr (ef, ek) ↦ let no : ⊥ = ground arith in absurd no
  ]
  | inl here ↦
      let ef : p.fd ≡ fd = ground arith in
      rw here (
        Says-cons r k p.rsp (sent p.fd)
          (λ same ip port.
            let ek : pair_key p.rsp.modid p.rsp.cmdid ≡ k = ground arith in
            ap (has_host ip port) (now ∙ ap (hosts_of r) ek))
          λ differs. elim known [
            | inl says ↦ rw ef says
            | inr (e, ek) ↦ let no : ⊥ = ground arith in absurd no
          ])
]

-- Messages of which each is current leave what is said of a module current.
pub Says-deliver :
    (r : Route) (k fd : ℕ) (ps : List Push) (sent : ℕ → List GetRouteResponse)
    → AllCurrent r ps
    → Says r k (sent fd)
    → Says r k (deliver ps sent fd)
Says-deliver r k fd [] sent all says = says
Says-deliver r k fd (p ∷ ps) sent all says =
    Says-deliver r k fd ps _ all.1 (Says-set r k fd p sent all.0 (inl says))

-- A message among them about a module says what is in memory.
pub Says-Elem :
    (r : Route) (k fd : ℕ) (p : Push) (ps : List Push) (sent : ℕ → List GetRouteResponse)
    → AllCurrent r ps
    → Elem p ps
    → p.fd ≡ fd
    → pair_key p.rsp.modid p.rsp.cmdid ≡ k
    → Says r k (deliver ps sent fd)
Says-Elem r k fd p [] sent all e ef ek = absurd e
Says-Elem r k fd p (q ∷ ps) sent all (inl e) ef ek =
    Says-deliver r k fd ps _ all.1 (Says-set r k fd q sent all.0 (inr (rw e at ef, rw e at ek)))
Says-Elem r k fd p (q ∷ ps) sent all (inr e) ef ek = Says-Elem r k fd p ps _ all.1 e ef ek
