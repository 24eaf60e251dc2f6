-- ===== src/Api/Retries.antt =====
-- `reg_init`: three tries.
use lars.Base.{
  ℕ, zero, suc, ◌+◌, ◌≡◌, refl, Bool, true, false, not, ◌&&◌, ◌||◌, List, [], ◌∷◌, none, some,
  is_empty, if◌then◌else◌, ◌==◌, ok, arith, Bool-cases, inl, inr,
}
use lars.Agent.Messages.{HostAddr, GetRouteResponse, ret_succ, ret_noexist}
use lars.Agent.Wiring.{shard}
use lars.Api.{
  Received, broken, packet, get_route, read_route, reg_init, retry, all_addresses,
  id_api_get_route_response,
}

-- Does a try give a host?
abbrev pub gives_host : ℕ → ℕ → Received GetRouteResponse → Bool
gives_host modid cmdid broken = false
gives_host modid cmdid (packet msgid none) = false
gives_host modid cmdid (packet msgid (some rsp)) =
    (msgid == id_api_get_route_response)
    && (rsp.modid == modid)
    && (rsp.cmdid == cmdid)
    && not (is_empty rsp.host)

abbrev pub succeeds : ℕ → ℕ → Bool × Received GetRouteResponse → Bool
succeeds modid cmdid (sent, answer) = sent && gives_host modid cmdid answer

-- Does one of `n` tries, from the `k`-th on?
abbrev some_succeeds : ℕ → ℕ → ℕ → ℕ → (ℕ → Bool × Received GetRouteResponse) → Bool
some_succeeds modid cmdid zero k env = false
some_succeeds modid cmdid (suc n) k env =
    succeeds modid cmdid (env k) || some_succeeds modid cmdid n (k + 1) env

module _ {Text : Type 0} (inet_ntoa : ℕ → Text) (ntohl : ℕ → ℕ) where
  all_addresses-is_empty :
      (hs : List HostAddr) → is_empty (all_addresses inet_ntoa ntohl hs) ≡ is_empty hs
  unfolding all_addresses
  all_addresses-is_empty [] = refl
  all_addresses-is_empty (h ∷ hs) = refl

  read_route-succeeds :
      (sent : Bool) (answer : Received GetRouteResponse) (modid cmdid : ℕ)
      → is_empty (read_route inet_ntoa ntohl sent answer modid cmdid).1
        ≡ not (succeeds modid cmdid (sent, answer))
  unfolding read_route
  read_route-succeeds false answer modid cmdid = refl
  read_route-succeeds true broken modid cmdid = refl
  read_route-succeeds true (packet msgid none) modid cmdid = refl
  read_route-succeeds true (packet msgid (some rsp)) modid cmdid =
      ground (arith, all_addresses-is_empty rsp.host)

  retry-some_succeeds :
      (n k : ℕ) (env : ℕ → Bool × Received GetRouteResponse) (modid cmdid index : ℕ)
      → shard modid cmdid ≡ ok index
      → (route : List (Text × ℕ)) × (retry inet_ntoa ntohl n k env modid cmdid ≡ ok route)
        × (is_empty route ≡ not (some_succeeds modid cmdid n k env))
  unfolding retry get_route
  retry-some_succeeds zero k env modid cmdid index own = ([], refl, refl)
  retry-some_succeeds (suc n) k env modid cmdid index own =
      let (route, ran, found) = retry-some_succeeds n (k + 1) env modid cmdid index own in
      let e = read_route-succeeds (env k).0 (env k).1 modid cmdid in
      elim (Bool-cases (succeeds modid cmdid (env k))) [
        | inl good ↦ (
          (read_route inet_ntoa ntohl (env k).0 (env k).1 modid cmdid).1,
          rw (own, retry) (ground arith),
          ground arith,
        )
        | inr bad ↦ (route, rw (own, retry) (ground arith), ground arith)
      ]

  -- `reg_init` gives up after three tries: it returns success if one of the first three gives a host,
  -- and that the module does not exist otherwise.
  pub reg_init_lem :
      (env : ℕ → Bool × Received GetRouteResponse) (modid cmdid index : ℕ)
      → shard modid cmdid ≡ ok index
      → reg_init inet_ntoa ntohl env modid cmdid
        ≡ ok (
            if succeeds modid cmdid (env 0)
              || succeeds modid cmdid (env 1)
              || succeeds modid cmdid (env 2)
            then ret_succ
            else ret_noexist)
  unfolding reg_init
  reg_init_lem env modid cmdid index own =
      let (route, ran, found) = retry-some_succeeds 3 0 env modid cmdid index own in
      rw (ran, reg_init) (ground arith)
