-- ===== src/Agent/LoadBalance/Rotation.antt =====
-- Sequences of requests: hosts in turn while none is overloaded, and the rhythm of probes while all
-- are.
use lars.Base.{
  ℕ, zero, suc, ◌+◌, ◌≤◌, ◌<◌, ◌≡◌, sym, true, List, [], ◌∷◌, ◌++◌, Option, none, some, Result, ok,
  ◌>>=◌, is_some, append_assoc, append-nil, length, count, arith,
}
use lars.Agent.Config.{Config}
use lars.Agent.HostInfo.{HostInfo}
use lars.Agent.Messages.{HostAddr, GetHostResponse, ret_succ, ret_overload}
use lars.Agent.LoadBalance.{LoadBalance, choice_one_host, get_host_from_list}
use lars.Agent.LoadBalance.Valid.{IsValid}

-- `n` requests, each with the empty response `rsp`: their codes and hosts, and the state.
pub serve : Config → GetHostResponse → ℕ → LoadBalance → Result (List (ℕ × HostAddr) × LoadBalance)
serve cfg rsp zero s = ok ([], s)
serve cfg rsp (suc n) s = do
  r ← choice_one_host cfg s rsp
  rest ← serve cfg rsp n r.2
  ok ((r.0, r.1.host) ∷ rest.0, rest.1)

abbrev pub address_at : Option HostInfo → HostAddr
address_at none = record { ip = 0; port = 0 }
address_at (some h) = record { ip = h.ip; port = h.port }

abbrev pub served_from : (ℕ → Option HostInfo) → List ℕ → List (ℕ × HostAddr)
served_from cell [] = []
served_from cell (p ∷ ps) = (ret_succ, address_at (cell p)) ∷ served_from cell ps

abbrev pub AllLive : (ℕ → Option HostInfo) → List ℕ → Type 0
AllLive cell [] = Unit {0}
AllLive cell (p ∷ ps) = (is_some (cell p) ≡ true) × AllLive cell ps

pub all_live :
    (cell : ℕ → Option HostInfo) (ps : List ℕ)
    → ((p : ℕ) → 0 < count p ps → is_some (cell p) ≡ true)
    → AllLive cell ps
all_live cell [] h = tt
all_live cell (p ∷ ps) h = (h p (ground arith), all_live cell ps (λ q n. h q (omega arith)))

serve_step :
    (cfg : Config) (rsp : GetHostResponse) (s : LoadBalance) (p : ℕ) (rest : List ℕ)
    → s.overload_list ≡ []
    → s.idle_list ≡ p ∷ rest
    → is_some (s.cell p) ≡ true
    → choice_one_host cfg s rsp
      ≡ ok (
        ret_succ,
        record rsp { host = address_at (s.cell p) },
        record s { idle_list = rest ++ p ∷ [] },
      )
unfolding choice_one_host get_host_from_list
serve_step cfg rsp s p rest over idle live = rw (idle, over, choice_one_host) (ground arith)

turns :
    (cfg : Config) (rsp : GetHostResponse) (xs ys : List ℕ) (s : LoadBalance)
    → s.overload_list ≡ []
    → s.idle_list ≡ xs ++ ys
    → AllLive s.cell xs
    → serve cfg rsp (length xs) s ≡ ok (served_from s.cell xs, record s { idle_list = ys ++ xs })
unfolding serve
turns cfg rsp [] ys s over idle live = ground (arith, append-nil ys)
turns cfg rsp (x ∷ xs) ys s over idle live =
    let ih =
      turns cfg rsp xs (ys ++ x ∷ []) (record s { idle_list = (xs ++ ys) ++ x ∷ [] }) over
        (append_assoc xs ys (x ∷ [])) live.1 in
    ground
      (arith, serve_step cfg rsp s x (xs ++ ys) over idle live.0, ih, append_assoc ys (x ∷ []) xs)

-- While no host is overloaded, as many requests as there are hosts get each host once, in the order
-- of the list, and leave the load_balance as it was.
pub round_robin :
    (cfg : Config) (rsp : GetHostResponse) (s : LoadBalance)
    → IsValid s
    → s.overload_list ≡ []
    → serve cfg rsp (length s.idle_list) s ≡ ok (served_from s.cell s.idle_list, s)
round_robin cfg rsp s v over =
    turns cfg rsp s.idle_list [] s over (sym (append-nil s.idle_list))
      (all_live s.cell s.idle_list (λ p n. ground (arith, v.lists.idle_exact p)))

-- `n` refusals, then what the probe gets.
abbrev pub refused_then : HostAddr → ℕ → ℕ × HostAddr → List (ℕ × HostAddr)
refused_then a zero last = last ∷ []
refused_then a (suc n) last = (ret_overload, a) ∷ refused_then a n last

refuse_step :
    (cfg : Config) (rsp : GetHostResponse) (s : LoadBalance)
    → s.idle_list ≡ []
    → s.access_cnt < cfg.probe_num
    → choice_one_host cfg s rsp ≡ ok (ret_overload, rsp, record s { access_cnt = s.access_cnt + 1 })
unfolding choice_one_host
refuse_step cfg rsp s idle early = rw (idle, choice_one_host) (ground arith)

probe_step :
    (cfg : Config) (rsp : GetHostResponse) (s : LoadBalance) (p : ℕ) (rest : List ℕ) (h : HostInfo)
    → s.idle_list ≡ []
    → s.overload_list ≡ p ∷ rest
    → s.cell p ≡ some h
    → cfg.probe_num ≤ s.access_cnt
    → choice_one_host cfg s rsp
      ≡ ok (
        ret_succ,
        record rsp { host = record { ip = h.ip; port = h.port } },
        record s { access_cnt = 0; overload_list = rest ++ p ∷ [] },
      )
unfolding choice_one_host get_host_from_list
probe_step cfg rsp s p rest h idle over live due = rw (idle, over, choice_one_host) (ground arith)

-- While no host is idle, a request is refused until `probe_num` have been counted; the next one gets
-- the front host of the overload list, which goes to the back, and the count starts again.
pub probe_rhythm :
    (cfg : Config) (rsp : GetHostResponse) (n : ℕ) (p : ℕ) (rest : List ℕ) (h : HostInfo)
    (s : LoadBalance)
    → s.idle_list ≡ []
    → s.overload_list ≡ p ∷ rest
    → s.cell p ≡ some h
    → s.access_cnt + n ≡ cfg.probe_num
    → serve cfg rsp (suc n) s
      ≡ ok (
        refused_then rsp.host n (ret_succ, record { ip = h.ip; port = h.port }),
        record s { access_cnt = 0; overload_list = rest ++ p ∷ [] },
      )
unfolding serve
probe_rhythm cfg rsp zero p rest h s idle over live due =
    rw (probe_step cfg rsp s p rest h idle over live (omega arith))
probe_rhythm cfg rsp (suc n) p rest h s idle over live due =
    let ih =
      probe_rhythm cfg rsp n p rest h (record s { access_cnt = s.access_cnt + 1 }) idle over live
        (omega arith) in
    rw (refuse_step cfg rsp s idle (omega arith)) (rw ih)
