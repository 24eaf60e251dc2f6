-- ===== src/Reporter/Turns.antt =====
-- Whose turn it is.
use lars.Base.{
  ℕ, zero, suc, ◌+◌, ◌%◌, ◌<◌, ◌≡◌, refl, sym, ap, ◌∙◌, List, [], ◌∷◌, ◌++◌, if◌then◌else◌, ◌==◌,
  Result, ok, ◌>>=◌, length, arith, append_assoc, append-nil,
}
use native.Mathlib.Nat.{mod-add-mod, mod-lt, mod-eq_of_lt}
use lars.Agent.Messages.{ReportStatusRequest}
use lars.Reporter.{
  Reporter, new_queues, send_at, send_report, next_index, wrap_index, get_report_status,
  create_report_threads,
}

-- Reports that come in one after the other.
unfoldable pub receive_all : List ReportStatusRequest → Reporter → Result Reporter
receive_all [] s = ok s
receive_all (req ∷ reqs) s = get_report_status req s >>= receive_all reqs

abbrev pub queue_at : ℕ → List (List ReportStatusRequest) → List ReportStatusRequest
queue_at i [] = []
queue_at zero (q ∷ qs) = q
queue_at (suc i) (q ∷ qs) = queue_at i qs

-- The reports whose number, counted from `k` on, leaves `j` when divided by `n`.
abbrev pub share : ℕ → ℕ → ℕ → List ReportStatusRequest → List ReportStatusRequest
share n j k [] = []
share n j k (req ∷ reqs) =
    let rest = share n j (k + 1) reqs in if k % n == j then req ∷ rest else rest

-- What `send_at` does where the index is one.
pub record Sent (i : ℕ) (req : ReportStatusRequest) (qs qs' : List (List ReportStatusRequest))
    : Type 0 where
  pub size : length qs' ≡ length qs
  pub holds : (j : ℕ) → queue_at j qs' ≡ queue_at j qs ++ (if i == j then req ∷ [] else [])

pub send_at-Sent :
    (i : ℕ) (req : ReportStatusRequest) (qs : List (List ReportStatusRequest))
    → i < length qs
    → (qs' : List (List ReportStatusRequest)) × (send_at i req qs ≡ ok qs') × Sent i req qs qs'
unfolding send_at
send_at-Sent i req [] l = ground arith
send_at-Sent zero req (q ∷ qs) l = (
  (q ++ req ∷ []) ∷ qs,
  refl,
  record {
    size = refl;
    holds = λ j.
        elim j
          as (λ (j : ℕ).
            queue_at j ((q ++ req ∷ []) ∷ qs)
            ≡ queue_at j (q ∷ qs) ++ (if 0 == j then req ∷ [] else [])) [
              | zero ↦ refl
              | suc j' ↦ ground (arith, append-nil (queue_at j' qs))
            ];
  },
)
send_at-Sent (suc i) req (q ∷ qs) l =
    let (qs', ran, sent) = send_at-Sent i req qs (omega arith) in
    (
      q ∷ qs',
      rw ran refl,
      record {
        size = ground (arith, sent.size);
        holds = λ j.
            elim j
              as (λ (j : ℕ).
                queue_at j (q ∷ qs')
                ≡ queue_at j (q ∷ qs) ++ (if suc i == j then req ∷ [] else [])) [
                  | zero ↦ ground (arith, append-nil q)
                  | suc j' ↦ ground (arith, sent.holds j')
                ];
      },
    )

-- The state after `k` reports: the index is the remainder, and there are `thread_cnt` queues.
abbrev pub Counts : ℕ → Reporter → Type 0
Counts k s = (0 < s.thread_cnt) × (s.index ≡ k % s.thread_cnt) × (length s.queues ≡ s.thread_cnt)

get_report_status-Counts :
    (k : ℕ) (req : ReportStatusRequest) (s : Reporter)
    → Counts k s
    → (s' : Reporter) × (get_report_status req s ≡ ok s')
      × Counts (k + 1) s'
      × (s'.thread_cnt ≡ s.thread_cnt)
      × ((j : ℕ)
          → queue_at j s'.queues
            ≡ queue_at j s.queues ++ (if k % s.thread_cnt == j then req ∷ [] else []))
unfolding get_report_status send_report next_index wrap_index
get_report_status-Counts k req s v =
    let below : s.index < length s.queues = omega (arith, v.1, v.2, mod-lt k v.0) in
    let (qs, ran, sent) = send_at-Sent s.index req s.queues below in
    (
      record s { index = (s.index + 1) % s.thread_cnt; queues = qs },
      rw ran refl,
      (v.0, ap (λ i. (i + 1) % s.thread_cnt) v.1 ∙ mod-add-mod k s.thread_cnt 1, sent.size ∙ v.2),
      refl,
      λ j. sent.holds j ∙ ap (λ i. queue_at j s.queues ++ (if i == j then req ∷ [] else [])) v.1,
    )

receive_all-share :
    (reqs : List ReportStatusRequest) (k : ℕ) (s : Reporter)
    → Counts k s
    → (s' : Reporter) × (receive_all reqs s ≡ ok s')
      × ((j : ℕ) → queue_at j s'.queues ≡ queue_at j s.queues ++ share s.thread_cnt j k reqs)
unfolding receive_all
receive_all-share [] k s v = (s, refl, λ j. sym (append-nil (queue_at j s.queues)))
receive_all-share (req ∷ reqs) k s v =
    let (s1, ran1, v1, same, holds1) = get_report_status-Counts k req s v in
    let (s2, ran2, holds2) = receive_all-share reqs (k + 1) s1 v1 in
    (
      s2,
      rw ran1 ran2,
      λ j. ground (
        arith,
        holds2 j,
        holds1 j,
        ap (λ n. share n j (k + 1) reqs) same,
        append_assoc (queue_at j s.queues) (req ∷ []) (share s.thread_cnt j (k + 1) reqs),
        append-nil (queue_at j s.queues),
      ),
    )

length-new_queues : (n : ℕ) → length (new_queues n) ≡ n
unfolding new_queues
length-new_queues zero = refl
length-new_queues (suc n) = ground (arith, length-new_queues n)

queue_at-new_queues : (j n : ℕ) → queue_at j (new_queues n) ≡ []
unfolding new_queues
queue_at-new_queues j zero = refl
queue_at-new_queues zero (suc n) = refl
queue_at-new_queues (suc j) (suc n) = queue_at-new_queues j n

-- Reports that are handled one after the other, from the start on and with at least one store thread:
-- report number `k`, counted from 0, goes to queue `k % thread_cnt`, and each queue keeps their order.
pub receive_all_lem :
    (reqs : List ReportStatusRequest) (thread_cnt : ℕ)
    → 0 < thread_cnt
    → (s : Reporter) × (receive_all reqs (create_report_threads thread_cnt) ≡ ok s)
      × ((j : ℕ) → queue_at j s.queues ≡ share thread_cnt j 0 reqs)
unfolding create_report_threads
receive_all_lem reqs thread_cnt some_thread =
    let (s, ran, holds) =
      receive_all-share reqs 0 (create_report_threads thread_cnt)
        (some_thread, sym (mod-eq_of_lt some_thread), length-new_queues thread_cnt) in
    (
      s,
      ran,
      λ j. holds j ∙ ap (λ q. q ++ share thread_cnt j 0 reqs) (queue_at-new_queues j thread_cnt),
    )
