-- ===== src/Whole/Reports.antt =====
-- From the counts of a host in the agent to its row of ServerCallStatus.
pub mod Chain
use lars.Base.{
  ℕ, subst, ◌+◌, ◌%◌, ◌^◌, ◌≤◌, ◌<◌, ◌≡◌, refl, sym, ◌∙◌, ap, Bool, true, false, ◌&&◌, ◌||◌, List,
  [], ◌∷◌, ◌++◌, ◌⊎◌, Option, some, none, ok, inl, inr, ◌≢◌, ◌==◌, count, is_empty, if◌then◌else◌,
  arith, Bool-cases, Option-cases, some-injective,
}
use lars.Base.Dict.{lookup}
use lars.Base.Words.{pair_key}
use lars.Agent.HostInfo.{HostInfo, host_key}
use lars.Agent.Messages.{ReportStatusRequest, HostCallResult}
use lars.Agent.LoadBalance.{LoadBalance, empty}
use lars.Agent.LoadBalance.Valid.{IsValid, idle_at, overload_at}
use lars.Agent.LoadBalance.Report.Commit.{status_of, results_of, result_at}
use lars.Reporter.{RowKey, CallStatus, row_key, call_status, store_results}
use lars.Reporter.Stored.{same_key}

-- The row of a host, and what it should hold.
abbrev pub row_of : LoadBalance → HostInfo → RowKey
row_of s h = record { modid = s.modid; cmdid = s.cmdid; ip = h.ip; port = h.port; caller = 127 }

abbrev pub counts_of : ℕ → HostInfo → CallStatus
counts_of now h = record {
  succ_cnt = h.rsucc;
  err_cnt = h.rerr;
  ts = now % 2 ^ 32;
  overload = h.overload;
}

-- Every result with the key has that status.
abbrev pub AllSay : RowKey → CallStatus → ReportStatusRequest → List HostCallResult → Type 0
AllSay k c req [] = Unit {0}
AllSay k c req (r ∷ rs) =
    (same_key (row_key req r) k ≡ true → call_status req r ≡ c) × AllSay k c req rs

abbrev pub some_says : RowKey → ReportStatusRequest → List HostCallResult → Bool
some_says k req [] = false
some_says k req (r ∷ rs) = same_key (row_key req r) k || some_says k req rs

-- Counts that the columns of the table, signed 32-bit ints, can hold.
abbrev pub Fits : CallStatus → Type 0
Fits r = (r.succ_cnt < 2 ^ 31) × (r.err_cnt < 2 ^ 31)

-- An INSERT that succeeds leaves what the columns keep of the values, and no other row changes; values
-- that fit are kept as they are, and their INSERT succeeds.
module _ {Db : Type 0} (query : RowKey → CallStatus → Db → Option Db)
    (find : RowKey → Db → Option CallStatus) (kept : CallStatus → CallStatus)
    (writes : (k : RowKey) (r : CallStatus) (db db' : Db)
      → query k r db ≡ some db'
      → (j : RowKey) → find j db' ≡ (if same_key k j then some (kept r) else find j db))
    (keeps : (r : CallStatus) → Fits r → kept r ≡ r)
    (takes : (k : RowKey) (r : CallStatus) (db : Db)
      → Fits r
      → (db' : Db) × (query k r db ≡ some db'))
    (k : RowKey) (c : CallStatus) (fits : Fits c) (req : ReportStatusRequest) where
  store_results-known :
      (rs : List HostCallResult) (db : Db)
      → AllSay k c req rs
      → find k db ≡ some c
      → find k (store_results query req rs db) ≡ some c
  unfolding store_results
  store_results-known [] db all there = there
  store_results-known (r ∷ rs) db all there =
      elim (Option-cases (query (row_key req r) (call_status req r) db)) [
        | inl failed ↦ rw failed (store_results-known rs db all.1 there)
        | inr (db', ran) ↦ rw ran (
            store_results-known rs db' all.1 (
              writes (row_key req r) (call_status req r) db db' ran k
              ∙ elim (Bool-cases (same_key (row_key req r) k)) [
                | inl same ↦ rw (same, all.0 same) (ap some (keeps c fits))
                | inr other ↦ rw other there
              ]))
      ]

  pub store_results-says :
      (rs : List HostCallResult) (db : Db)
      → AllSay k c req rs
      → some_says k req rs ≡ true
      → find k (store_results query req rs db) ≡ some c
  unfolding store_results
  store_results-says [] db all h = ground arith
  store_results-says (r ∷ rs) db all h = elim (Bool-cases (same_key (row_key req r) k)) [
    | inl same ↦
        let taken =
          takes (row_key req r) (call_status req r) db (subst Fits (sym (all.0 same)) fits) in
        rw taken.1 (
          store_results-known rs taken.0 all.1 (
            writes (row_key req r) (call_status req r) db taken.0 taken.1 k
            ∙ rw (same, all.0 same) (ap some (keeps c fits))))
    | inr other ↦ elim (Option-cases (query (row_key req r) (call_status req r) db)) [
      | inl failed ↦ rw failed (store_results-says rs db all.1 (rw other at h))
      | inr (db', ran) ↦ rw ran (store_results-says rs db' all.1 (rw other at h))
    ]
  ]

AllSay-append :
    (k : RowKey) (c : CallStatus) (req : ReportStatusRequest) (rs us : List HostCallResult)
    → AllSay k c req rs
    → AllSay k c req us
    → AllSay k c req (rs ++ us)
AllSay-append k c req [] us a b = b
AllSay-append k c req (r ∷ rs) us a b = (a.0, AllSay-append k c req rs us a.1 b)

some_says-append :
    (k : RowKey) (req : ReportStatusRequest) (rs us : List HostCallResult)
    → some_says k req (rs ++ us) ≡ (some_says k req rs || some_says k req us)
some_says-append k req [] us = refl
some_says-append k req (r ∷ rs) us = ground (arith, some_says-append k req rs us)

module _ (now : ℕ) (s : LoadBalance) (v : IsValid s) (p : ℕ) (h : HostInfo)
    (live : s.cell p ≡ some h) where
  -- Another live host of the same address is the same.
  same_host : (q : ℕ) (g : HostInfo) → s.cell q ≡ some g → g.ip ≡ h.ip → g.port ≡ h.port → g ≡ h
  same_host q g there ei ep =
      let key : host_key g ≡ host_key h =
        ap (λ i. pair_key i g.port) ei ∙ ap (λ j. pair_key h.ip j) ep in
      let found : lookup (host_key h) s.host_map ≡ some q =
        ap (λ k. lookup k s.host_map) (sym key) ∙ v.mapped.entered q g there in
      let here : lookup (host_key h) s.host_map ≡ some p = v.mapped.entered p h live in
      let eq : q ≡ p = cc in let again : s.cell p ≡ some g = rw eq at there in cc

  results_of-AllSay :
      (flag : Bool) (ps : List ℕ)
      → ((q : ℕ) → 0 < count q ps → (g : HostInfo) → s.cell q ≡ some g → g.overload ≡ flag)
      → AllSay (row_of s h) (counts_of now h) (status_of now s) (results_of s.cell flag ps)
  results_of-AllSay flag [] flags = tt
  results_of-AllSay flag (q ∷ ps) flags = elim (Option-cases (s.cell q)) [
    | inl freed ↦ rw freed (results_of-AllSay flag ps λ r n. flags r (omega arith))
    | inr (g, there) ↦ rw there (
      λ same.
          let e = same_host q g there (ground arith) (ground arith) in
          let o : g.overload ≡ flag = flags q (ground arith) g there in ground arith,
      results_of-AllSay flag ps λ r n. flags r (omega arith),
    )
  ]

  results_of-some_says :
      (flag : Bool) (ps : List ℕ)
      → 0 < count p ps
      → some_says (row_of s h) (status_of now s) (results_of s.cell flag ps) ≡ true
  results_of-some_says flag [] n = ground arith
  results_of-some_says flag (q ∷ ps) n = elim (Option-cases (s.cell q)) [
    | inl freed ↦
        let other : q ≢ p = λ e. let gone : s.cell p ≡ none = rw e at freed in cc in
        rw freed (results_of-some_says flag ps (ground arith))
    | inr (g, there) ↦ elim (Bool-cases (q == p)) [
      | inl here ↦
          let e : q ≡ p = ground arith in
          let again : s.cell p ≡ some g = rw e at there in
          let eg : g ≡ h = cc in rw there (rw eg (ground arith))
      | inr other ↦ rw there (ground (arith, results_of-some_says flag ps (ground arith)))
    ]
  ]

  pub AllSay-status_of :
      AllSay (row_of s h) (counts_of now h) (status_of now s) (status_of now s).results
  AllSay-status_of =
      AllSay-append (row_of s h) (counts_of now h) (status_of now s)
        (results_of s.cell false s.idle_list) (results_of s.cell true s.overload_list)
        (results_of-AllSay false s.idle_list λ q n g there. ground (arith, v.lists.idle_exact q))
        (results_of-AllSay true s.overload_list
          λ q n g there. ground (arith, v.lists.overload_exact q))

  pub some_says-status_of :
      some_says (row_of s h) (status_of now s) (status_of now s).results ≡ true
  some_says-status_of =
      some_says-append (row_of s h) (status_of now s) (results_of s.cell false s.idle_list)
        (results_of s.cell true s.overload_list)
      ∙ elim (Bool-cases h.overload) [
        | inl slow ↦
            let n : 0 < count p s.overload_list = ground (arith, v.lists.overload_exact p) in
            ground (arith, results_of-some_says true s.overload_list n)
        | inr good ↦
            let n : 0 < count p s.idle_list = ground (arith, v.lists.idle_exact p) in
            ground (arith, results_of-some_says false s.idle_list n)
      ]
