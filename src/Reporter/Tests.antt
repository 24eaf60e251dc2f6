-- ===== src/Reporter/Tests.antt =====
-- The reporter on small inputs.
use lars.Base.{
  ℕ, ◌≡◌, refl, false, List, [], ◌∷◌, Option, none, some, if◌then◌else◌, ok, fault, out_of_bounds,
  arith, sym, ap, Bool-cases, inl, inr, get_or, ◌==◌,
}
use lars.Agent.Messages.{ReportStatusRequest, HostCallResult}
use lars.Reporter.{Reporter, RowKey, CallStatus, thread_report, create_report_threads}
use lars.Reporter.Turns.{receive_all, queue_at, share, receive_all_lem}
use lars.Reporter.Race.{Statement, Interleaves, handler, execute_all, execute_all-race}
use lars.Reporter.Stored.{same_key, stored, last_of, thread_report-last_stored}

abbrev counted : ℕ → HostCallResult
counted n = record { ip = 10; port = 80; succ = n; err = 0; overload = false }

abbrev report_at : ℕ → ReportStatusRequest
report_at n = record { modid = 1; cmdid = 2; caller = 0; results = counted n ∷ []; ts = n }

abbrev three_reports : List ReportStatusRequest
three_reports = report_at 5 ∷ report_at 6 ∷ report_at 7 ∷ []

receive_all_lem_example :
    (s : Reporter) × (receive_all three_reports (create_report_threads 2) ≡ ok s)
    × ((j : ℕ) → queue_at j s.queues ≡ share 2 j 0 three_reports)
receive_all_lem_example = receive_all_lem three_reports 2 (omega arith)

abbrev last_turn : Reporter
last_turn = record { index = 1; thread_cnt = 2; queues = [] ∷ [] ∷ [] }

execute_all-race_example :
    (cs : List Statement) × Interleaves (handler (report_at 5)) (handler (report_at 6)) cs
    × (execute_all cs last_turn ≡ fault out_of_bounds)
execute_all-race_example = execute_all-race (report_at 5) (report_at 6) last_turn refl

-- A table as a function, and its query.
abbrev Table : Type 0
Table = RowKey → Option CallStatus

abbrev find_row : RowKey → Table → Option CallStatus
find_row k db = db k

-- An INSERT with a number of successes of 6 fails.
abbrev write_row : RowKey → CallStatus → Table → Option Table
write_row k r db =
    if r.succ_cnt == 6 then none else some (λ j. if same_key k j then some r else db j)

write_row_lem :
    (k : RowKey) (r : CallStatus) (db db' : Table)
    → write_row k r db ≡ some db'
    → (j : RowKey) → find_row j db' ≡ (if same_key k j then some r else find_row j db)
write_row_lem k r db db' ran j = elim (Bool-cases (r.succ_cnt == 6)) [
  | inl six ↦ let no : none ≡ some db' = rw six at ran in absurd (ground arith)
  | inr other ↦
      let made : some (λ (i : RowKey). if same_key k i then some r else db i) ≡ some db' =
        rw other at ran in
      ap (λ (o : Option Table). get_or o db j) (sym made)
]

abbrev no_rows : Table
no_rows k = none

abbrev row_10 : RowKey
row_10 = record { modid = 1; cmdid = 2; ip = 10; port = 80; caller = 0 }

thread_report-last_stored_example :
    find_row row_10 (thread_report write_row three_reports no_rows)
    ≡ last_of (λ r. r) row_10 (stored write_row three_reports no_rows) none
thread_report-last_stored_example =
    thread_report-last_stored write_row find_row (λ r. r) write_row_lem row_10 three_reports no_rows
