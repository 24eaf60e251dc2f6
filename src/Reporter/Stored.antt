-- ===== src/Reporter/Stored.antt =====
-- What the table holds in the end.
use lars.Base.{
  ◌≡◌, refl, sym, ap, ◌∙◌, Bool, ◌&&◌, List, [], ◌∷◌, ◌++◌, Option, some, inl, inr, if◌then◌else◌,
  ◌==◌, get_or, is_some, Option-cases,
}
use lars.Agent.Messages.{ReportStatusRequest, HostCallResult}
use lars.Reporter.{RowKey, CallStatus, row_key, call_status, store_results, store, thread_report}

abbrev pub same_key : RowKey → RowKey → Bool
same_key a b =
    (a.modid == b.modid)
    && (a.cmdid == b.cmdid)
    && (a.ip == b.ip)
    && (a.port == b.port)
    && (a.caller == b.caller)

-- The INSERTs that succeed, in their order: each is tried on what the ones before have left.
module _ {Db : Type 0} (query : RowKey → CallStatus → Db → Option Db) where
  abbrev pub after_one : RowKey → CallStatus → Db → Db
  after_one k r db = get_or (query k r db) db

  abbrev pub stored_results :
      ReportStatusRequest → List HostCallResult → Db → List (RowKey × CallStatus)
  stored_results req [] db = []
  stored_results req (r ∷ rs) db =
      let rest = stored_results req rs (after_one (row_key req r) (call_status req r) db) in
      if is_some (query (row_key req r) (call_status req r) db)
      then (row_key req r, call_status req r) ∷ rest
      else rest

  abbrev pub stored : List ReportStatusRequest → Db → List (RowKey × CallStatus)
  stored [] db = []
  stored (req ∷ reqs) db = stored_results req req.results db ++ stored reqs (store query req db)

-- What the last of the pairs with that key says, as the table keeps it, or else `old`.
abbrev pub last_of :
    (CallStatus → CallStatus)
    → RowKey
    → List (RowKey × CallStatus)
    → Option CallStatus
    → Option CallStatus
last_of kept k [] old = old
last_of kept k ((j, r) ∷ rest) old =
    last_of kept k rest (if same_key j k then some (kept r) else old)

last_of-append :
    (kept : CallStatus → CallStatus) (k : RowKey) (xs ys : List (RowKey × CallStatus))
    (old : Option CallStatus)
    → last_of kept k (xs ++ ys) old ≡ last_of kept k ys (last_of kept k xs old)
last_of-append kept k [] ys old = refl
last_of-append kept k ((j, r) ∷ xs) ys old =
    last_of-append kept k xs ys (if same_key j k then some (kept r) else old)

-- `find` reads a row. An INSERT that succeeds leaves in its row what the columns keep of the values,
-- whether the row was there or not, and no other row changes. One that fails is only printed.
module _ {Db : Type 0} (query : RowKey → CallStatus → Db → Option Db)
    (find : RowKey → Db → Option CallStatus) (kept : CallStatus → CallStatus)
    (writes : (k : RowKey) (r : CallStatus) (db db' : Db)
      → query k r db ≡ some db'
      → (j : RowKey) → find j db' ≡ (if same_key k j then some (kept r) else find j db)) where
  store_results-last_of :
      (k : RowKey) (req : ReportStatusRequest) (rs : List HostCallResult) (db : Db)
      → find k (store_results query req rs db)
        ≡ last_of kept k (stored_results query req rs db) (find k db)
  unfolding store_results
  store_results-last_of k req [] db = refl
  store_results-last_of k req (r ∷ rs) db =
      elim (Option-cases (query (row_key req r) (call_status req r) db)) [
        | inl failed ↦ rw failed (store_results-last_of k req rs db)
        | inr (db', ran) ↦ rw ran (
            store_results-last_of k req rs db'
            ∙ ap (last_of kept k (stored_results query req rs db'))
                (writes (row_key req r) (call_status req r) db db' ran k))
      ]

  -- An INSERT can fail, which is printed and leaves the table as it is; one that succeeds leaves what
  -- the columns keep of the values. A store thread leaves in every row what the columns keep of the last
  -- result of its queue for the row's key whose INSERT succeeds, and the row as it was where there is
  -- none.
  pub thread_report-last_stored :
      (k : RowKey) (reqs : List ReportStatusRequest) (db : Db)
      → find k (thread_report query reqs db) ≡ last_of kept k (stored query reqs db) (find k db)
  unfolding thread_report store
  thread_report-last_stored k [] db = refl
  thread_report-last_stored k (req ∷ reqs) db =
      thread_report-last_stored k reqs (store_results query req req.results db)
      ∙ ap (last_of kept k (stored query reqs (store_results query req req.results db)))
          (store_results-last_of k req req.results db)
      ∙ sym (
          last_of-append kept k (stored_results query req req.results db)
            (stored query reqs (store_results query req req.results db)) (find k db))
