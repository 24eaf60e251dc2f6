-- ===== src/Dns/Route/Loading.antt =====
-- The routes in memory are those of the database.
use lars.Base.{
  ℕ, ◌<◌, ◌^◌, ◌+◌, ◌≡◌, refl, ◌∙◌, ap, Bool, false, not, ◌&&◌, ◌||◌, List, [], ◌∷◌, none, some, ok,
  inl, inr, if◌then◌else◌, ◌==◌, leb, arith, Bool-cases,
}
use lars.Base.Dict.{Dict, lookup, set_at, insert_at, contains-insert_at}
use lars.Base.Sets.{contains}
use lars.Base.Words.{pair_key, pair_key-injective}
use lars.Dns.Route.{
  Row, Route, Database, Checked, Loaded, unchanged, changed, load_changes, load_rows,
  load_route_data, swap, get_hosts, check_round, reload, change_keys, after_version,
}

-- Does a row give the module of key `k` the host of key `v`?
abbrev pub has_row : ℕ → ℕ → List Row → Bool
has_row k v [] = false
has_row k v (row ∷ rest) =
    ((pair_key row.modid row.cmdid == k) && (pair_key row.ip row.port == v)) || has_row k v rest

load_rows_lem :
    (k v : ℕ) (rows : List Row) (m : Dict (List ℕ))
    → contains v (set_at k (load_rows rows m)) ≡ (has_row k v rows || contains v (set_at k m))
unfolding load_rows
load_rows_lem k v [] m = refl
load_rows_lem k v (row ∷ rest) m = ground (
  arith,
  load_rows_lem k v rest (insert_at (pair_key row.modid row.cmdid) (pair_key row.ip row.port) m),
  contains-insert_at (pair_key row.modid row.cmdid) (pair_key row.ip row.port) k v m,
)

-- The four columns of a row, and rows of `int`s.
abbrev pub same_row : Row → Row → Bool
same_row a b =
    ((a.modid == b.modid) && (a.cmdid == b.cmdid)) && ((a.ip == b.ip) && (a.port == b.port))

abbrev pub mem_row : Row → List Row → Bool
mem_row a [] = false
mem_row a (b ∷ rest) = same_row b a || mem_row a rest

abbrev pub IsRow : Row → Type 0
IsRow a = (a.modid < 2 ^ 32) × (a.cmdid < 2 ^ 32) × (a.ip < 2 ^ 32) × (a.port < 2 ^ 32)

abbrev pub AllRows : List Row → Type 0
AllRows [] = Unit {0}
AllRows (a ∷ rest) = IsRow a × AllRows rest

pair_key_eq :
    (a b c d : ℕ)
    → a < 2 ^ 32
    → b < 2 ^ 32
    → c < 2 ^ 32
    → d < 2 ^ 32
    → (pair_key a b == pair_key c d) ≡ ((a == c) && (b == d))
pair_key_eq a b c d ha hb hc hd = ground (
  arith,
  pair_key-injective a b c d ha hb hc hd,
  ap (λ i. pair_key i b) {x = a} {y = c},
  ap (λ i. pair_key c i) {x = b} {y = d},
)

has_row-mem_row :
    (a : Row) (rows : List Row)
    → IsRow a
    → AllRows rows
    → has_row (pair_key a.modid a.cmdid) (pair_key a.ip a.port) rows ≡ mem_row a rows
has_row-mem_row a [] i all = refl
has_row-mem_row a (b ∷ rest) i all = ground (
  arith,
  has_row-mem_row a rest i all.1,
  pair_key_eq b.modid b.cmdid a.modid a.cmdid all.0.0 all.0.1 i.0 i.1,
  pair_key_eq b.ip b.port a.ip a.port all.0.2 all.0.3 i.2 i.3,
)

-- The map in memory gives every module the hosts that the rows give it, and no others.
abbrev pub ServesRows : Route → List Row → Type 0
ServesRows r rows = (k v : ℕ) → contains v (set_at k r.data_map) ≡ has_row k v rows

-- After a load and a swap, `get_hosts` gives a host for a module exactly if some row does.
pub get_hosts-loaded :
    (rows : List Row) (a : Row) (r : Route) {r' : Route}
    → AllRows rows
    → IsRow a
    → load_route_data (some rows) r ≡ ok r'
    → contains (pair_key a.ip a.port) (get_hosts (swap r') a.modid a.cmdid) ≡ mem_row a rows
unfolding load_route_data swap get_hosts contains lookup
get_hosts-loaded rows a r all i e = ground (
  arith,
  load_rows_lem (pair_key a.modid a.cmdid) (pair_key a.ip a.port) rows [],
  has_row-mem_row a rows i all,
)

-- What one round does when the database answers: with another version, or `wait_time` after the last
-- load, the routes in memory become those of the rows, and else they stay; the version is the one
-- read; the changes are published exactly if the version is another.
abbrev pub Round : ℕ → List Row → List ℕ → ℕ → ℕ → Route → Checked → Type 0
Round v rows mods now last r c =
    (c.route.version ≡ v)
    × (if not (v == r.version) || leb (last + 10) now
        then ServesRows c.route rows × (c.last_load_time ≡ now)
        else (c.route ≡ r) × (c.last_load_time ≡ last))
    × (c.published ≡ (if v == r.version then none else some mods))

reload_lem :
    (rows : List Row) (r : Route)
    → (r' : Route) × ((db : Database) → db.routes ≡ some rows → reload db r ≡ ok r')
      × (r'.version ≡ r.version)
      × ServesRows r' rows
unfolding reload load_route_data swap contains lookup
reload_lem rows r = (
  record { data_map = load_rows rows []; temp_map = r.data_map; version = r.version },
  (λ db e. ground arith),
  refl,
  λ k v. load_rows_lem k v rows [] ∙ ground arith,
)

module _ (db : Database) (now last v : ℕ) (rows : List Row) (changes : List (ℕ × ℕ)) (r : Route)
    (er : db.routes ≡ some rows) where
  after_change :
      db.changes v ≡ some changes
      → (v == r.version) ≡ false
      → (c : Checked) × (after_version db now last (changed, record r { version = v }) ≡ ok c)
        × Round v rows (change_keys changes) now last r c
  unfolding after_version load_changes
  after_change ec differs =
      let (r', loads, same, serves) = reload_lem rows (record r { version = v }) in
      (
        record { route = r'; last_load_time = now; published = some (change_keys changes) },
        rw (loads db er) (rw same (rw ec)),
        rw differs (same, (serves, refl), refl),
      )

  after_same :
      v ≡ r.version
      → (c : Checked) × (after_version db now last (unchanged, r) ≡ ok c)
        × Round v rows (change_keys changes) now last r c
  unfolding after_version
  after_same e = elim (Bool-cases (leb (last + 10) now)) [
    | inl due ↦
        let (r', loads, same, serves) = reload_lem rows r in
        (
          record { route = r'; last_load_time = now; published = none },
          rw due (rw (loads db er)),
          ground (arith, same, serves),
        )
    | inr early ↦
        (record { route = r; last_load_time = last; published = none }, rw early refl, ground arith)
  ]

read_version : ℕ → Route → Loaded × Route
read_version v r = if v == r.version then (unchanged, r) else (changed, record r { version = v })

check_round_step :
    (db : Database) (now last v : ℕ) (more : List ℕ) (r : Route)
    → db.versions ≡ some (v ∷ more)
    → check_round db now last r ≡ after_version db now last (read_version v r)
unfolding check_round read_version
check_round_step db now last v more r ev = simp (ev, check_round)

-- One round of `check_route_changes` where the database answers every query does not fault, and does
-- what `Round` says: it loads the rows if the version is another or `wait_time` has passed since the
-- last load, and publishes the changes exactly if the version is another.
pub check_round_lem :
    (db : Database) (now last v : ℕ) (more : List ℕ) (rows : List Row) (changes : List (ℕ × ℕ))
    (r : Route)
    → db.versions ≡ some (v ∷ more)
    → db.routes ≡ some rows
    → db.changes v ≡ some changes
    → (c : Checked) × (check_round db now last r ≡ ok c)
      × Round v rows (change_keys changes) now last r c
unfolding read_version
check_round_lem db now last v more rows changes r ev er ec = elim (Bool-cases (v == r.version)) [
  | inl same ↦
      let (c, ran, round) = after_same db now last v rows changes r er (ground arith) in
      (c, check_round_step db now last v more r ev ∙ rw same ran, round)
  | inr differs ↦
      let (c, ran, round) = after_change db now last v rows changes r er ec differs in
      (c, check_round_step db now last v more r ev ∙ rw differs ran, round)
]
