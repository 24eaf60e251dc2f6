-- ===== src/Dns/Route.antt =====
-- class Route (lars_dns/src/dns_route.cpp). What MySQL answers is an argument: `none` where the query
-- fails, else the rows, each column as `atoi` reads it, as a 32-bit pattern.
pub mod Loading
use lars.Base.{
  ℕ, ◌+◌, Bool, true, false, List, [], ◌∷◌, Option, none, some, Result, ok, fault, ◌>>=◌, or_fault,
  exits, if◌then◌else◌, ◌==◌, leb,
}
use lars.Base.Dict.{Dict, set_at, insert_at}
use lars.Base.Words.{pair_key}

-- A row of RouteData.
pub record Row : Type 0 where
  pub modid : ℕ
  pub cmdid : ℕ
  pub ip : ℕ
  pub port : ℕ

-- `_data_pointer` and `_temp_pointer` point to two maps, and `swap` exchanges them.
pub record Route : Type 0 where
  pub data_map : Dict (List ℕ)
  pub temp_map : Dict (List ℕ)
  pub version : ℕ

unfoldable pub load_rows : List Row → Dict (List ℕ) → Dict (List ℕ)
load_rows [] m = m
load_rows (row ∷ rest) m =
    load_rows rest (insert_at (pair_key row.modid row.cmdid) (pair_key row.ip row.port) m)

unfoldable pub build_maps : Option (List Row) → Route → Result Route
build_maps answer r = do
  rows ← or_fault answer exits
  ok (record r { data_map = load_rows rows r.data_map })

-- The constructor.
unfoldable pub new_route : Option (List Row) → Result Route
unfolding build_maps
new_route answer = build_maps answer (record { data_map = []; temp_map = []; version = 0 })

unfoldable pub load_route_data : Option (List Row) → Route → Result Route
load_route_data answer r = do
  rows ← or_fault answer exits
  ok (record r { temp_map = load_rows rows [] })

unfoldable pub swap : Route → Route
swap r = record r { data_map = r.temp_map; temp_map = r.data_map }

unfoldable pub get_hosts : Route → ℕ → ℕ → List ℕ
get_hosts r modid cmdid = set_at (pair_key modid cmdid) r.data_map

-- What `load_version` returns: 0, 1 and -1.
pub data Loaded : Type 0 where
  unchanged changed failed : Loaded

load_version_row : List ℕ → Route → Loaded × Route
load_version_row [] r = (failed, r)
load_version_row (new_version ∷ rest) r =
    if new_version == r.version
    then (unchanged, r)
    else (changed, record r { version = new_version })

unfoldable pub load_version : Option (List ℕ) → Route → Result (Loaded × Route)
unfolding load_version_row
load_version answer r = do rows ← or_fault answer exits; ok (load_version_row rows r)

-- A row of RouteChange, and the query of `load_changes`.
pub record Change : Type 0 where
  pub modid : ℕ
  pub cmdid : ℕ
  pub version : ℕ

unfoldable pub changes_since : ℕ → List Change → List (ℕ × ℕ)
changes_since version [] = []
changes_since version (c ∷ cs) =
    let rest = changes_since version cs in
    if leb version c.version then (c.modid, c.cmdid) ∷ rest else rest

unfoldable pub change_keys : List (ℕ × ℕ) → List ℕ
change_keys [] = []
change_keys ((modid, cmdid) ∷ rest) = pair_key modid cmdid ∷ change_keys rest

-- The rows are those of RouteChange with `version` or a later one.
unfoldable pub load_changes : Option (List (ℕ × ℕ)) → Result (List ℕ)
unfolding change_keys
load_changes answer = do rows ← or_fault answer exits; ok (change_keys rows)

-- The database during one round of `check_route_changes`.
pub record Database : Type 0 where
  pub versions : Option (List ℕ)
  pub routes : Option (List Row)
  pub changes : ℕ → Option (List (ℕ × ℕ))

pub record Checked : Type 0 where
  pub route : Route
  pub last_load_time : ℕ
  -- what is published, if anything is
  pub published : Option (List ℕ)

reload : Database → Route → Result Route
unfolding load_route_data swap
reload db r = do r' ← load_route_data db.routes r; ok (swap r')

abbrev wait_time : ℕ
wait_time = 10

after_version : Database → ℕ → ℕ → Loaded × Route → Result Checked
unfolding reload load_changes
after_version db now last (changed, r) = do
  r' ← reload db r
  mods ← load_changes (db.changes r'.version)
  ok (record { route = r'; last_load_time = now; published = some mods })
after_version db now last (_, r) =
    if leb (last + wait_time) now
    then (do r' ← reload db r; ok (record { route = r'; last_load_time = now; published = none }))
    else ok (record { route = r; last_load_time = last; published = none })

-- One round of the loop of `check_route_changes`, at the time `now`.
unfoldable pub check_round : Database → ℕ → ℕ → Route → Result Checked
unfolding after_version load_version
check_round db now last r = do v ← load_version db.versions r; after_version db now last v
