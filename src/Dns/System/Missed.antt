-- ===== src/Dns/System/Missed.antt =====
-- Two versions between two rounds: `load_changes` asks for the rows of RouteChange from the version on
-- that it has just read, so that those of the version before are passed over.
use lars.Base.{
  ℕ, ◌≡◌, refl, Bool, true, false, not, ◌&&◌, ◌||◌, List, [], ◌∷◌, none, some, ok, ◌==◌, ltb, arith,
}
use lars.Base.Sets.{contains}
use lars.Base.Words.{pair_key}
use lars.Dns.Route.{Row, Route, Database, Checked, Change, changes_since, change_keys, check_round}
use lars.Dns.Route.Loading.{ServesRows, check_round_lem}
use lars.Dns.Subscribe.{SubscribeList, publish}
use lars.Dns.Subscribe.Publishing.{is_pushed, is_pushed-publish}

-- Every row for the module is older than the version.
abbrev pub all_older : ℕ → ℕ → List Change → Bool
all_older k version [] = true
all_older k version (c ∷ cs) =
    (not (pair_key c.modid c.cmdid == k) || ltb c.version version) && all_older k version cs

contains-changes_since :
    (k version : ℕ) (table : List Change)
    → all_older k version table ≡ true
    → contains k (change_keys (changes_since version table)) ≡ false
unfolding contains change_keys changes_since
contains-changes_since k version [] old = refl
contains-changes_since k version (c ∷ cs) old = ground (arith, contains-changes_since k version cs)

-- A round that reads a version of which RouteChange has no row for a module, as when the module's
-- change and the change of another module come between two rounds: the hosts in memory become those of
-- the database, but no subscriber of the module that was not to be told of it before is so after the
-- `publish`, and a later round that finds the same version publishes nothing.
pub missed_change :
    (db : Database) (now last version next : ℕ) (more : List ℕ) (rows : List Row)
    (table : List Change) (r : Route) (l : SubscribeList) (fd k : ℕ)
    → db.versions ≡ some (version ∷ more)
    → db.routes ≡ some rows
    → db.changes version ≡ some (changes_since version table)
    → (version == r.version) ≡ false
    → all_older k version table ≡ true
    → is_pushed fd k l ≡ false
    → (c : Checked) × (check_round db now last r ≡ ok c)
      × ServesRows c.route rows
      × (changes : List ℕ) × (c.published ≡ some changes)
      × (is_pushed fd k (publish changes l) ≡ false)
      × (c' : Checked) × (check_round db next c.last_load_time c.route ≡ ok c')
      × (c'.published ≡ none)
missed_change db now last version next more rows table r l fd k ev er ec differs old quiet =
    let changes = changes_since version table in
    let (c, ran, round) = check_round_lem db now last version more rows changes r ev er ec in
    let (c', ran', round') =
      check_round_lem db next c.last_load_time version more rows changes c.route ev er ec in
    let missing = contains-changes_since k version table old in
    (
      c,
      ran,
      (rw differs at round.1).0,
      change_keys changes,
      rw differs at round.2,
      ground (arith, is_pushed-publish (change_keys changes) fd k l),
      c',
      ran',
      ground (arith, round'.2, round.0),
    )
