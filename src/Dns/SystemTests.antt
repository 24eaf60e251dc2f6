-- ===== src/Dns/SystemTests.antt =====
-- A history of lars_dns.
use lars.Base.{
  ℕ, ◌≡◌, refl, false, true, List, [], ◌∷◌, none, some, ok, arith, ◌==◌, inl, inr, Bool-cases,
}
use lars.Base.Dict.{lookup, insert, insert_at}
use lars.Base.Sets.{contains, add}
use lars.Base.Words.{pair_key}
use lars.Dns.Route.{Row, Route, Database, Checked, check_round, swap, load_rows}
use lars.Dns.Route.{Change, changes_since}
use lars.Dns.Route.Loading.{ServesRows}
use lars.Dns.Subscribe.Publishing.{is_pushed}
use lars.Dns.System.Missed.{missed_change}
use lars.Dns.Subscribe.{new_subscribe_list, subscribe, publish, route_response}
use lars.Dns.Service.{Conn, create_subscribe, get_route}
use lars.Dns.System.Sent.{Says}
use lars.Dns.System.Invariant.{Knows}
use lars.Dns.System.Told.{Reach-Knows, push-all_know}
use lars.Dns.System.{
  System, new_system, connect, note, read_hosts, answer, reload, publish_owed, push, NamesChanges,
  connects, notes, reads, answers, reloads, publishes, AllOrderly, Reach, start, later,
}

abbrev two_rows : List Row
two_rows =
    record { modid = 1; cmdid = 2; ip = 10; port = 80 }
    ∷ record { modid = 1; cmdid = 2; ip = 11; port = 80 }
    ∷ []

abbrev empty_route : Route
empty_route = record { data_map = []; temp_map = []; version = 0 }

abbrev database : Database
database = record {
  versions = some (5 ∷ []);
  routes = some two_rows;
  changes = λ v. some ((1, 2) ∷ []);
}

abbrev conn_7 : Conn
conn_7 = create_subscribe (record { fd = 7; param = none })

-- A connection asks for a module that has no hosts, and the hosts are added to the database.
abbrev asked : System
asked = note 1 2 conn_7 (connect 7 (new_system empty_route 100))

abbrev answered : System
answered = answer 7 (route_response empty_route 1 2) (read_hosts 7 1 2 asked)

abbrev loaded : Route
loaded = record { data_map = load_rows two_rows []; temp_map = []; version = 5 }

abbrev checked : Checked
checked = record { route = loaded; last_load_time = 105; published = some (pair_key 1 2 ∷ []) }

abbrev changed : System
changed = publish_owed (pair_key 1 2 ∷ []) (reload checked answered)

names_module : NamesChanges empty_route loaded (pair_key 1 2 ∷ [])
unfolding load_rows lookup insert insert_at contains
names_module k = elim (Bool-cases (pair_key 1 2 == k)) [
  | inl same ↦ inr (ground arith)
  | inr other ↦ inl (λ v. ground arith)
]

check_round-checked : check_round database 105 100 empty_route ≡ ok checked
unfolding check_round swap
check_round-checked = refl

unfoldable changed_history : Reach (new_system empty_route 100) changed
unfolding new_system connect note read_hosts answer reload publish_owed create_subscribe
changed_history =
    later
      (later
        (later
          (later (later (later start (connects 7 refl)) (notes 1 2 7 conn_7 refl refl))
            (reads 7 1 2 refl))
          (answers 7 (route_response empty_route 1 2) refl))
        (reloads database 105 checked refl check_round-checked))
      (publishes (pair_key 1 2 ∷ []) refl)

changed-AllOrderly : AllOrderly changed_history
unfolding changed_history
changed-AllOrderly = ((((((tt, tt), (omega arith, omega arith)), tt), tt), names_module), tt)

idle_7 : (g : ℕ) → contains g (7 ∷ []) ≡ true → changed.handling g ≡ none
unfolding new_system connect note read_hosts answer reload publish_owed create_subscribe contains
idle_7 g on = ground arith

push-all_know_example : Says loaded (pair_key 1 2) ((push (7 ∷ []) changed).sent 7)
unfolding new_system connect note read_hosts answer reload publish_owed create_subscribe contains
    get_route subscribe publish new_subscribe_list insert insert_at add lookup pair_key
push-all_know_example =
    push-all_know empty_route 100 7 (pair_key 1 2) (7 ∷ []) changed_history changed-AllOrderly refl
      idle_7 refl refl

Reach-Knows_example : Knows changed 7 (pair_key 1 2)
unfolding new_system connect note read_hosts answer reload publish_owed create_subscribe contains
    get_route subscribe publish new_subscribe_list insert insert_at add lookup pair_key
Reach-Knows_example =
    Reach-Knows empty_route 100 7 (pair_key 1 2) changed_history changed-AllOrderly refl

-- Version 4 changed the module (1, 2) and version 5 another one, and no round came in between.
abbrev two_changes : List Change
two_changes =
    record { modid = 1; cmdid = 2; version = 4 } ∷ record { modid = 1; cmdid = 3; version = 5 } ∷ []

abbrev late_database : Database
late_database = record {
  versions = some (5 ∷ []);
  routes = some two_rows;
  changes = λ v. some (changes_since v two_changes);
}

missed_change_example :
    (c : Checked) × (check_round late_database 105 100 empty_route ≡ ok c)
    × ServesRows c.route two_rows
    × (changes : List ℕ) × (c.published ≡ some changes)
    × (is_pushed 7 (pair_key 1 2) (publish changes asked.list) ≡ false)
    × (c' : Checked) × (check_round late_database 106 c.last_load_time c.route ≡ ok c')
    × (c'.published ≡ none)
unfolding new_system connect note create_subscribe contains get_route subscribe new_subscribe_list
    insert insert_at add lookup pair_key
missed_change_example =
    missed_change late_database 105 100 5 106 [] two_rows two_changes empty_route asked.list 7
      (pair_key 1 2) refl refl refl refl refl refl
