-- ===== src/Dns/Tests.antt =====
-- The DNS service on small inputs.
use lars.Base.{ℕ, ◌≡◌, refl, false, true, ◌||◌, List, [], ◌∷◌, none, some, ok, arith, ◌==◌, get_ok}
use lars.Base.Dict.{lookup, insert, insert_at}
use lars.Base.Sets.{contains, add}
use lars.Base.Words.{pair_key}
use lars.Dns.Route.{Row, Route, Database, Checked, load_route_data, swap, check_round, change_keys}
use lars.Dns.Route.Loading.{AllRows, IsRow, Round, check_round_lem}
use lars.Dns.Subscribe.{
  SubscribeList, new_subscribe_list, subscribe, publish, push_change_task, route_response,
}
use lars.Dns.Subscribe.Booking.{is_booked}
use lars.Dns.Subscribe.Publishing.{is_pushed}
use lars.Dns.Subscribe.Lost.{push_around, push_around-lost}
use lars.Dns.Subscribe.Decoding.{has_host, has_host-route_response}
use lars.Dns.Service.{Conn, get_route, create_subscribe}
use lars.Dns.Service.Hooks.{is_noted, get_route-is_booked}

abbrev row_a : Row
row_a = record { modid = 1; cmdid = 2; ip = 10; port = 80 }

abbrev row_b : Row
row_b = record { modid = 1; cmdid = 2; ip = 11; port = 80 }

abbrev two_rows : List Row
two_rows = row_a ∷ row_b ∷ []

two_rows-AllRows : AllRows two_rows
two_rows-AllRows = (
  (ground arith, ground arith, ground arith, ground arith),
  ((ground arith, ground arith, ground arith, ground arith), tt),
)

abbrev start_route : Route
start_route = record { data_map = []; temp_map = []; version = 0 }

abbrev loaded_route : Route
loaded_route = get_ok start_route (load_route_data (some two_rows) start_route)

row_b-IsRow : IsRow row_b
row_b-IsRow = (ground arith, ground arith, ground arith, ground arith)

has_host-route_response_example :
    has_host 11 80 (route_response (swap loaded_route) 1 2).host ≡ true
unfolding load_route_data
has_host-route_response_example =
    has_host-route_response two_rows row_b start_route two_rows-AllRows row_b-IsRow (ground arith)
      refl refl

abbrev database : Database
database = record {
  versions = some (5 ∷ []);
  routes = some two_rows;
  changes = λ v. some ((1, 2) ∷ []);
}

check_round_lem_example :
    (c : Checked) × (check_round database 100 95 start_route ≡ ok c)
    × Round 5 two_rows (change_keys ((1, 2) ∷ [])) 100 95 start_route c
check_round_lem_example =
    check_round_lem database 100 95 5 [] two_rows ((1, 2) ∷ []) start_route refl refl refl

-- Two connections on one module.
abbrev booked : SubscribeList
booked = subscribe 300 8 (subscribe 300 7 new_subscribe_list)

-- A connection that has asked for no module yet, and one that has asked for one.
abbrev first_conn : Conn
first_conn = create_subscribe (record { fd = 7; param = none })

nothing_booked : (k : ℕ) → is_booked k first_conn.fd new_subscribe_list ≡ is_noted k first_conn
unfolding create_subscribe new_subscribe_list lookup contains
nothing_booked k = refl

get_route-is_booked_example :
    (is_noted 5 (get_route start_route 1 2 first_conn new_subscribe_list).1
      ≡ ((pair_key 1 2 == 5) || is_noted 5 first_conn))
    × (is_booked 5 first_conn.fd (get_route start_route 1 2 first_conn new_subscribe_list).2
        ≡ is_noted 5 (get_route start_route 1 2 first_conn new_subscribe_list).1)
unfolding create_subscribe
get_route-is_booked_example =
    get_route-is_booked start_route 1 2 first_conn new_subscribe_list [] refl nothing_booked 5

-- A change of module 301 comes in while that of module 300 is sent to fd 7.
abbrev two_modules : SubscribeList
two_modules = publish (300 ∷ []) (subscribe 301 7 booked)

push_around-lost_example :
    (is_pushed 7 301 (publish (301 ∷ []) two_modules) ≡ true)
    × (is_pushed 7 301 (push_around (301 ∷ []) start_route (7 ∷ []) (λ fd. true) two_modules).1
        ≡ false)
    × ((push_around (301 ∷ []) start_route (7 ∷ []) (λ fd. true) two_modules).0
        ≡ (push_change_task start_route (7 ∷ []) (λ fd. true) two_modules).0)
unfolding publish subscribe new_subscribe_list contains lookup insert insert_at add
push_around-lost_example =
    push_around-lost (301 ∷ []) start_route (7 ∷ []) (λ fd. true) 7 300 301 two_modules refl refl
      refl refl
