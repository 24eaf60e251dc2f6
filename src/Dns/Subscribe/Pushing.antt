-- ===== src/Dns/Subscribe/Pushing.antt =====
-- What `push_change_task` sends, and what it takes off `push_list`.
use lars.Base.{
  ℕ, ◌≡◌, refl, ap, Bool, true, false, not, ◌&&◌, ◌||◌, List, [], ◌∷◌, if◌then◌else◌, ◌==◌,
  is_empty, is_some, arith,
}
use lars.Base.Dict.{Dict, lookup, erase, lookup-erase, set_at, insert_at, lookup-insert_at}
use lars.Base.Sets.{contains}
use lars.Dns.Route.{Route}
use lars.Dns.Subscribe.{
  SubscribeList, push_all, push_change_task, copy_set, copy_online, make_publish_map,
}
use lars.Dns.Subscribe.Publishing.{is_pushed, make_publish_map_lem}

-- Is there an entry of `fd` with a module?
abbrev pub is_named : ℕ → Dict (List ℕ) → Bool
is_named fd [] = false
is_named fd ((g, ks) ∷ m) = (g == fd) && not (is_empty ks) || is_named fd m

pub is_named_of_contains :
    (fd k : ℕ) (m : Dict (List ℕ)) → contains k (set_at fd m) ≡ true → is_named fd m ≡ true
unfolding contains lookup
is_named_of_contains fd k [] h = ground arith
is_named_of_contains fd k ((g, []) ∷ m) h = ground (arith, is_named_of_contains fd k m)
is_named_of_contains fd k ((g, x ∷ xs) ∷ m) h = ground (arith, is_named_of_contains fd k m)

lookup_of_named : (fd : ℕ) (m : Dict (List ℕ)) → is_named fd m ≡ true → is_some (lookup fd m) ≡ true
unfolding lookup
lookup_of_named fd [] h = ground arith
lookup_of_named fd ((g, ks) ∷ m) h = ground (arith, lookup_of_named fd m)

copy_set_keys :
    (g fd : ℕ) (ks : List ℕ) (need : Dict (List ℕ))
    → is_some (lookup fd (copy_set g ks need)) ≡ true
    → ((g == fd) || is_some (lookup fd need)) ≡ true
unfolding copy_set
copy_set_keys g fd [] need h = ground arith
copy_set_keys g fd (a ∷ ks) need h =
    ground (arith, copy_set_keys g fd ks (insert_at g a need) h, lookup-insert_at g a fd need)

copy_online_keys :
    (online : List ℕ) (push : Dict (List ℕ)) (fd : ℕ) (m need : Dict (List ℕ))
    → is_some (lookup fd (copy_online online push m need)) ≡ true
    → (contains fd online || is_some (lookup fd need)) ≡ true
unfolding copy_online
copy_online_keys online push fd [] need h = ground arith
copy_online_keys online push fd ((g, x) ∷ m) need h = ground (
  arith,
  copy_online_keys online push fd m
      (if contains g online then copy_set g (set_at g push) need else need) h,
  copy_set_keys g fd (set_at g push) need,
  ap (λ j. contains j online) {x = g} {y = fd},
)

pub push_all_lem :
    (r : Route) (connected : ℕ → Bool) (fd k : ℕ) (m : Dict (List ℕ)) (s : SubscribeList)
    → is_pushed fd k (push_all r connected m s).1 ≡ (is_pushed fd k s && not (is_named fd m))
unfolding push_all contains
push_all_lem r connected fd k [] s = ground arith
push_all_lem r connected fd k ((g, ks) ∷ m) s = ground (
  arith,
  push_all_lem r connected fd k m
      (if is_empty ks then s else record s { push_list = erase g s.push_list }),
  lookup-erase g fd s.push_list,
)

-- After `push_change_task` an fd is to be told of a module exactly if it was before and the fd is not
-- online.
pub is_pushed-push_change_task :
    (r : Route) (online : List ℕ) (connected : ℕ → Bool) (fd k : ℕ) (s : SubscribeList)
    → is_pushed fd k (push_change_task r online connected s).1
      ≡ (is_pushed fd k s && not (contains fd online))
unfolding push_change_task make_publish_map lookup
is_pushed-push_change_task r online connected fd k s = ground (
  arith,
  push_all_lem r connected fd k (make_publish_map online s) s,
  make_publish_map_lem online fd k s,
  is_named_of_contains fd k (make_publish_map online s),
  lookup_of_named fd (make_publish_map online s),
  copy_online_keys online s.push_list fd s.push_list [],
)

push_all-book_list :
    (r : Route) (connected : ℕ → Bool) (m : Dict (List ℕ)) (s : SubscribeList)
    → (push_all r connected m s).1.book_list ≡ s.book_list
unfolding push_all
push_all-book_list r connected [] s = refl
push_all-book_list r connected ((fd, ks) ∷ m) s = ground (
  arith,
  push_all-book_list r connected m
      (if is_empty ks then s else record s { push_list = erase fd s.push_list }),
)

pub push_change_task-book_list :
    (r : Route) (online : List ℕ) (connected : ℕ → Bool) (s : SubscribeList)
    → (push_change_task r online connected s).1.book_list ≡ s.book_list
unfolding push_change_task
push_change_task-book_list r online connected s =
    push_all-book_list r connected (make_publish_map online s) s
