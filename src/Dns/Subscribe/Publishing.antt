-- ===== src/Dns/Subscribe/Publishing.antt =====
-- What a change makes the service send, and to whom.
use lars.Base.{
  ℕ, ◌≡◌, refl, ap, ◌∙◌, Bool, ◌&&◌, ◌||◌, List, [], ◌∷◌, if◌then◌else◌, ◌==◌, is_some, arith,
}
use lars.Base.Dict.{Dict, lookup, set_at, insert_at, contains-insert_at}
use lars.Base.Sets.{contains}
use lars.Dns.Subscribe.{
  SubscribeList, publish, push_fds, push_changes, copy_set, copy_online, make_publish_map,
}
use lars.Dns.Subscribe.Booking.{is_booked}

-- Is `fd` still to be told of the module?
abbrev pub is_pushed : ℕ → ℕ → SubscribeList → Bool
is_pushed fd k s = contains k (set_at fd s.push_list)

push_fds_lem :
    (m fd k : ℕ) (fds : List ℕ) (push : Dict (List ℕ))
    → contains k (set_at fd (push_fds m fds push))
      ≡ ((m == k) && contains fd fds || contains k (set_at fd push))
unfolding push_fds contains
push_fds_lem m fd k [] push = ground arith
push_fds_lem m fd k (g ∷ fds) push =
    ground (arith, push_fds_lem m fd k fds (insert_at g m push), contains-insert_at g m fd k push)

push_changes_lem :
    (book : Dict (List ℕ)) (fd k : ℕ) (cs : List ℕ) (push : Dict (List ℕ))
    → contains k (set_at fd (push_changes book cs push))
      ≡ (contains k cs && contains fd (set_at k book) || contains k (set_at fd push))
unfolding push_changes contains
push_changes_lem book fd k [] push = refl
push_changes_lem book fd k (c ∷ cs) push = ground (
  arith,
  push_changes_lem book fd k cs (push_fds c (set_at c book) push),
  push_fds_lem c fd k (set_at c book) push,
  ap (λ j. contains fd (set_at j book)) {x = c} {y = k},
)

-- After `publish` an fd is to be told of a module exactly if it was before, or if the module changed
-- and the fd is subscribed to it.
pub is_pushed-publish :
    (changes : List ℕ) (fd k : ℕ) (s : SubscribeList)
    → is_pushed fd k (publish changes s)
      ≡ (contains k changes && is_booked k fd s || is_pushed fd k s)
unfolding publish
is_pushed-publish changes fd k s = push_changes_lem s.book_list fd k changes s.push_list

copy_set_lem :
    (fd g k : ℕ) (ks : List ℕ) (need : Dict (List ℕ))
    → contains k (set_at g (copy_set fd ks need))
      ≡ ((fd == g) && contains k ks || contains k (set_at g need))
unfolding copy_set contains
copy_set_lem fd g k [] need = ground arith
copy_set_lem fd g k (a ∷ ks) need =
    ground (arith, copy_set_lem fd g k ks (insert_at fd a need), contains-insert_at fd a g k need)

copy_online_lem :
    (online : List ℕ) (push : Dict (List ℕ)) (g k : ℕ) (m need : Dict (List ℕ))
    → contains k (set_at g (copy_online online push m need)) ≡ (
        (is_some (lookup g m) && contains g online) && contains k (set_at g push)
        || contains k (set_at g need))
unfolding copy_online lookup
copy_online_lem online push g k [] need = ground arith
copy_online_lem online push g k ((fd, x) ∷ m) need = ground (
  arith,
  copy_online_lem online push g k m
      (if contains fd online then copy_set fd (set_at fd push) need else need),
  copy_set_lem fd g k (set_at fd push) need,
  ap (λ j. contains k (set_at j push)) {x = fd} {y = g},
  ap (λ j. contains j online) {x = fd} {y = g},
)

-- `make_publish_map` takes of `push_list` what belongs to fds that are online.
pub make_publish_map_lem :
    (online : List ℕ) (g k : ℕ) (s : SubscribeList)
    → contains k (set_at g (make_publish_map online s)) ≡ (contains g online && is_pushed g k s)
unfolding make_publish_map contains lookup
make_publish_map_lem online g k s =
    copy_online_lem online s.push_list g k s.push_list [] ∙ ground arith
