-- ===== src/Dns/Subscribe/Booking.antt =====
-- Who is subscribed to what.
use lars.Base.{
  ℕ, ◌≡◌, refl, ap, Bool, true, false, not, ◌&&◌, ◌||◌, List, [], ◌∷◌, inl, inr, ◌==◌, is_empty,
  remove, arith, Bool-cases, Option-cases,
}
use lars.Base.Dict.{lookup, lookup-insert, lookup-erase, set_at, contains-insert_at}
use lars.Base.Sets.{contains, contains-remove}
use lars.Dns.Subscribe.{SubscribeList, subscribe, unsubscribe}

-- Is `fd` subscribed to the module?
abbrev pub is_booked : ℕ → ℕ → SubscribeList → Bool
is_booked module_key fd s = contains fd (set_at module_key s.book_list)

-- After `subscribe` of a module by an fd, an fd is subscribed to a module exactly if they are those two
-- or if it was before.
pub is_booked-subscribe :
    (m fd k g : ℕ) (s : SubscribeList)
    → is_booked k g (subscribe m fd s) ≡ ((m == k) && (fd == g) || is_booked k g s)
unfolding subscribe
is_booked-subscribe m fd k g s = contains-insert_at m fd k g s.book_list

contains-is_empty : (a : ℕ) (xs : List ℕ) → is_empty xs ≡ true → contains a xs ≡ false
unfolding contains
contains-is_empty a [] e = refl
contains-is_empty a (x ∷ xs) e = ground arith

-- After `unsubscribe` of a module by an fd, an fd is subscribed to a module exactly if they are not
-- those two and it was before.
pub is_booked-unsubscribe :
    (m fd k g : ℕ) (s : SubscribeList)
    → is_booked k g (unsubscribe m fd s) ≡ (not ((m == k) && (fd == g)) && is_booked k g s)
unfolding unsubscribe contains
is_booked-unsubscribe m fd k g s = elim (Option-cases (lookup m s.book_list)) [
  | inl e ↦
      rw (e, unsubscribe)
        (elim (Bool-cases (m == k)) [
          | inl same ↦
              let i : m ≡ k = ground arith in ground (arith, ap (λ j. lookup j s.book_list) i)
          | inr other ↦ ground arith
        ])
  | inr (fds, e) ↦ elim (Bool-cases (is_empty (remove fd fds))) [
    | inl last ↦ ground (
      arith,
      lookup-erase m k s.book_list,
      lookup-insert m k (remove fd fds) s.book_list,
      contains-remove g fd fds,
      contains-is_empty g (remove fd fds),
      ap (λ j. lookup j s.book_list) {x = m} {y = k},
    )
    | inr more ↦ ground (
      arith,
      lookup-erase m k s.book_list,
      lookup-insert m k (remove fd fds) s.book_list,
      contains-remove g fd fds,
      contains-is_empty g (remove fd fds),
      ap (λ j. lookup j s.book_list) {x = m} {y = k},
    )
  ]
]
