-- ===== src/Dns/Subscribe/Messages.antt =====
-- The messages of `push_change_task`: every subscriber that is to be told is told, and nobody else.
use lars.Base.{
  ℕ, ◌≡◌, ap, Bool, true, List, [], ◌∷◌, ◌++◌, ◌⊎◌, inl, inr, if◌then◌else◌, ◌==◌, arith,
  Bool-cases,
}
use lars.Base.Dict.{Dict, lookup, set_at}
use lars.Base.Sets.{contains}
use lars.Base.Words.{key_hi, key_lo}
use lars.Dns.Route.{Route}
use lars.Dns.Subscribe.{
  SubscribeList, Push, route_response, push_modules, push_all, push_change_task, make_publish_map,
}
use lars.Dns.Subscribe.Publishing.{is_pushed, make_publish_map_lem}

-- The message to `fd` about the module of key `k`: its response is decoded from the key.
abbrev pub push_of : Route → ℕ → ℕ → Push
push_of r fd k = record { fd = fd; rsp = route_response r (key_hi k) (key_lo k) }

abbrev pub Elem : Push → List Push → Type 0
Elem p [] = ⊥
Elem p (q ∷ qs) = (p ≡ q) ⊎ Elem p qs

Elem-append_left : (p : Push) (xs ys : List Push) → Elem p xs → Elem p (xs ++ ys)
Elem-append_left p [] ys e = absurd e
Elem-append_left p (x ∷ xs) ys (inl e) = inl e
Elem-append_left p (x ∷ xs) ys (inr e) = inr (Elem-append_left p xs ys e)

Elem-append_right : (p : Push) (xs ys : List Push) → Elem p ys → Elem p (xs ++ ys)
Elem-append_right p [] ys e = e
Elem-append_right p (x ∷ xs) ys e = inr (Elem-append_right p xs ys e)

push_modules-Elem :
    (r : Route) (fd k : ℕ) (ks : List ℕ)
    → contains k ks ≡ true
    → Elem (push_of r fd k) (push_modules r fd ks)
unfolding push_modules contains
push_modules-Elem r fd k [] h = ground arith
push_modules-Elem r fd k (j ∷ ks) h = elim (Bool-cases (j == k)) [
  | inl same ↦ let e : k ≡ j = ground arith in inl (ap (push_of r fd) e)
  | inr other ↦ inr (push_modules-Elem r fd k ks (ground arith))
]

push_all-Elem :
    (r : Route) (connected : ℕ → Bool) (fd k : ℕ) (m : Dict (List ℕ)) (s : SubscribeList)
    → connected fd ≡ true
    → contains k (set_at fd m) ≡ true
    → Elem (push_of r fd k) (push_all r connected m s).0
unfolding push_all lookup contains
push_all-Elem r connected fd k [] s c h = ground arith
push_all-Elem r connected fd k ((g, ks) ∷ m) s c h = elim (Bool-cases (g == fd)) [
  | inl same ↦
      let e : g ≡ fd = ground arith in
      rw e (
        rw c (
          Elem-append_left _ (push_modules r fd ks) _ (push_modules-Elem r fd k ks (ground arith))))
  | inr other ↦
      Elem-append_right _ (if connected g then push_modules r g ks else []) _
        (push_all-Elem r connected fd k m _ c (ground arith))
]

-- Every fd that is online, connected and to be told of a module gets its message.
pub push_change_task-Elem :
    (r : Route) (online : List ℕ) (connected : ℕ → Bool) (fd k : ℕ) (s : SubscribeList)
    → contains fd online ≡ true
    → connected fd ≡ true
    → is_pushed fd k s ≡ true
    → Elem (push_of r fd k) (push_change_task r online connected s).0
unfolding push_change_task
push_change_task-Elem r online connected fd k s on c told =
    push_all-Elem r connected fd k (make_publish_map online s) s c
      (ground (arith, make_publish_map_lem online fd k s))
