-- ===== src/Dns/Subscribe/Lost.antt =====
-- A change that is published while `push_change_task` runs: the thread that reloads the routes calls
-- `publish` after `make_publish_map` has let go of the lock, and before the entries are erased.
use lars.Base.{
  ℕ, ◌≡◌, refl, ap, Bool, true, false, List, [], ◌∷◌, ◌++◌, if◌then◌else◌, is_empty, arith,
}
use lars.Base.Dict.{Dict, erase}
use lars.Base.Sets.{contains}
use lars.Dns.Route.{Route}
use lars.Dns.Subscribe.{
  SubscribeList, Push, publish, push_modules, push_all, push_change_task, make_publish_map,
}
use lars.Dns.Subscribe.Booking.{is_booked}
use lars.Dns.Subscribe.Publishing.{is_pushed, is_pushed-publish, make_publish_map_lem}
use lars.Dns.Subscribe.Pushing.{push_all_lem, is_named_of_contains}

-- `push_change_task`, with `publish` in between.
unfoldable pub push_around :
    List ℕ → Route → List ℕ → (ℕ → Bool) → SubscribeList → List Push × SubscribeList
unfolding push_all make_publish_map publish
push_around changes r online connected s =
    push_all r connected (make_publish_map online s) (publish changes s)

-- The messages are those of the copy, whatever is in the list by then.
push_all-same :
    (r : Route) (connected : ℕ → Bool) (m : Dict (List ℕ)) (s s' : SubscribeList)
    → (push_all r connected m s).0 ≡ (push_all r connected m s').0
unfolding push_all
push_all-same r connected [] s s' = refl
push_all-same r connected ((fd, ks) ∷ m) s s' =
    ap (λ out. (if connected fd then push_modules r fd ks else []) ++ out)
      (push_all-same r connected m
        (if is_empty ks then s else record s { push_list = erase fd s.push_list })
        (if is_empty ks then s' else record s' { push_list = erase fd s'.push_list }))

-- An fd that is online has a change `k` waiting. If a change `c` that it is subscribed to is published
-- while `push_change_task` runs, then before the erasing the fd is to be told of `c`; afterwards it is
-- not, and the messages that were sent are those that are sent when nothing is published: the change
-- is lost.
pub push_around-lost :
    (changes : List ℕ) (r : Route) (online : List ℕ) (connected : ℕ → Bool) (fd k c : ℕ)
    (s : SubscribeList)
    → contains fd online ≡ true
    → is_pushed fd k s ≡ true
    → contains c changes ≡ true
    → is_booked c fd s ≡ true
    → (is_pushed fd c (publish changes s) ≡ true)
      × (is_pushed fd c (push_around changes r online connected s).1 ≡ false)
      × ((push_around changes r online connected s).0 ≡ (push_change_task r online connected s).0)
unfolding push_around push_change_task
push_around-lost changes r online connected fd k c s on told changed booked =
    let need = make_publish_map online s in
    (
      ground (arith, is_pushed-publish changes fd c s),
      ground (
        arith,
        push_all_lem r connected fd c need (publish changes s),
        is_named_of_contains fd k need,
        make_publish_map_lem online fd k s,
      ),
      push_all-same r connected need (publish changes s) s,
    )
