-- ===== src/Dns/System/News.antt =====
-- The steps of the thread that reloads the routes, and `push_change_task`.
use lars.Base.{
  ℕ, ◌≡◌, refl, sym, ◌∙◌, ap, true, false, List, [], ◌⊎◌, inl, inr, Option, none, some, get_or,
  arith, Bool-cases, Option-cases,
}
use lars.Base.Dict.{set_at}
use lars.Base.Sets.{contains}
use lars.Base.Words.{pair_key}
use lars.Agent.Messages.{HostAddr}
use lars.Dns.Route.{Checked}
use lars.Dns.Subscribe.{publish, push_change_task, route_response}
use lars.Dns.Subscribe.Booking.{is_booked}
use lars.Dns.Subscribe.Publishing.{is_pushed, is_pushed-publish}
use lars.Dns.Subscribe.Pushing.{is_pushed-push_change_task, push_change_task-book_list}
use lars.Dns.Subscribe.Messages.{push_of, push_change_task-Elem}
use lars.Dns.Subscribe.Current.{
  hosts_of, SameHosts, SameHosts-decode_hosts, push_change_task-AllCurrent,
}
use lars.Dns.System.Sent.{Says, Says-deliver, Says-Elem}
use lars.Dns.System.Invariant.{ConnAgrees-same, not_booked, Waits, Knows, Answers, IsSound}
use lars.Dns.System.{
  System, Handling, noted, read, NamesChanges, is_connected, reload, publish_owed, push,
}

module _ (c : Checked) (s : System) (clear_now : s.owed ≡ none)
    (named : NamesChanges s.route c.route (get_or c.published [])) where
  -- The hosts of a module are as before, or it is among the changes.
  same_or_owed :
      (fd k : ℕ) → SameHosts (hosts_of s.route k) (hosts_of c.route k) ⊎ Waits (reload c s) fd k
  unfolding reload
  same_or_owed fd k = elim (named k) [
    | inl same ↦
        inl (SameHosts-decode_hosts (set_at k s.route.data_map) (set_at k c.route.data_map) same)
    | inr changed ↦ inr (inr changed)
  ]

  reload-Waits : (fd k : ℕ) → Waits s fd k → Waits (reload c s) fd k
  unfolding reload contains
  reload-Waits fd k (inl told) = inl told
  reload-Waits fd k (inr owed) =
      let no : contains k [] ≡ true = rw clear_now at owed in absurd (ground arith)

  reload-hosts :
      (fd k : ℕ) (hosts : List HostAddr)
      → SameHosts hosts (hosts_of s.route k)
      → SameHosts hosts (hosts_of c.route k) ⊎ Waits (reload c s) fd k
  reload-hosts fd k hosts right = elim (same_or_owed fd k) [
    | inl same ↦ inl (λ ip port. right ip port ∙ same ip port)
    | inr waits ↦ inr waits
  ]

  reload-Answers : (fd : ℕ) (w : Option Handling) → Answers s fd w → Answers (reload c s) fd w
  unfolding reload
  reload-Answers fd none a = a
  reload-Answers fd (some (noted m c')) a = a
  reload-Answers fd (some (read rsp)) (booked, inl right) =
      (booked, reload-hosts fd _ rsp.host right)
  reload-Answers fd (some (read rsp)) (booked, inr waits) = (booked, inr (reload-Waits fd _ waits))

  pub reload-IsSound : IsSound s → IsSound (reload c s)
  unfolding reload
  reload-IsSound h = record {
    agrees = h.agrees;
    keys = h.keys;
    knows = λ fd k booked. elim (h.knows fd k booked) [
      | inl (hosts, e, right) ↦ elim (reload-hosts fd k hosts right) [
        | inl right' ↦ inl (hosts, e, right')
        | inr waits ↦ inr (inl waits)
      ]
      | inr (inl waits) ↦ inr (inl (reload-Waits fd k waits))
      | inr (inr asks) ↦ inr (inr asks)
    ];
    answers = λ fd. reload-Answers fd (s.handling fd) (h.answers fd);
  }

module _ (changes : List ℕ) (s : System) (owes : s.owed ≡ some changes) where
  publish-Waits :
      (fd k : ℕ) → is_booked k fd s.list ≡ true → Waits s fd k → Waits (publish_owed changes s) fd k
  unfolding publish_owed
  publish-Waits fd k booked (inl told) = inl (ground (arith, is_pushed-publish changes fd k s.list))
  publish-Waits fd k booked (inr owed) =
      let named : contains k changes ≡ true = rw owes at owed in
      inl (ground (arith, is_pushed-publish changes fd k s.list))

  publish-Answers :
      (fd : ℕ) (w : Option Handling) → Answers s fd w → Answers (publish_owed changes s) fd w
  unfolding publish_owed publish
  publish-Answers fd none a = a
  publish-Answers fd (some (noted m c)) a = a
  publish-Answers fd (some (read rsp)) (booked, inl right) = (booked, inl right)
  publish-Answers fd (some (read rsp)) (booked, inr waits) =
      (booked, inr (publish-Waits fd _ booked waits))

  pub publish-IsSound : IsSound s → IsSound (publish_owed changes s)
  unfolding publish_owed publish
  publish-IsSound h = record {
    agrees = λ fd.
        ConnAgrees-same fd s.list (publish changes s.list) (s.conns fd) (λ k. refl) (h.agrees fd);
    keys = h.keys;
    knows = λ fd k booked. elim (h.knows fd k booked) [
      | inl says ↦ inl says
      | inr (inl waits) ↦ inr (inl (publish-Waits fd k booked waits))
      | inr (inr asks) ↦ inr (inr asks)
    ];
    answers = λ fd. publish-Answers fd (s.handling fd) (h.answers fd);
  }

module _ (online : List ℕ) (s : System)
    (idle : (fd : ℕ) → contains fd online ≡ true → s.handling fd ≡ none) where
  is_booked-push :
      (k fd : ℕ)
      → is_booked k fd (push_change_task s.route online (is_connected s) s.list).1
        ≡ is_booked k fd s.list
  is_booked-push k fd =
      ap (λ m. contains fd (set_at k m))
        (push_change_task-book_list s.route online (is_connected s) s.list)

  -- What waited waits still if the fd is not online.
  push-Waits : (fd k : ℕ) → contains fd online ≡ false → Waits s fd k → Waits (push online s) fd k
  unfolding push
  push-Waits fd k off (inl told) =
      inl (ground (arith, is_pushed-push_change_task s.route online (is_connected s) fd k s.list))
  push-Waits fd k off (inr owed) = inr owed

  push-Answers :
      (fd : ℕ) (w : Option Handling)
      → (contains fd online ≡ true → w ≡ none)
      → Answers s fd w
      → Answers (push online s) fd w
  unfolding push
  push-Answers fd none ready a = a
  push-Answers fd (some (noted m c)) ready a = is_booked-push (pair_key m c) fd ∙ a
  push-Answers fd (some (read rsp)) ready (booked, inl right) =
      (is_booked-push _ fd ∙ booked, inl right)
  push-Answers fd (some (read rsp)) ready (booked, inr waits) =
      elim (Bool-cases (contains fd online)) [
        | inl on ↦ let busy : some (read rsp) ≡ none = ready on in absurd (ground arith)
        | inr off ↦ (is_booked-push _ fd ∙ booked, inr (push-Waits fd _ off waits))
      ]

  -- A subscriber that is online and has news waiting gets them.
  pub told-Says :
      (fd k : ℕ)
      → IsSound s
      → is_booked k fd s.list ≡ true
      → contains fd online ≡ true
      → is_pushed fd k s.list ≡ true
      → Says s.route k ((push online s).sent fd)
  unfolding push route_response
  told-Says fd k h booked on told =
      let connected : is_connected s fd ≡ true = elim (Option-cases (s.conns fd)) [
        | inl free ↦
            let no = not_booked fd k s.list (s.conns fd) free (h.agrees fd) in absurd (ground arith)
        | inr (conn, there) ↦ rw there
      ] in
      Says-Elem s.route k fd (push_of s.route fd k) _ s.sent
        (push_change_task-AllCurrent s.route online (is_connected s) s.list)
        (push_change_task-Elem s.route online (is_connected s) fd k s.list on connected told) refl
        (h.keys fd k booked)

  pub push-Says : (fd k : ℕ) → Says s.route k (s.sent fd) → Says s.route k ((push online s).sent fd)
  unfolding push
  push-Says fd k says =
      Says-deliver s.route k fd _ s.sent
        (push_change_task-AllCurrent s.route online (is_connected s) s.list) says

  push-Knows :
      (fd k : ℕ)
      → IsSound s
      → is_booked k fd s.list ≡ true
      → Knows s fd k
      → Knows (push online s) fd k
  unfolding push
  push-Knows fd k h booked (inl says) = inl (push-Says fd k says)
  push-Knows fd k h booked (inr (inl (inl told))) = elim (Bool-cases (contains fd online)) [
    | inl on ↦ inl (told-Says fd k h booked on told)
    | inr off ↦ inr (inl (push-Waits fd k off (inl told)))
  ]
  push-Knows fd k h booked (inr (inl (inr owed))) = inr (inl (inr owed))
  push-Knows fd k h booked (inr (inr asks)) = inr (inr asks)

  pub push-IsSound : IsSound s → IsSound (push online s)
  unfolding push
  push-IsSound h = record {
    agrees = λ fd.
        ConnAgrees-same fd s.list (push_change_task s.route online (is_connected s) s.list).1
          (s.conns fd) (λ k. is_booked-push k fd) (h.agrees fd);
    keys = λ fd k booked. h.keys fd k (sym (is_booked-push k fd) ∙ booked);
    knows = λ fd k booked.
        push-Knows fd k h (sym (is_booked-push k fd) ∙ booked)
          (h.knows fd k (sym (is_booked-push k fd) ∙ booked));
    answers = λ fd. push-Answers fd (s.handling fd) (idle fd) (h.answers fd);
  }
