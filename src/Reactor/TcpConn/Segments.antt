-- ===== src/Reactor/TcpConn/Segments.antt =====
-- However the bytes of messages are cut into segments, the same messages arrive.
use lars.Base.{
  ℕ, ◌+◌, ◌≤◌, ◌<◌, ◌≡◌, refl, sym, ap, ◌∙◌, true, false, List, [], ◌∷◌, ◌++◌, none, some, ◌⊎◌, inl,
  inr, ltb, length, is_empty, Result, ok, fault, exits, ◌>>=◌, arith, Bool-cases, append_assoc,
  length-append, append-nil,
}
use lars.Reactor.ReactorBuf.{ReactorBuf, contents}
use lars.Reactor.ReactorBuf.Append.{IsReady}
use lars.Reactor.TcpConn.{Message, TcpConn, head_bytes, read_head, do_read, input_of, with_input}
use lars.Reactor.TcpConn.Framing.{
  encode, encode_all, IsMessage, AllMessages, is_partial, read_head-head_bytes, length-head_bytes,
}
use lars.Reactor.TcpConn.Receiving.{do_read_lem}

-- Segments arrive one after the other, each announced by `ioctl`; the messages of all calls, in order.
unfoldable pub feed : List (List ℕ) → TcpConn → Result (List Message × TcpConn)
unfolding do_read
feed [] c = ok ([], c)
feed (seg ∷ segs) c =
    do_read (some (length seg)) (some seg) c >>= λ o. feed segs o.1 >>= λ o'. ok (o.0 ++ o'.0, o'.1)

abbrev pub joined : List (List ℕ) → List ℕ
joined [] = []
joined (seg ∷ segs) = seg ++ joined segs

abbrev pub NoneEmpty : List (List ℕ) → Type 0
NoneEmpty [] = Unit {0}
NoneEmpty (seg ∷ segs) = (is_empty seg ≡ false) × NoneEmpty segs

read_head_short : (bs : List ℕ) → length bs < 8 → read_head bs ≡ none
unfolding read_head
read_head_short [] l = refl
read_head_short (a ∷ []) l = refl
read_head_short (a ∷ b ∷ []) l = refl
read_head_short (a ∷ b ∷ c ∷ []) l = refl
read_head_short (a ∷ b ∷ c ∷ d ∷ []) l = refl
read_head_short (a ∷ b ∷ c ∷ d ∷ e ∷ []) l = refl
read_head_short (a ∷ b ∷ c ∷ d ∷ e ∷ f ∷ []) l = refl
read_head_short (a ∷ b ∷ c ∷ d ∷ e ∷ f ∷ g ∷ []) l = refl
read_head_short (a ∷ b ∷ c ∷ d ∷ e ∷ f ∷ g ∷ h ∷ rest) l = ground arith

read_head-append : (bs tail : List ℕ) → 8 ≤ length bs → read_head (bs ++ tail) ≡ read_head bs
unfolding read_head
read_head-append [] tail l = ground arith
read_head-append (a ∷ []) tail l = ground arith
read_head-append (a ∷ b ∷ []) tail l = ground arith
read_head-append (a ∷ b ∷ c ∷ []) tail l = ground arith
read_head-append (a ∷ b ∷ c ∷ d ∷ []) tail l = ground arith
read_head-append (a ∷ b ∷ c ∷ d ∷ e ∷ []) tail l = ground arith
read_head-append (a ∷ b ∷ c ∷ d ∷ e ∷ f ∷ []) tail l = ground arith
read_head-append (a ∷ b ∷ c ∷ d ∷ e ∷ f ∷ g ∷ []) tail l = ground arith
read_head-append (a ∷ b ∷ c ∷ d ∷ e ∷ f ∷ g ∷ h ∷ rest) tail l = refl

head_of :
    (m : Message) (ys : List ℕ)
    → IsMessage m
    → read_head (encode m ++ ys) ≡ some (m.msgid, length m.body)
head_of m ys i =
    ap read_head (append_assoc (head_bytes m.msgid (length m.body)) m.body ys)
    ∙ read_head-head_bytes m.msgid (length m.body) (m.body ++ ys) i.0 (ground arith)

length-encode : (m : Message) → length (encode m) ≡ 8 + length m.body
length-encode m = length-head_bytes m.msgid (length m.body) m.body

-- A true prefix of a message is less than a message.
prefix-is_partial :
    (m : Message) (bs tail ys : List ℕ)
    → IsMessage m
    → bs ++ tail ≡ encode m ++ ys
    → length bs < length (encode m)
    → is_partial bs ≡ true
prefix-is_partial m bs tail ys i e short = elim (Bool-cases (ltb (length bs) 8)) [
  | inl tiny ↦ rw (read_head_short bs (ground arith), is_partial) refl
  | inr long ↦
      let head : read_head bs ≡ some (m.msgid, length m.body) =
        sym (read_head-append bs tail (ground arith)) ∙ ap read_head e ∙ head_of m ys i in
      rw (head, is_partial) (ground (arith, length-encode m))
]

-- A message and more is not.
message-is_partial : (m : Message) (ys : List ℕ) → IsMessage m → is_partial (encode m ++ ys) ≡ false
message-is_partial m ys i =
    let head = head_of m ys i in
    rw (head, is_partial) (ground (arith, length-encode m, length-append (encode m) ys))

cut :
    (xs ys bs tail : List ℕ)
    → bs ++ tail ≡ xs ++ ys
    → length xs ≤ length bs
    → (more : List ℕ) × (bs ≡ xs ++ more) × (more ++ tail ≡ ys)
cut [] ys bs tail e l = (bs, refl, e)
cut (x ∷ xs) ys [] tail e l = ground arith
cut (x ∷ xs) ys (b ∷ bs) tail e l =
    let (more, eq, left) = cut xs ys bs tail (ground (arith, e)) (ground arith) in
    (more, ground (arith, e, eq), left)

pub refl_partial : is_partial [] ≡ true
unfolding read_head
refl_partial = refl

-- Bytes that begin the bytes of messages are some of the messages and less than one more.
abbrev Split : List Message → List ℕ → List ℕ → Type 0
Split ms bs tail =
    (done : List Message) × (left : List Message) × (rest : List ℕ) × (bs ≡ encode_all done ++ rest)
    × (is_partial rest ≡ true)
    × (ms ≡ done ++ left)
    × AllMessages done
    × AllMessages left
    × (rest ++ tail ≡ encode_all left)

split :
    (ms : List Message) (bs tail : List ℕ)
    → AllMessages ms
    → bs ++ tail ≡ encode_all ms
    → Split ms bs tail
split [] [] tail all e = ([], [], [], refl, refl_partial, refl, tt, tt, e)
split [] (b ∷ bs) tail all e = ground (arith, e)
split (m ∷ ms) bs tail all e = elim (Bool-cases (ltb (length bs) (length (encode m)))) [
  | inl short ↦ (
    [],
    m ∷ ms,
    bs,
    refl,
    prefix-is_partial m bs tail (encode_all ms) all.0 e (ground arith),
    refl,
    tt,
    all,
    e,
  )
  | inr long ↦
      let (more, eq, e') = cut (encode m) (encode_all ms) bs tail e (ground arith) in
      let (done, left, rest, eq', part, both, ad, al, e'') = split ms more tail all.1 e' in
      (
        m ∷ done,
        left,
        rest,
        eq ∙ ap (λ bs. encode m ++ bs) eq' ∙ sym (append_assoc (encode m) (encode_all done) rest),
        part,
        ap (λ ms. m ∷ ms) both,
        (all.0, ad),
        al,
        e'',
      )
]

length-encode_all_append :
    (xs ys : List Message)
    → length (encode_all (xs ++ ys)) ≡ length (encode_all xs) + length (encode_all ys)
length-encode_all_append [] ys = ground arith
length-encode_all_append (x ∷ xs) ys = ground (
  arith,
  length-encode_all_append xs ys,
  length-append (encode x) (encode_all (xs ++ ys)),
  length-append (encode x) (encode_all xs),
)

-- Messages with a body of 1 to 65527 bytes each and an id of 32 bits, in any segments that are not empty,
-- on a connection in order where less than a message waits, with no more bytes in all than the largest
-- buffer: all the messages arrive, each once and in order, and nothing waits; or the pool's limit is
-- reached and the process exits.
pub feed_lem :
    (segs : List (List ℕ)) (ms : List Message) (c : TcpConn)
    → IsReady (input_of c)
    → AllMessages ms
    → NoneEmpty segs
    → is_partial (contents (input_of c)) ≡ true
    → contents (input_of c) ++ joined segs ≡ encode_all ms
    → length (encode_all ms) ≤ 8388608
    → ((s : ReactorBuf) × (feed segs c ≡ ok (ms, with_input s c)) × IsReady s × (contents s ≡ []))
      ⊎ (feed segs c ≡ fault exits)
unfolding feed
feed_lem [] [] c v all ne part e fits =
    inl (input_of c, refl, v, sym (append-nil (contents (input_of c))) ∙ e)
feed_lem [] (m ∷ ms) c v all ne part e fits =
    let whole : contents (input_of c) ≡ encode m ++ encode_all ms =
      sym (append-nil (contents (input_of c))) ∙ e in
    ground (arith, part, ap is_partial whole, message-is_partial m (encode_all ms) all.0)
feed_lem (seg ∷ segs) ms c v all ne part e fits =
    let (done, left, rest, shape, less, both, ad, al, e') =
      split ms (contents (input_of c) ++ seg) (joined segs) all
        (append_assoc (contents (input_of c)) seg (joined segs) ∙ e) in
    let sizes : length (encode_all ms)
        ≡ length (contents (input_of c)) + (length seg + length (joined segs)) =
      ap length (sym e)
      ∙ length-append (contents (input_of c)) (seg ++ joined segs)
      ∙ ap (λ n. length (contents (input_of c)) + n) (length-append seg (joined segs)) in
    elim (do_read_lem done rest seg c v ad ne.0 shape less) [
      | inr (inl big) ↦ ground (arith, sizes, fits, big)
      | inr (inr stops) ↦ inr (rw stops refl)
      | inl (s, ran, v', waits) ↦
          elim (feed_lem segs left (with_input s c) v' al ne.1 (ap is_partial waits ∙ less)
            (ap (λ bs. bs ++ joined segs) waits ∙ e')
            (ground (
              arith,
              fits,
              ap (λ xs. length (encode_all xs)) both,
              length-encode_all_append done left,
            ))) [
              | inr stops ↦ inr (rw ran (rw stops refl))
              | inl (s', went, v'', none_left) ↦ inl (
                s',
                rw ran (rw went (ap (λ xs. ok (xs, with_input s' c)) (sym both))),
                v'',
                none_left,
              )
            ]
    ]
