-- ===== src/Reactor/ConfigFile/Getters.antt =====
-- The getters beside GetString.
use lars.Base.{
  ℕ, ◌≡◌, refl, ap, ◌∙◌, Bool, true, false, not, ◌&&◌, List, [], ◌∷◌, ◌++◌, append_assoc,
  append-nil, is_empty, arith, Option-cases, inl, inr,
}
use lars.Reactor.ConfigFile.{
  Loading, find, get_string, get_string_list, split_list, extend_first, is_separator, get_bool,
  is_true_text, same_text,
}

-- A text without separators, and one of separators only, and not empty.
abbrev pub no_separator : List ℕ → Bool
no_separator [] = true
no_separator (c ∷ cs) = not (is_separator c) && no_separator cs

abbrev pub only_separators : List ℕ → Bool
only_separators [] = true
only_separators (c ∷ cs) = is_separator c && only_separators cs

-- Further entries, each behind its separators.
abbrev pub joined : List (List ℕ × List ℕ) → List ℕ
joined [] = []
joined ((gap, word) ∷ rest) = gap ++ word ++ joined rest

abbrev pub words : List (List ℕ × List ℕ) → List (List ℕ)
words [] = []
words ((gap, word) ∷ rest) = word ∷ words rest

abbrev pub AreEntries : List (List ℕ × List ℕ) → Type 0
AreEntries [] = Unit {0}
AreEntries ((gap, word) ∷ rest) =
    (is_empty gap ≡ false)
    × (only_separators gap ≡ true)
    × (is_empty word ≡ false)
    × (no_separator word ≡ true)
    × AreEntries rest

abbrev prepend : List ℕ → List (List ℕ) → List (List ℕ)
prepend [] ws = ws
prepend (c ∷ cs) ws = extend_first c (prepend cs ws)

split_list-word :
    (word rest : List ℕ)
    → no_separator word ≡ true
    → split_list true (word ++ rest) ≡ prepend word (split_list true rest)
unfolding split_list
split_list-word [] rest clean = refl
split_list-word (c ∷ cs) rest clean = ground (arith, split_list-word cs rest)

split_list-first :
    (word rest : List ℕ)
    → is_empty word ≡ false
    → no_separator word ≡ true
    → split_list false (word ++ rest) ≡ split_list true (word ++ rest)
unfolding split_list
split_list-first [] rest filled clean = ground arith
split_list-first (c ∷ cs) rest filled clean = ground arith

split_list-gap :
    (gap rest : List ℕ)
    → only_separators gap ≡ true
    → split_list false (gap ++ rest) ≡ split_list false rest
unfolding split_list
split_list-gap [] rest clean = refl
split_list-gap (c ∷ cs) rest clean = ground (arith, split_list-gap cs rest)

split_list-end :
    (gap rest : List ℕ)
    → is_empty gap ≡ false
    → only_separators gap ≡ true
    → split_list true (gap ++ rest) ≡ [] ∷ split_list false rest
unfolding split_list
split_list-end [] rest filled clean = ground arith
split_list-end (c ∷ cs) rest filled clean = ground (arith, split_list-gap cs rest)

prepend-cons : (word : List ℕ) (ws : List (List ℕ)) → prepend word ([] ∷ ws) ≡ word ∷ ws
prepend-cons [] ws = refl
prepend-cons (c ∷ cs) ws = ground (arith, prepend-cons cs ws)

split_list-joined :
    (entries : List (List ℕ × List ℕ)) (tail : List ℕ)
    → AreEntries entries
    → only_separators tail ≡ true
    → split_list true (joined entries ++ tail) ≡ [] ∷ words entries
unfolding split_list
split_list-joined [] [] v clean = refl
split_list-joined [] (c ∷ cs) v clean = ground (arith, split_list-gap cs [], append-nil cs)
split_list-joined ((gap, word) ∷ rest) tail v clean =
    let behind = joined rest ++ tail in
    let regroup : (gap ++ word ++ joined rest) ++ tail ≡ gap ++ (word ++ behind) =
      append_assoc (gap ++ word) (joined rest) tail ∙ append_assoc gap word behind in
    ap (split_list true) regroup
    ∙ split_list-end gap (word ++ behind) v.0 v.1
    ∙ ap (λ ws. [] ∷ ws)
        (split_list-first word behind v.2 v.3
          ∙ split_list-word word behind v.3
          ∙ ap (prepend word) (split_list-joined rest tail v.4 clean)
          ∙ prepend-cons word (words rest))

-- `GetStringList` gives the entries of a value back: a first one, the others behind one separator each
-- at least, and any separators behind the last.
pub get_string_list-joined :
    (section key first tail : List ℕ) (rest : List (List ℕ × List ℕ)) (s : Loading)
    → get_string section key [] s ≡ first ++ (joined rest ++ tail)
    → no_separator first ≡ true
    → AreEntries rest
    → only_separators tail ≡ true
    → get_string_list section key s ≡ first ∷ words rest
unfolding get_string_list
get_string_list-joined section key first tail rest s value clean entries end =
    ap (split_list true) value
    ∙ split_list-word first (joined rest ++ tail) clean
    ∙ ap (prepend first) (split_list-joined rest tail entries end)
    ∙ prepend-cons first (words rest)

-- With `true` as the default `GetBool` is true whatever the file says, and with `false` it is true
-- exactly for the text "true" in any case of its letters.
pub get_bool_lem :
    (section key : List ℕ) (s : Loading)
    → (get_bool section key true s ≡ true)
      × (get_bool section key false s ≡ is_true_text (get_string section key [] s))
unfolding get_bool get_string is_true_text same_text
get_bool_lem section key s = elim (Option-cases (find section s.sections)) [
  | inl missing ↦ (rw (missing, get_bool) refl, rw (missing, get_bool, get_string) refl)
  | inr (m, found) ↦ elim (Option-cases (find key m)) [
    | inl missing ↦
        (rw (found, get_bool) (rw missing refl), rw (found, get_bool, get_string) (rw missing refl))
    | inr (value, there) ↦ (
      rw (found, get_bool) (rw there (ground arith)),
      rw (found, get_bool, get_string) (rw there (ground arith)),
    )
  ]
]
