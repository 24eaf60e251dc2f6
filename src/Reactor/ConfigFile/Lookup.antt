-- ===== src/Reactor/ConfigFile/Lookup.antt =====
-- What a line changes for later calls of `GetString`.
use lars.Base.{
  ℕ, ◌≡◌, refl, ap, true, false, ◌&&◌, ◌||◌, List, [], ◌∷◌, Option, none, some, inl, inr,
  if◌then◌else◌, is_empty, get_or, ok, fault, null_pointer, arith, Bool-cases,
}
use lars.Reactor.ConfigFile.{
  same_text, trim, first_is, is_section, split_line, find, put, Loading, start_loading, load_pair,
  load_line, load_lines, get_string,
}

same_text_eq : (xs ys : List ℕ) → same_text xs ys ≡ true → xs ≡ ys
unfolding same_text
same_text_eq [] [] e = refl
same_text_eq [] (b ∷ ys) e = ground arith
same_text_eq (a ∷ xs) [] e = ground arith
same_text_eq (a ∷ xs) (b ∷ ys) e = ground (arith, same_text_eq xs ys)

same_text_refl : (xs : List ℕ) → same_text xs xs ≡ true
unfolding same_text
same_text_refl [] = refl
same_text_refl (a ∷ xs) = ground (arith, same_text_refl xs)

module _ {ℓ} {V : Type ℓ} where
  find-put :
      (name other : List ℕ) (new : V) (m : List (List ℕ × V))
      → find other (put name new m) ≡ (if same_text name other then some new else find other m)
  unfolding find put
  find-put name other new [] = refl
  find-put name other new ((a, old) ∷ rest) = elim (Bool-cases (same_text a name)) [
    | inl same ↦
        let e : a ≡ name = same_text_eq a name same in
        rw (same, put)
          (rw e (elim (Bool-cases (same_text name other)) [
            | inl hit ↦ rw hit refl
            | inr miss ↦ rw miss refl
          ]))
    | inr differs ↦ elim (Bool-cases (same_text name other)) [
      | inl hit ↦
          let e : name ≡ other = same_text_eq name other hit in
          ground (arith, find-put name other new rest, ap (λ t. same_text a t) e)
      | inr miss ↦ ground (arith, find-put name other new rest)
    ]
  ]

get_string-put :
    (name section key other value default_value : List ℕ) (s : Loading) (now : Option (List ℕ))
    → get_string section other default_value (record {
      sections = put name (put key value (get_or (find name s.sections) [])) s.sections;
      current = now;
    })
      ≡ (if same_text name section && same_text key other
          then value
          else get_string section other default_value s)
unfolding get_string find
get_string-put name section key other value default_value s now =
    let old = get_or (find name s.sections) [] in
    let outer = find-put name section (put key value old) s.sections in
    elim (Bool-cases (same_text name section)) [
      | inr miss ↦ ground (arith, outer)
      | inl hit ↦
          let same = ap (λ t. find t s.sections) (same_text_eq name section hit) in
          ground (arith, outer, same, find-put key other value old)
    ]

-- A line that is no section's and has a '=', in a section, with a key that is neither empty nor a
-- comment once it is trimmed: afterwards `GetString` gives the trimmed value for that section and key,
-- and for every other section and key what it gave before.
pub get_string-load_line :
    (line name key value : List ℕ) (s : Loading)
    → is_section line ≡ none
    → split_line line ≡ some (key, value)
    → s.current ≡ some name
    → is_empty (trim key) ≡ false
    → (first_is 35 (trim key) || first_is 59 (trim key)) ≡ false
    → (s' : Loading) × (load_line line s ≡ ok s')
      × (s'.current ≡ some name)
      × ((section other default_value : List ℕ)
          → get_string section other default_value s' ≡ (
              if same_text name section && same_text (trim key) other
              then trim value
              else get_string section other default_value s))
unfolding load_line load_pair get_string
get_string-load_line line name key value s no_section pair here some_key no_comment =
    let filled =
      put name (put (trim key) (trim value) (get_or (find name s.sections) [])) s.sections in
    (
      record { sections = filled; current = some name },
      rw (no_section, load_line)
          (rw (pair, load_line)
            (rw (some_key, load_pair)
              (rw (no_comment, load_pair)
                (rw (here, load_pair)
                  (ap (λ c. ok (record { sections = filled; current = c })) here))))),
      refl,
      λ section other default_value.
          get_string-put name section (trim key) other (trim value) default_value s (some name),
    )

-- A file whose first line is no section's and has a '=', with a key that is neither empty nor a comment
-- once it is trimmed: `Load` dereferences NULL.
pub load_lines-null :
    (line key value : List ℕ) (lines : List (List ℕ))
    → is_section line ≡ none
    → split_line line ≡ some (key, value)
    → is_empty (trim key) ≡ false
    → (first_is 35 (trim key) || first_is 59 (trim key)) ≡ false
    → load_lines (line ∷ lines) start_loading ≡ fault null_pointer
unfolding load_lines load_line load_pair start_loading
load_lines-null line key value lines no_section pair some_key no_comment =
    rw (no_section, load_line)
      (rw (pair, load_line) (rw (some_key, load_pair) (rw (no_comment, load_pair) refl)))
