-- ===== src/Reactor/ConfigFile.antt =====
-- config_file (lars_reactor/src/config_file.cpp): the lines of an ini file and the texts found in
-- them. A text is the list of its character codes; `isspace` is that of the C locale.
pub mod Lookup
pub mod Getters
use lars.Base.{
  ℕ, zero, suc, ◌+◌, ◌-◌, ◌%◌, ◌^◌, map, Bool, true, false, not, ◌&&◌, ◌||◌, List, [], ◌∷◌, Option,
  none, some, if◌then◌else◌, leb, ◌==◌, length, take, drop, is_empty, get_or, is_some, Result, ok,
  fault, ◌>>=◌, null_pointer,
}

unfoldable pub same_text : List ℕ → List ℕ → Bool
same_text [] [] = true
same_text [] (b ∷ ys) = false
same_text (a ∷ xs) [] = false
same_text (a ∷ xs) (b ∷ ys) = (a == b) && same_text xs ys

abbrev pub is_space : ℕ → Bool
is_space c = (c == 32) || (leb 9 c && leb c 13)

unfoldable pub trim_left : List ℕ → List ℕ
trim_left [] = []
trim_left (c ∷ cs) = let rest = trim_left cs in if is_space c then rest else c ∷ cs

-- Whatever stands before the blanks at the end.
unfoldable pub trim_right : List ℕ → List ℕ
trim_right [] = []
trim_right (c ∷ cs) =
    let rest = trim_right cs in if is_empty rest && is_space c then [] else c ∷ rest

unfoldable pub trim : List ℕ → List ℕ
unfolding trim_left trim_right
trim s = trim_left (trim_right s)

abbrev pub first_is : ℕ → List ℕ → Bool
first_is c [] = false
first_is c (d ∷ ds) = d == c

-- `isSection`: the name between the brackets, where the line is a section's.
unfoldable pub is_section : List ℕ → Option (List ℕ)
unfolding trim
is_section line =
    let section = trim line in
    let n = length section in
    if leb n 2
    then none
    else if not (first_is 91 section) || not (first_is 93 (drop (n - 1) section))
    then none
    else some (trim (take (n - 2) (drop 1 section)))

-- The line before and after its first '='.
unfoldable pub split_line : List ℕ → Option (List ℕ × List ℕ)
split_line [] = none
split_line (c ∷ cs) =
    let rest = split_line cs in
    if c == 61 then some ([], cs) else elim rest [ none ↦ none | some p ↦ some (c ∷ p.0, p.1) ]

-- A `std::map` with texts as keys.
module _ {ℓ} {V : Type ℓ} where
  unfoldable pub find : List ℕ → List (List ℕ × V) → Option V
  find name [] = none
  find name ((a, old) ∷ rest) = if same_text a name then some old else find name rest

  unfoldable pub put : List ℕ → V → List (List ℕ × V) → List (List ℕ × V)
  put name new [] = (name, new) ∷ []
  put name new ((a, old) ∷ rest) =
      let more = put name new rest in if same_text a name then (a, new) ∷ rest else (a, old) ∷ more

abbrev pub Section : Type 0
Section = List (List ℕ × List ℕ)

-- `_map`, and the name of the section that `m` points to, where it is not NULL.
pub record Loading : Type 0 where
  pub sections : List (List ℕ × Section)
  pub current : Option (List ℕ)

unfoldable pub start_loading : Loading
start_loading = record { sections = []; current = none }

-- The end of the loop's body, on a trimmed key and its value.
unfoldable pub load_pair : List ℕ → List ℕ → Loading → Result Loading
unfolding put find
load_pair key value s =
    if is_empty key
    then ok s
    else if first_is 35 key || first_is 59 key
    then ok s
    else elim s.current [
      | none ↦ fault null_pointer
      | some name ↦ ok (record s {
        sections = put name (put key value (get_or (find name s.sections) [])) s.sections;
      })
    ]

unfoldable pub load_line : List ℕ → Loading → Result Loading
unfolding is_section split_line trim load_pair find put
load_line line s = elim (is_section line) [
  | some name ↦ ok (record {
    sections = if is_some (find name s.sections) then s.sections else put name [] s.sections;
    current = some name;
  })
  | none ↦ elim (split_line line) [ none ↦ ok s | some p ↦ load_pair (trim p.0) (trim p.1) s ]
]

-- The loop of `Load` over the lines of a file that can be read.
unfoldable pub load_lines : List (List ℕ) → Loading → Result Loading
unfolding load_line
load_lines [] s = ok s
load_lines (line ∷ lines) s = load_line line s >>= load_lines lines

-- `GetString`.
unfoldable pub get_string : List ℕ → List ℕ → List ℕ → Loading → List ℕ
unfolding find
get_string section key default_value s = elim (find section s.sections) [
  | none ↦ default_value
  | some m ↦ get_or (find key m) default_value
]

-- `GetFloat`. `print_float` is what a stream writes for a float, and `read_float` what one reads from a
-- text, `none` where it fails; `zero_float` is 0.
unfoldable pub get_float :
    {F : Type 0} → (F → List ℕ) → (List ℕ → Option F) → F → List ℕ → List ℕ → F → Loading → F
unfolding get_string
get_float print_float read_float zero_float section key default_value s =
    get_or (read_float (get_string section key (print_float default_value) s)) zero_float

abbrev pub is_separator : ℕ → Bool
is_separator c = (c == 44) || (c == 32) || (c == 9)

abbrev pub extend_first : ℕ → List (List ℕ) → List (List ℕ)
extend_first c [] = (c ∷ []) ∷ []
extend_first c (w ∷ ws) = (c ∷ w) ∷ ws

-- The loop of `GetStringList`: `true` while an entry is read, `false` while separators are passed over.
unfoldable pub split_list : Bool → List ℕ → List (List ℕ)
split_list true [] = [] ∷ []
split_list false [] = []
split_list reading (c ∷ cs) =
    let next = split_list false cs in
    let same = split_list true cs in
    if is_separator c then (if reading then [] ∷ next else next) else extend_first c same

unfoldable pub get_string_list : List ℕ → List ℕ → Loading → List (List ℕ)
unfolding get_string split_list
get_string_list section key s = split_list true (get_string section key [] s)

-- `GetNumber`; `read_long` is what the stream reads of a text into a `long long`, as its pattern.
unfoldable pub get_number : (List ℕ → ℕ) → List ℕ → List ℕ → ℕ → Loading → ℕ
unfolding find
get_number read_long section key default_value s = elim (find section s.sections) [
  | none ↦ default_value
  | some m ↦ elim (find key m) [ none ↦ default_value | some value ↦ read_long value % 2 ^ 32 ]
]

abbrev pub to_lower : ℕ → ℕ
to_lower c = if leb 65 c && leb c 90 then c + 32 else c

-- `strcasecmp(…, "true") == 0`.
unfoldable pub is_true_text : List ℕ → Bool
unfolding same_text
is_true_text value = same_text (map to_lower value) (116 ∷ 114 ∷ 117 ∷ 101 ∷ [])

unfoldable pub get_bool : List ℕ → List ℕ → Bool → Loading → Bool
unfolding find is_true_text
get_bool section key default_value s = elim (find section s.sections) [
  | none ↦ default_value
  | some m ↦ elim (find key m) [
    | none ↦ default_value
    | some value ↦ if is_true_text value then true else default_value
  ]
]
