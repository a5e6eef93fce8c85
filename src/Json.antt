-- ===== src/Json.antt =====
-- include/nwx/json.hpp and src/core/json.cpp: a parser of flat objects. Text is a list of character
-- codes, and the index of the source is the part that is left; `std::stod` is a parameter, `none` where
-- it throws.
pub mod Entries
pub mod Printed
pub mod Rounds
use neuralware_x.Prelude.{
  ℕ, zero, suc, ◌+◌, Bool, true, false, ◌&&◌, ◌||◌, Option, none, some, List, [], ◌∷◌, ◌++◌, ◌==◌,
  ltb, leb, if◌then◌else◌, length, drop,
}

-- `std::variant<std::string,double,bool>`
pub data JsonValue (D : Type 0) : Type 0 where
  text_value : List ℕ → JsonValue D
  number_value : D → JsonValue D
  bool_value : Bool → JsonValue D

-- `kv_`: the entries of the map, in the order of their first assignment.
abbrev pub Entries : Type 0 → Type 0
Entries D = List (List ℕ × JsonValue D)

abbrev pub quote : ℕ
quote = 34

abbrev pub comma : ℕ
comma = 44

abbrev pub colon : ℕ
colon = 58

abbrev pub open_brace : ℕ
open_brace = 123

abbrev pub close_brace : ℕ
close_brace = 125

abbrev pub is_space : ℕ → Bool
is_space c = (c == 32) || (leb 9 c && leb c 13)

abbrev pub is_digit : ℕ → Bool
is_digit c = leb 48 c && leb c 57

abbrev pub is_sign : ℕ → Bool
is_sign c = (c == 45) || (c == 43)

abbrev pub is_number_char : ℕ → Bool
is_number_char c = is_digit c || ((c == 46) || ((c == 101) || ((c == 69) || is_sign c)))

abbrev pub same_text : List ℕ → List ℕ → Bool
same_text [] [] = true
same_text [] (_ ∷ _) = false
same_text (_ ∷ _) [] = false
same_text (x ∷ xs) (y ∷ ys) = (x == y) && same_text xs ys

-- `text.compare(i, n, word) == 0`, with `n` the length of the word.
abbrev pub begins : List ℕ → List ℕ → Bool
begins [] s = true
begins (w ∷ ws) [] = false
begins (w ∷ ws) (c ∷ s) = (w == c) && begins ws s

abbrev pub true_word : List ℕ
true_word = 116 ∷ 114 ∷ 117 ∷ 101 ∷ []

abbrev pub false_word : List ℕ
false_word = 102 ∷ 97 ∷ 108 ∷ 115 ∷ 101 ∷ []

unfoldable pub skip_ws : List ℕ → List ℕ
skip_ws [] = []
skip_ws (c ∷ s) = let rest = skip_ws s in if is_space c then rest else c ∷ s

-- The characters before the next quote, and what follows the quote.
unfoldable pub until_quote : List ℕ → Option (List ℕ × List ℕ)
until_quote [] = none
until_quote (c ∷ s) =
    if c == quote
    then some ([], s)
    else (elim (until_quote s) [ none ↦ none | some (w, rest) ↦ some (c ∷ w, rest) ])

unfoldable pub number_chars : List ℕ → List ℕ × List ℕ
number_chars [] = ([], [])
number_chars (c ∷ s) =
    let (w, rest) = number_chars s in if is_number_char c then (c ∷ w, rest) else ([], c ∷ s)

-- `kv_[key] = value`
unfoldable pub assign : {D : Type 0} → Entries D → List ℕ → JsonValue D → Entries D
assign [] key value = (key, value) ∷ []
assign ((k, v) ∷ kv) key value =
    let rest = assign kv key value in if same_text k key then (k, value) ∷ kv else (k, v) ∷ rest

-- `kv_.find(key)`
unfoldable pub find : {D : Type 0} → Entries D → List ℕ → Option (JsonValue D)
find [] key = none
find ((k, v) ∷ kv) key = let rest = find kv key in if same_text k key then some v else rest

-- What one round of the loop of `parse` does: it returns from `parse` or leaves the loop, it goes on,
-- or `stod` throws.
pub data Round (D : Type 0) : Type 0 where
  returns : Bool → Entries D → Round D
  goes_on : Entries D → List ℕ → Round D
  throws : Round D

module _ {D : Type 0} (stod : List ℕ → Option D) where
  abbrev pub after_value : Entries D → List ℕ → Round D
  after_value kv [] = goes_on kv []
  after_value kv (c ∷ s) =
      if c == comma
      then goes_on kv s
      else if c == close_brace
      then returns true kv
      else goes_on kv (c ∷ s)

  unfoldable pub string_member : Entries D → List ℕ → Option (List ℕ × List ℕ) → Round D
  string_member kv key none = returns false kv
  string_member kv key (some (w, s)) = after_value (assign kv key (text_value w)) (skip_ws s)

  unfoldable pub number_member : Entries D → List ℕ → Option D → List ℕ → Round D
  number_member kv key none s = throws
  number_member kv key (some x) s = after_value (assign kv key (number_value x)) (skip_ws s)

  -- From the first character of the value.
  unfoldable pub parse_value : Entries D → List ℕ → List ℕ → Round D
  parse_value kv key [] = returns false kv
  parse_value kv key (c ∷ s) =
      let (w, rest) = number_chars (c ∷ s) in
      if c == quote
      then string_member kv key (until_quote s)
      else if is_digit c || is_sign c
      then number_member kv key (stod w) rest
      else if begins true_word (c ∷ s)
      then after_value (assign kv key (bool_value true)) (skip_ws (drop 4 (c ∷ s)))
      else if begins false_word (c ∷ s)
      then after_value (assign kv key (bool_value false)) (skip_ws (drop 5 (c ∷ s)))
      else returns false kv

  -- From the character after the key's closing quote.
  unfoldable pub parse_colon : Entries D → List ℕ → List ℕ → Round D
  parse_colon kv key [] = returns false kv
  parse_colon kv key (c ∷ s) =
      if c == colon then parse_value kv key (skip_ws s) else returns false kv

  unfoldable pub parse_key : Entries D → Option (List ℕ × List ℕ) → Round D
  parse_key kv none = returns false kv
  parse_key kv (some (key, s)) = parse_colon kv key (skip_ws s)

  -- A round, from the character after the spaces; at the end of the text there is no quote.
  unfoldable pub parse_round : Entries D → List ℕ → Round D
  parse_round kv [] = returns false kv
  parse_round kv (c ∷ s) =
      if c == close_brace
      then returns true kv
      else if c == quote
      then parse_key kv (until_quote s)
      else returns false kv

  -- `while (i < text.size())`, with the rounds that are left. `none`: an exception.
  unfoldable pub parse_rounds : ℕ → Entries D → List ℕ → Option (Bool × Entries D)
  parse_rounds fuel kv [] = some (true, kv)
  parse_rounds zero kv (c ∷ s) = some (true, kv)
  parse_rounds (suc fuel) kv (c ∷ s) = elim (parse_round kv (skip_ws (c ∷ s))) [
    | returns b kv' ↦ some (b, kv')
    | throws ↦ none
    | goes_on kv' s' ↦ parse_rounds fuel kv' s'
  ]

  abbrev open_object : List ℕ → Option (Bool × Entries D)
  open_object [] = some (false, [])
  open_object (c ∷ s) = if c == open_brace then parse_rounds (length s) [] s else some (false, [])

  -- A round takes a character at least, so there are as many rounds as characters.
  unfoldable pub parse : List ℕ → Option (Bool × Entries D)
  parse text = open_object (skip_ws text)

module _ {D : Type 0} where
  unfoldable pub get_string : Entries D → List ℕ → Option (List ℕ)
  get_string kv k = elim (find kv k) [ some (text_value w) ↦ some w | _ ↦ none ]

  unfoldable pub get_number : Entries D → List ℕ → Option D
  get_number kv k = elim (find kv k) [ some (number_value x) ↦ some x | _ ↦ none ]

  unfoldable pub get_bool : Entries D → List ℕ → Option Bool
  get_bool kv k = elim (find kv k) [ some (bool_value b) ↦ some b | _ ↦ none ]
