-- ===== src/Server/Body.antt =====
-- src/app/serve.cpp: the rows in the body of `POST /predict`. `std::stod` is a parameter, `none` where it
-- throws. The source reads the body twice. The first reading takes the table between the brackets, or the
-- lines where there are no brackets. The second one takes the lines again, whatever the first one did, into
-- another `rows` inside the block of the bodies that begin with `{`; those rows are the ones that are used.
pub mod Table
use neuralware_x.Prelude.{
  ℕ, suc, ◌+◌, ◌-◌, Bool, true, false, ◌&&◌, ◌||◌, Option, none, some, List, [], ◌∷◌, ◌++◌, ◌==◌,
  ltb, leb, if◌then◌else◌, length, take, map,
}
use neuralware_x.Double.{Double, nought}
use neuralware_x.Token.{at_word}
use neuralware_x.Io.Csv.{fields, newline, comma}

-- A digit, a sign, a point or an exponent.
abbrev pub number_part : ℕ → Bool
number_part c =
    (leb b'0' c && leb c b'9') || (c == b'-') || (c == b'.') || (c == b'e') || (c == b'E')

-- `num`, `cur` and `rows`.
pub record Scan (D : Type 0) : Type 0 where
  pub num : List ℕ
  pub cur : List D
  pub rows : List (List D)

-- The text up to and including the last `c`.
unfoldable pub through_last : ℕ → List ℕ → List ℕ
through_last c [] = []
through_last c (x ∷ s) = elim (through_last c s) [
  | [] ↦ if x == c then x ∷ [] else []
  | y ∷ r ↦ x ∷ (y ∷ r)
]

-- The text from the first `[` to the last `]`, nothing where there is none behind it.
abbrev pub bracketed : List ℕ → List ℕ
bracketed body = elim (at_word (b'[' ∷ []) body) [ none ↦ [] | some rest ↦ through_last b']' rest ]

module _ {D : Type 0} ⦃d : Double D⦄ (stod : List ℕ → Option D) where
  -- `try { … stod … } catch(...) { 0.0 }`
  abbrev pub number_or_nought : List ℕ → D
  number_or_nought num = elim (stod num) [ none ↦ nought | some v ↦ v ]

  abbrev pub end_number : Scan D → Scan D
  end_number s = elim s.num [
    | [] ↦ s
    | c ∷ cs ↦ record s { num = []; cur = s.cur ++ (number_or_nought (c ∷ cs) ∷ []) }
  ]

  abbrev pub end_row : Scan D → Scan D
  end_row s = elim s.cur [
    | [] ↦ s
    | v ∷ vs ↦ record s { cur = []; rows = s.rows ++ ((v ∷ vs) ∷ []) }
  ]

  unfoldable pub scan_json_char : ℕ → Scan D → Scan D
  scan_json_char c s =
      if number_part c
      then record s { num = s.num ++ (c ∷ []) }
      else if (c == b',') || (c == b']')
      then (let s' = end_number s in if c == b']' then end_row s' else s')
      else s

  unfoldable pub scan_json : List ℕ → Scan D → Scan D
  unfolding scan_json_char
  scan_json [] s = s
  scan_json (c ∷ arr) s = scan_json arr (scan_json_char c s)

  abbrev pub nothing_read : Scan D
  nothing_read = record { num = []; cur = []; rows = [] }

  -- From the first `[` to the last `]`, if there is one behind it.
  unfoldable pub json_rows : List ℕ → List (List D)
  unfolding scan_json at_word through_last
  json_rows body = elim (at_word (b'[' ∷ []) body) [
    | none ↦ []
    | some rest ↦ (scan_json (through_last b']' rest) nothing_read).rows
  ]

  -- The lines in the first reading: the rows, and how often 400 is sent, since a line that is too long is
  -- answered and passed over.
  unfoldable pub first_lines : List (List ℕ) → List (List D) × ℕ
  first_lines [] = ([], 0)
  first_lines ([] ∷ lines) = first_lines lines
  first_lines ((c ∷ line) ∷ lines) =
      let (rows, sent) = first_lines lines in
      if ltb 4096 (length (c ∷ line))
      then (rows, sent + 1)
      else (map number_or_nought (fields comma [] (c ∷ line)) ∷ rows, sent)

  -- The first reading of a body that begins with `{`.
  unfoldable pub first_reading : List ℕ → List (List D) × ℕ
  unfolding json_rows first_lines at_word through_last
  first_reading body = elim (bracketed body) [
    | [] ↦ first_lines (fields newline [] body)
    | c ∷ arr ↦ (json_rows body, 0)
  ]

  -- The second reading.
  unfoldable pub line_rows : List (List ℕ) → List (List D) × ℕ
  line_rows [] = ([], 0)
  line_rows ([] ∷ lines) = line_rows lines
  line_rows ((c ∷ line) ∷ lines) =
      let (rows, sent) = line_rows lines in
      if ltb 4096 (length (c ∷ line))
      then (rows, sent + 1)
      else (map number_or_nought (fields comma [] (c ∷ line)) ∷ rows, sent)

-- `body_type == "json"`
abbrev pub is_json : List ℕ → Bool
is_json [] = false
is_json (c ∷ body) = c == b'{'
