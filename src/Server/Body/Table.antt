-- ===== src/Server/Body/Table.antt =====
-- A posted table, as the first reading of `POST /predict` finds it.
use mathlib.Core.List.{append_assoc, append-nil}
use neuralware_x.Prelude.{ℕ, ◌≡◌, ◌≢◌, refl, sym, ap, ◌∙◌, true, Option, List, [], ◌∷◌, ◌++◌, map}
use neuralware_x.Prelude.Text.{codes}
use neuralware_x.Double.{Double}
use neuralware_x.Token.{at_word}
use neuralware_x.Server.Columns.{more_numbers, row_text, more_rows, table_text}
use neuralware_x.Server.Body.{
  number_part, Scan, number_or_nought, through_last, scan_json_char, scan_json, end_row, bracketed,
  json_rows, first_reading,
}

-- The text of a number: some digits, signs, points or exponents.
abbrev pub IsNumberText : List ℕ → Type 0
IsNumberText [] = Unit
IsNumberText (c ∷ w) = (number_part c ≡ true) × IsNumberText w

abbrev pub AreNumberTexts : List (List ℕ) → Type 0
AreNumberTexts [] = Unit
AreNumberTexts (w ∷ ws) = (w ≢ []) × IsNumberText w × AreNumberTexts ws

abbrev pub AreTableRows : List (List ℕ × List (List ℕ)) → Type 0
AreTableRows [] = Unit
AreTableRows (r ∷ rows) = AreNumberTexts (r.0 ∷ r.1) × AreTableRows rows

through_last-cons :
    (c x y : ℕ) (s r : List ℕ) → through_last c s ≡ y ∷ r → through_last c (x ∷ s) ≡ x ∷ (y ∷ r)
unfolding through_last
through_last-cons c x y s r h = rw h refl

-- What stands before the last `]` stays.
through_last-append :
    (xs : List ℕ) → through_last b']' (xs ++ (b']' ∷ (b'}' ∷ []))) ≡ xs ++ (b']' ∷ [])
through_last-append [] = unfold through_last in refl
through_last-append (x ∷ []) = unfold through_last in refl
through_last-append (x ∷ y ∷ xs) = through_last-cons _ _ _ _ _ (through_last-append (y ∷ xs))

-- The rows after the first one, without the end of the table.
abbrev further_rows : List (List ℕ × List (List ℕ)) → List ℕ
further_rows [] = []
further_rows (r ∷ rows) = b',' ∷ (row_text r ++ further_rows rows)

more_rows-split :
    (rows : List (List ℕ × List (List ℕ))) → more_rows rows ≡ further_rows rows ++ codes "]}"
more_rows-split [] = refl
more_rows-split (r ∷ rows) =
    ap (λ t. b',' ∷ (row_text r ++ t)) (more_rows-split rows)
    ∙ ap (λ t. b',' ∷ t) (sym (append_assoc (row_text r) (further_rows rows) (codes "]}")))

rows_text-split :
    (r : List ℕ × List (List ℕ)) (rs : List (List ℕ × List (List ℕ)))
    → b'[' ∷ (row_text r ++ more_rows rs) ≡ (b'[' ∷ (row_text r ++ further_rows rs)) ++ codes "]}"
rows_text-split r rs =
    ap (λ t. b'[' ∷ (row_text r ++ t)) (more_rows-split rs)
    ∙ ap (λ t. b'[' ∷ t) (sym (append_assoc (row_text r) (further_rows rs) (codes "]}")))

-- The text of the rows with their brackets.
bracketed-table_text :
    (r : List ℕ × List (List ℕ)) (rs : List (List ℕ × List (List ℕ)))
    → bracketed (table_text r rs) ≡ b'[' ∷ ((row_text r ++ further_rows rs) ++ (b']' ∷ []))
unfolding at_word
bracketed-table_text r rs =
    ap (through_last b']') (rows_text-split r rs)
    ∙ through_last-append (b'[' ∷ (row_text r ++ further_rows rs))

module _ {D : Type 0} ⦃d : Double D⦄ (stod : List ℕ → Option D) where
  reading : List ℕ → List D → List (List D) → Scan D
  reading num cur rows = record { num = num; cur = cur; rows = rows }

  scan_json_char-number :
      (c : ℕ) (num : List ℕ) (cur : List D) (rows : List (List D))
      → number_part c ≡ true
      → scan_json_char stod c (reading num cur rows) ≡ reading (num ++ (c ∷ [])) cur rows
  unfolding scan_json_char reading
  scan_json_char-number c num cur rows h = rw h refl

  -- The characters of a number are gathered.
  scan_json-number :
      (w rest num : List ℕ) (cur : List D) (rows : List (List D))
      → IsNumberText w
      → scan_json stod (w ++ rest) (reading num cur rows)
        ≡ scan_json stod rest (reading (num ++ w) cur rows)
  unfolding scan_json
  scan_json-number [] rest num cur rows h =
      ap (λ n. scan_json stod rest (reading n cur rows)) (sym (append-nil num))
  scan_json-number (c ∷ w) rest num cur rows (h, hs) =
      ap (scan_json stod (w ++ rest)) (scan_json_char-number c num cur rows h)
      ∙ scan_json-number w rest (num ++ (c ∷ [])) cur rows hs
      ∙ ap (λ n. scan_json stod rest (reading n cur rows)) (append_assoc num (c ∷ []) w)

  abbrev value : List ℕ → D
  value w = number_or_nought stod w

  abbrev pub values_of : List ℕ × List (List ℕ) → List D
  values_of r = value r.0 ∷ map value r.1

  end_row-append :
      (cur : List D) (v : D) (rows : List (List D))
      → end_row stod (reading [] (cur ++ (v ∷ [])) rows)
        ≡ reading [] [] (rows ++ ((cur ++ (v ∷ [])) ∷ []))
  unfolding reading
  end_row-append [] v rows = refl
  end_row-append (x ∷ cur) v rows = refl

  -- A number and the rest of its row.
  scan_json-more_numbers :
      (w : List ℕ) (ws : List (List ℕ)) (rest : List ℕ) (cur : List D) (rows : List (List D))
      → AreNumberTexts (w ∷ ws)
      → scan_json stod (w ++ (more_numbers ws ++ rest)) (reading [] cur rows)
        ≡ scan_json stod rest (reading [] [] (rows ++ ((cur ++ (value w ∷ map value ws)) ∷ [])))
  unfolding scan_json scan_json_char reading
  scan_json-more_numbers [] ws rest cur rows (ne, h, hs) = absurd (ne refl)
  scan_json-more_numbers (c ∷ w) [] rest cur rows (ne, h, hs) =
      scan_json-number (c ∷ w) (more_numbers [] ++ rest) [] cur rows h
      ∙ ap (scan_json stod rest) (end_row-append cur (value (c ∷ w)) rows)
  scan_json-more_numbers (c ∷ w) (v ∷ ws) rest cur rows (ne, h, hs) =
      scan_json-number (c ∷ w) (more_numbers (v ∷ ws) ++ rest) [] cur rows h
      ∙ ap (λ t. scan_json stod t (reading [] (cur ++ (value (c ∷ w) ∷ [])) rows))
          (append_assoc v (more_numbers ws) rest)
      ∙ scan_json-more_numbers v ws rest (cur ++ (value (c ∷ w) ∷ [])) rows hs
      ∙ ap (λ r. scan_json stod rest (reading [] [] (rows ++ (r ∷ []))))
          (append_assoc cur (value (c ∷ w) ∷ []) (value v ∷ map value ws))

  scan_json-row :
      (r : List ℕ × List (List ℕ)) (rest : List ℕ) (rows : List (List D))
      → AreNumberTexts (r.0 ∷ r.1)
      → scan_json stod (row_text r ++ rest) (reading [] [] rows)
        ≡ scan_json stod rest (reading [] [] (rows ++ (values_of r ∷ [])))
  unfolding scan_json scan_json_char reading
  scan_json-row (w, ws) rest rows h =
      ap (λ t. scan_json stod t (reading [] [] rows)) (append_assoc w (more_numbers ws) rest)
      ∙ scan_json-more_numbers w ws rest [] rows h

  scan_json-further_rows :
      (rs : List (List ℕ × List (List ℕ))) (rows : List (List D))
      → AreTableRows rs
      → scan_json stod (further_rows rs ++ (b']' ∷ [])) (reading [] [] rows)
        ≡ reading [] [] (rows ++ map values_of rs)
  unfolding scan_json scan_json_char reading
  scan_json-further_rows [] rows h = ap (reading [] []) (sym (append-nil rows))
  scan_json-further_rows (r ∷ rs) rows (h, hs) =
      ap (λ t. scan_json stod t (reading [] [] rows))
        (append_assoc (row_text r) (further_rows rs) (b']' ∷ []))
      ∙ scan_json-row r (further_rows rs ++ (b']' ∷ [])) rows h
      ∙ scan_json-further_rows rs (rows ++ (values_of r ∷ [])) hs
      ∙ ap (reading [] []) (append_assoc rows (values_of r ∷ []) (map values_of rs))

  -- Of every table of numbers, rows of one number included, the first reading finds all the rows with all
  -- their numbers, in order; a number that `stod` refuses counts as 0.0.
  pub json_rows-table_text :
      (r : List ℕ × List (List ℕ)) (rs : List (List ℕ × List (List ℕ)))
      → AreTableRows (r ∷ rs)
      → json_rows stod (table_text r rs) ≡ map values_of (r ∷ rs)
  unfolding json_rows at_word scan_json scan_json_char reading
  json_rows-table_text r rs (h, hs) =
      ap (λ t. (scan_json stod (through_last b']' t) (reading [] [] [])).rows)
        (rows_text-split r rs)
      ∙ ap (λ t. (scan_json stod t (reading [] [] [])).rows)
          (through_last-append (b'[' ∷ (row_text r ++ further_rows rs)))
      ∙ ap (λ s. s.rows)
          (ap (λ t. scan_json stod t (reading [] [] []))
              (append_assoc (row_text r) (further_rows rs) (b']' ∷ []))
            ∙ scan_json-row r (further_rows rs ++ (b']' ∷ [])) [] h
            ∙ scan_json-further_rows rs (values_of r ∷ []) hs)

  -- The first reading takes that way, since the table has brackets.
  pub first_reading-table_text :
      (r : List ℕ × List (List ℕ)) (rs : List (List ℕ × List (List ℕ)))
      → AreTableRows (r ∷ rs)
      → first_reading stod (table_text r rs) ≡ (map values_of (r ∷ rs), 0)
  unfolding first_reading
  first_reading-table_text r rs h =
      rw (bracketed-table_text r rs, first_reading)
        (ap (λ rows. (rows, 0)) (json_rows-table_text r rs h))
