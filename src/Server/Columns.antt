-- ===== src/Server/Columns.antt =====
-- The shape that is found in a posted table.
use mathlib.Core.List.{append_assoc}
use neuralware_x.Prelude.{
  ℕ, suc, ◌+◌, ◌<◌, ◌≡◌, refl, ap, ◌∙◌, true, List, [], ◌∷◌, ◌++◌, length, arith,
}
use neuralware_x.Prelude.Text.{codes}
use neuralware_x.Server.Requests.{Shape, in_number, close_row, scan_char, scan}

abbrev pub IsNumber : List ℕ → Type 0
IsNumber [] = Unit
IsNumber (c ∷ w) = (in_number c ≡ true) × IsNumber w

abbrev pub AreNumbers : List (List ℕ) → Type 0
AreNumbers [] = Unit
AreNumbers (w ∷ ws) = IsNumber w × AreNumbers ws

-- The numbers after the first one of a row, and the row.
abbrev pub more_numbers : List (List ℕ) → List ℕ
more_numbers [] = b']' ∷ []
more_numbers (w ∷ ws) = b',' ∷ (w ++ more_numbers ws)

abbrev pub row_text : List ℕ × List (List ℕ) → List ℕ
row_text (w, ws) = b'[' ∷ (w ++ more_numbers ws)

-- The rows after the first one, and the table.
abbrev pub more_rows : List (List ℕ × List (List ℕ)) → List ℕ
more_rows [] = codes "]}"
more_rows (r ∷ rows) = b',' ∷ (row_text r ++ more_rows rows)

abbrev pub table_text : (List ℕ × List (List ℕ)) → List (List ℕ × List (List ℕ)) → List ℕ
table_text r rows = codes "{\"instances\":[" ++ (row_text r ++ more_rows rows)

abbrev pub AreRows : List (List ℕ × List (List ℕ)) → Type 0
AreRows [] = Unit
AreRows (r ∷ rows) = (IsNumber r.0 × AreNumbers r.1) × AreRows rows

scan_char-number : (c : ℕ) (s : Shape) → in_number c ≡ true → scan_char c s ≡ s
unfolding scan_char
scan_char-number c s h = rw h refl

scan-number : (w rest : List ℕ) (s : Shape) → IsNumber w → scan (w ++ rest) s ≡ scan rest s
unfolding scan
scan-number [] rest s h = refl
scan-number (c ∷ w) rest s (h, hs) =
    ap (scan (w ++ rest)) (scan_char-number c s h) ∙ scan-number w rest s hs

shape : (rows cols cur : ℕ) → Shape
shape rows cols cur = record { rows = rows; cols = cols; cur = cur }

-- The rest of a row counts its commas, and closes the row.
scan-more_numbers :
    (ws : List (List ℕ)) (rest : List ℕ) (rows cols cur : ℕ)
    → AreNumbers ws
    → scan (more_numbers ws ++ rest) (shape rows cols cur)
      ≡ scan rest (close_row (shape rows cols (cur + length ws)))
unfolding scan scan_char shape
scan-more_numbers [] rest rows cols cur h =
    ap (λ n. scan rest (close_row (shape rows cols n))) (omega arith)
scan-more_numbers (w ∷ ws) rest rows cols cur (h, hs) =
    ap (λ t. scan t (shape rows cols (cur + 1))) (append_assoc w (more_numbers ws) rest)
    ∙ scan-number w (more_numbers ws ++ rest) (shape rows cols (cur + 1)) h
    ∙ scan-more_numbers ws rest rows cols (cur + 1) hs
    ∙ ap (λ n. scan rest (close_row (shape rows cols n))) (omega arith)

scan-row_text :
    (r : List ℕ × List (List ℕ)) (rest : List ℕ) (rows cols cur : ℕ)
    → IsNumber r.0
    → AreNumbers r.1
    → scan (row_text r ++ rest) (shape rows cols cur)
      ≡ scan rest (close_row (shape rows cols (cur + length r.1)))
unfolding scan scan_char shape
scan-row_text (w, ws) rest rows cols cur h hs =
    ap (λ t. scan t (shape rows cols cur)) (append_assoc w (more_numbers ws) rest)
    ∙ scan-number w (more_numbers ws ++ rest) (shape rows cols cur) h
    ∙ scan-more_numbers ws rest rows cols cur hs

-- Every further row is counted, and does not change the columns.
scan-more_rows :
    (rs : List (List ℕ × List (List ℕ))) (rows cols : ℕ)
    → AreRows rs
    → scan (more_rows rs) (shape rows (suc cols) 0) ≡ shape (rows + length rs) (suc cols) 0
unfolding scan scan_char shape
scan-more_rows [] rows cols h = unclosed
  where
    unclosed : close_row (shape rows (suc cols) 0) ≡ shape (rows + 0) (suc cols) 0
    unclosed = ground arith
scan-more_rows (r ∷ rs) rows cols ((h, hs), t) =
    scan-row_text r (more_rows rs) rows (suc cols) 1 h hs
    ∙ ap (scan (more_rows rs)) (closed (1 + length r.1) (omega arith))
    ∙ scan-more_rows rs (rows + 1) cols t
    ∙ ap (λ n. shape n (suc cols) 0) (omega arith)
  where
    closed :
        (cur : ℕ) → 0 < cur → close_row (shape rows (suc cols) cur) ≡ shape (rows + 1) (suc cols) 0
    closed cur some_cur = ground arith

-- In a posted table whose first row has `m + 2` numbers, the scan finds all the rows, but only `m + 1`
-- columns: it counts the commas of the first row.
pub scan-table_text :
    (w v : List ℕ) (ws : List (List ℕ)) (rs : List (List ℕ × List (List ℕ)))
    → IsNumber w
    → AreNumbers (v ∷ ws)
    → AreRows rs
    → scan (table_text (w, v ∷ ws) rs) (record { rows = 0; cols = 0; cur = 0 })
      ≡ record { rows = length rs + 1; cols = length (v ∷ ws); cur = 0 }
unfolding scan scan_char shape
scan-table_text w v ws rs h hs t =
    scan-row_text (w, v ∷ ws) (more_rows rs) 0 0 0 h hs
    ∙ ap (scan (more_rows rs)) (first_row (0 + suc (length ws)) (omega arith))
    ∙ scan-more_rows rs 1 (length ws) t
    ∙ ap (λ n. shape n (suc (length ws)) 0) (omega arith)
  where
    first_row :
        (cur : ℕ)
        → cur ≡ 0 + suc (length ws)
        → close_row (shape 0 0 cur) ≡ shape 1 (suc (length ws)) 0
    first_row cur some_cur = ground arith
