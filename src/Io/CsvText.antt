-- ===== src/Io/CsvText.antt =====
-- Printed tables are read back, and the labels are below the number of classes.
use mathlib.Core.List.{append_assoc, append-nil}
use neuralware_x.Prelude.{
  ℕ, ◌+◌, ◌≡◌, ◌≢◌, ◌-◌, length, subst, ◌⊎◌, refl, ap, sym, ◌∙◌, inl, inr, true, false, Option,
  some, List, [], ◌∷◌, ◌++◌, ◌==◌, arith,
}
use neuralware_x.Prelude.Int.{ℤ, pos, negsuc, ◌+ℤ◌, ltb_ℤ}
use neuralware_x.Double.{Double}
use neuralware_x.Io.Csv.{
  CsvError, Result, ok, err, ◌>>=◌, fields, newline, comma, numbers, rows_of, read_csv_numeric,
  CsvDataset, raise, fill_row, fill_rows, dataset_of, load_csv_classification,
}

-- No character of the text is `c`.
abbrev pub Without : ℕ → List ℕ → Type 0
Without c [] = Unit
Without c (x ∷ xs) = (x ≢ c) × Without c xs

-- A cell: some characters, no one of them the separator or the end of the line.
abbrev pub IsCell : ℕ → List ℕ → Type 0
IsCell sep [] = ⊥
IsCell sep (x ∷ xs) = Without sep (x ∷ xs) × Without newline (x ∷ xs)

-- Characters that are not the separator are gathered.
fields-gather :
    (sep : ℕ) (line cell text : List ℕ)
    → Without sep cell
    → fields sep line (cell ++ text) ≡ fields sep (line ++ cell) text
unfolding fields
fields-gather sep line [] text h = ap (λ l. fields sep l text) (sym (append-nil line))
fields-gather sep line (x ∷ cell) text h =
    let other : (x == sep) ≡ false = ground (arith, h.0) in
    rw other (
      fields-gather sep (line ++ (x ∷ [])) cell text h.1
      ∙ ap (λ l. fields sep l text) (append_assoc line (x ∷ []) cell))

fields-separator :
    (sep : ℕ) (line text : List ℕ) → fields sep line (sep ∷ text) ≡ line ∷ fields sep [] text
unfolding fields
fields-separator sep line text = let same : (sep == sep) ≡ true = ground arith in rw same refl

-- A text without the separator is one field.
pub fields-Without :
    (sep c : ℕ) (text : List ℕ)
    → Without sep (c ∷ text)
    → fields sep [] (c ∷ text) ≡ (c ∷ text) ∷ []
unfolding fields
fields-Without sep c text h =
    ap (fields sep []) (sym (append-nil (c ∷ text))) ∙ fields-gather sep [] (c ∷ text) [] h

module _ {D : Type 0} (stod : List ℕ → Option D) (text_of : D → List ℕ) (sep : ℕ) where
  abbrev pub print_cells : D → List D → List ℕ
  print_cells v [] = text_of v
  print_cells v (w ∷ vs) = text_of v ++ (sep ∷ print_cells w vs)

  -- A table whose rows have at least one number each, each row ended by a newline.
  abbrev pub print_rows : List (D × List D) → List ℕ
  print_rows [] = []
  print_rows (row ∷ rows) = print_cells row.0 row.1 ++ (newline ∷ print_rows rows)

  abbrev pub row_lists : List (D × List D) → List (List D)
  row_lists [] = []
  row_lists (row ∷ rows) = (row.0 ∷ row.1) ∷ row_lists rows

  module _ (cells : (v : D) → IsCell sep (text_of v)) (parses : (v : D) → stod (text_of v) ≡ some v)
      (no_newline : sep ≢ newline) where
    cell-Without : (c : ℕ) (text : List ℕ) → IsCell c text → Without c text × Without newline text
    cell-Without c [] h = absurd h
    cell-Without c (x ∷ xs) h = h

    fields-whole : (text : List ℕ) → IsCell sep text → fields sep [] text ≡ text ∷ []
    fields-whole [] h = absurd h
    fields-whole (x ∷ xs) h = fields-Without sep x xs h.0

    numbers-fields :
        (v : D) (vs : List D) → numbers stod (fields sep [] (print_cells v vs)) ≡ ok (v ∷ vs)
    unfolding numbers ◌>>=◌
    numbers-fields v [] = rw (fields-whole (text_of v) (cells v), numbers, parses v) refl
    numbers-fields v (w ∷ vs) =
        rw
          (
            fields-gather sep [] (text_of v) (sep ∷ print_cells w vs)
                (cell-Without sep (text_of v) (cells v)).0,
            fields-separator sep (text_of v) (print_cells w vs),
            numbers,
            parses v,
            numbers-fields w vs,
          )
          refl

    Without-append : (c : ℕ) (xs ys : List ℕ) → Without c xs → Without c ys → Without c (xs ++ ys)
    Without-append c [] ys h h' = h'
    Without-append c (x ∷ xs) ys h h' = (h.0, Without-append c xs ys h.1 h')

    print_cells-line : (v : D) (vs : List D) → Without newline (print_cells v vs)
    print_cells-line v [] = (cell-Without sep (text_of v) (cells v)).1
    print_cells-line v (w ∷ vs) =
        Without-append newline (text_of v) (sep ∷ print_cells w vs)
          (cell-Without sep (text_of v) (cells v)).1 (no_newline, print_cells-line w vs)

    rows_of-line :
        (line : List ℕ) (lines : List (List ℕ)) (vals : List D)
        → numbers stod (fields sep [] line) ≡ ok vals
        → line ≢ []
        → rows_of stod sep (line ∷ lines) ≡ (rows_of stod sep lines >>= λ rows. ok (vals ∷ rows))
    unfolding rows_of ◌>>=◌
    rows_of-line [] lines vals h some_char = absurd (some_char refl)
    rows_of-line (c ∷ cs) lines vals h some_char = rw h refl

    print_cells-nonempty : (v : D) (vs : List D) → print_cells v vs ≢ []
    print_cells-nonempty v [] e = elim_cell (text_of v) (cells v) [] (append-nil (text_of v) ∙ e)
      where
        elim_cell : (text : List ℕ) → IsCell sep text → (rest : List ℕ) → (text ++ rest) ≢ []
        elim_cell [] h rest e' = absurd h
        elim_cell (x ∷ xs) h rest e' = absurd (ground arith)
    print_cells-nonempty v (w ∷ vs) e = other_cell (text_of v) (cells v) (sep ∷ print_cells w vs) e
      where
        other_cell : (text : List ℕ) → IsCell sep text → (rest : List ℕ) → (text ++ rest) ≢ []
        other_cell [] h rest e' = absurd h
        other_cell (x ∷ xs) h rest e' = absurd (ground arith)

    -- A printed table is read back row by row, if `stod` reads back what a number is printed as, and
    -- the print of a number has a character, no separator and no newline.
    pub read_csv_numeric-print_rows :
        (rows : List (D × List D))
        → read_csv_numeric stod (some (print_rows rows)) sep ≡ ok (row_lists rows)
    unfolding read_csv_numeric fields rows_of ◌>>=◌
    read_csv_numeric-print_rows [] = refl
    read_csv_numeric-print_rows (row ∷ rows) =
        rw
          (
            fields-gather newline [] (print_cells row.0 row.1) (newline ∷ print_rows rows)
                (print_cells-line row.0 row.1),
            fields-separator newline (print_cells row.0 row.1) (print_rows rows),
            rows_of-line (print_cells row.0 row.1) (fields newline [] (print_rows rows))
                (row.0 ∷ row.1) (numbers-fields row.0 row.1) (print_cells-nonempty row.0 row.1),
            read_csv_numeric-print_rows rows,
          )
          refl

Result-cases : {A : Type 0} (r : Result A) → ((x : CsvError) × (r ≡ err x)) ⊎ ((a : A) × (r ≡ ok a))
Result-cases (ok a) = inr (a, refl)
Result-cases (err x) = inl (x, refl)

-- Every label of the list is below the bound.
abbrev pub AllBelow : List ℤ → ℤ → Type 0
AllBelow [] n = Unit
AllBelow (z ∷ zs) n = (ltb_ℤ z n ≡ true) × AllBelow zs n

AllBelow-raise : (zs : List ℤ) (z n : ℤ) → AllBelow zs n → AllBelow (zs ++ (z ∷ [])) (raise z n)
unfolding ◌+ℤ◌
AllBelow-raise [] (pos a) (pos b) h = (ground arith, tt)
AllBelow-raise [] (pos a) (negsuc b) h = (ground arith, tt)
AllBelow-raise [] (negsuc a) (pos b) h = (ground arith, tt)
AllBelow-raise [] (negsuc a) (negsuc b) h = (ground arith, tt)
AllBelow-raise (y ∷ zs) z n h = (below_raise y z n h.0, AllBelow-raise zs z n h.1)
  where
    below_raise : (a b c : ℤ) → ltb_ℤ a c ≡ true → ltb_ℤ a (raise b c) ≡ true
    below_raise a b c h' = ground arith

module _ {D : Type 0} ⦃d : Double D⦄ where
  -- What a dataset that is loaded satisfies.
  Bounded : Result (CsvDataset D) → Type 0
  Bounded (ok s) = AllBelow s.y s.n_classes
  Bounded (err x) = Unit

  fill_rows-Bounded :
      (in_dim i : ℕ) (rows : List (List D)) (s : CsvDataset D)
      → AllBelow s.y s.n_classes
      → Bounded (fill_rows in_dim i rows s)
  unfolding fill_rows ◌>>=◌ Bounded
  fill_rows-Bounded in_dim i [] s h = h
  fill_rows-Bounded in_dim i (row ∷ rows) s h = elim (Result-cases (fill_row i 0 in_dim row s.x)) [
    | inl (x, fail) ↦ rw (fill_rows, fail) tt
    | inr ((X, []), filled) ↦ rw (fill_rows, filled) tt
    | inr ((X, v ∷ vs), filled) ↦
        rw (fill_rows, filled)
          (fill_rows-Bounded in_dim (i + 1) rows
            (record {
              x = X;
              y = s.y ++ (d.to_int v ∷ []);
              n_classes = raise (d.to_int v) s.n_classes;
            })
            (AllBelow-raise s.y (d.to_int v) s.n_classes h))
  ]

  load-Bounded :
      (stod : List ℕ → Option D) (file : Option (List ℕ))
      → Bounded (load_csv_classification stod file)
  unfolding load_csv_classification dataset_of ◌>>=◌ Bounded
  load-Bounded stod file = elim (Result-cases (read_csv_numeric stod file comma)) [
    | inl (x, fail) ↦ rw (load_csv_classification, fail) tt
    | inr ([], rows) ↦ rw (load_csv_classification, rows) tt
    | inr (row ∷ rest, rows) ↦
        rw (load_csv_classification, rows) (fill_rows-Bounded (length row - 1) 0 (row ∷ rest) _ tt)
  ]

  -- In a dataset that `load_csv_classification` returns, every label is below the number of classes.
  pub load_csv_classification-AllBelow :
      (stod : List ℕ → Option D) (file : Option (List ℕ)) (s : CsvDataset D)
      → load_csv_classification stod file ≡ ok s
      → AllBelow s.y s.n_classes
  unfolding Bounded
  load_csv_classification-AllBelow stod file s e = subst Bounded e (load-Bounded stod file)
