-- ===== src/Io/Csv.antt =====
-- src/io/csv.cpp and src/core/dataset_bridge.cpp: a file of numbers, and the rows of a classification
-- problem. Text is a list of character codes; `std::stod` is a parameter, `none` where it throws.
use neuralware_x.Prelude.{
  ℕ, zero, suc, ◌+◌, ◌-◌, Option, none, some, List, [], ◌∷◌, ◌++◌, ◌==◌, if◌then◌else◌, length,
}
use neuralware_x.Prelude.Int.{ℤ, pos, ◌+ℤ◌, ltb_ℤ}
use neuralware_x.Double.{Double}
use neuralware_x.Tensor.{Tensor2D, zeros, put}

pub data CsvError : Type 0 where
  failed_to_open invalid_number empty_dataset short_row : CsvError

pub data Result (A : Type 0) : Type 0 where
  ok : A → Result A
  err : CsvError → Result A

infixl 5 ◌>>=◌
unfoldable pub ◌>>=◌ : {A B : Type 0} → Result A → (A → Result B) → Result B
ok a >>= f = f a
err x >>= f = err x

-- `std::getline(in, line, sep)` until it fails: a last field that has no character is none.
abbrev last_field : List ℕ → List (List ℕ)
last_field [] = []
last_field (c ∷ cs) = (c ∷ cs) ∷ []

unfoldable pub fields : ℕ → List ℕ → List ℕ → List (List ℕ)
fields sep line [] = last_field line
fields sep line (c ∷ text) =
    let ended = fields sep [] text in
    let more = fields sep (line ++ (c ∷ [])) text in if c == sep then line ∷ ended else more

abbrev pub newline : ℕ
newline = 10

abbrev pub comma : ℕ
comma = 44

module _ {D : Type 0} (stod : List ℕ → Option D) where
  unfoldable pub numbers : List (List ℕ) → Result (List D)
  numbers [] = ok []
  numbers (cell ∷ cells) = elim (stod cell) [
    | none ↦ err invalid_number
    | some v ↦ numbers cells >>= λ vals. ok (v ∷ vals)
  ]

  -- The empty lines are left out.
  unfoldable pub rows_of : ℕ → List (List ℕ) → Result (List (List D))
  rows_of sep [] = ok []
  rows_of sep ([] ∷ lines) = rows_of sep lines
  rows_of sep ((c ∷ cs) ∷ lines) =
      numbers (fields sep [] (c ∷ cs)) >>= λ vals. rows_of sep lines >>= λ rows. ok (vals ∷ rows)

  -- `none`: the file does not open.
  unfoldable pub read_csv_numeric : Option (List ℕ) → ℕ → Result (List (List D))
  read_csv_numeric none sep = err failed_to_open
  read_csv_numeric (some text) sep = rows_of sep (fields newline [] text)

pub record CsvDataset (D : Type 0) : Type 0 where
  pub x : Tensor2D D
  pub y : List ℤ
  pub n_classes : ℤ

-- `if (label+1 > out_classes) out_classes = label+1;`
abbrev pub raise : ℤ → ℤ → ℤ
raise label classes = if ltb_ℤ classes (label +ℤ pos 1) then label +ℤ pos 1 else classes

module _ {D : Type 0} ⦃d : Double D⦄ where
  -- `X(i,j) = rows[i][j]` for the columns from `j`; a row that ends before `in_dim` is read past its
  -- end in the source.
  unfoldable pub fill_row : ℕ → ℕ → ℕ → List D → Tensor2D D → Result (Tensor2D D × List D)
  fill_row i j zero row X = ok (X, row)
  fill_row i j (suc left) [] X = err short_row
  fill_row i j (suc left) (v ∷ row) X = fill_row i (j + 1) left row (put X i j v)

  unfoldable pub fill_rows : ℕ → ℕ → List (List D) → CsvDataset D → Result (CsvDataset D)
  fill_rows in_dim i [] s = ok s
  fill_rows in_dim i (row ∷ rows) s = fill_row i 0 in_dim row s.x >>= λ filled. elim filled.1 [
    | [] ↦ err short_row
    | v ∷ _ ↦
        let label = d.to_int v in
        fill_rows in_dim (i + 1) rows
          (record { x = filled.0; y = s.y ++ (label ∷ []); n_classes = raise label s.n_classes })
  ]

  unfoldable pub dataset_of : List (List D) → Result (CsvDataset D)
  dataset_of [] = err empty_dataset
  dataset_of (row ∷ rows) =
      let in_dim = length row - 1 in
      fill_rows in_dim 0 (row ∷ rows)
        (record { x = zeros (length (row ∷ rows)) in_dim; y = []; n_classes = pos 0 })

  unfoldable pub load_csv_classification :
      (List ℕ → Option D) → Option (List ℕ) → Result (CsvDataset D)
  load_csv_classification stod file = read_csv_numeric stod file comma >>= dataset_of
