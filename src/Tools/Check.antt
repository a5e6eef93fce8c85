-- ===== src/Tools/Check.antt =====
-- src/app/check.cpp: is a file a table of finite numbers? `finite` is `std::isfinite`.
use Prim.Native.String.{String}
use neuralware_x.Prelude.{
  ℕ, ◌≡◌, ◌↔◌, ◌⊎◌, refl, sym, subst, inl, inr, Bool, Bool-cases, true, false, not, List, [], ◌∷◌,
  ◌==◌, ==_iff, if◌then◌else◌, length, arith,
}
use neuralware_x.Io.Csv.{CsvError, Result, ok, err}
use neuralware_x.Tools.Run.{Run, exits, throws, done}

Result-cases : {A : Type 0} (r : Result A) → ((x : CsvError) × (r ≡ err x)) ⊎ ((a : A) × (r ≡ ok a))
Result-cases (ok a) = inr (a, refl)
Result-cases (err x) = inl (x, refl)

module _ {D : Type 0} (finite : D → Bool) where
  unfoldable pub all_finite : List D → Bool
  all_finite [] = true
  all_finite (v ∷ vs) = let rest = all_finite vs in if finite v then rest else false

  -- The loop over the rows, with what the last line prints: the rows and the columns.
  unfoldable pub check_rows : ℕ → ℕ → List (List D) → Run (ℕ × ℕ)
  check_rows count cols [] = done (count, cols)
  check_rows count cols (row ∷ rows) =
      let rest = check_rows count cols rows in
      if not (length row == cols) then exits 4 else if not (all_finite row) then exits 5 else rest

  -- `read` is what `read_csv_numeric` makes of the file of that name.
  unfoldable pub check_main : (read : String → Result (List (List D))) → List String → Run (ℕ × ℕ)
  check_main read [] = exits 2
  check_main read (path ∷ args) = elim (read path) [
    | err _ ↦ throws
    | ok [] ↦ exits 3
    | ok (row ∷ rows) ↦ check_rows (length (row ∷ rows)) (length row) (row ∷ rows)
  ]

  abbrev pub AllFinite : List D → Type 0
  AllFinite [] = Unit
  AllFinite (v ∷ vs) = (finite v ≡ true) × AllFinite vs

  -- Every row has so many values, and they are finite.
  abbrev pub IsTable : ℕ → List (List D) → Type 0
  IsTable cols [] = Unit
  IsTable cols (row ∷ rows) = ((length row ≡ cols) × AllFinite row) × IsTable cols rows

  all_finite_iff : (vs : List D) → (all_finite vs ≡ true) ↔ AllFinite vs
  unfolding all_finite
  all_finite_iff [] = ground arith
  all_finite_iff (v ∷ vs) = let ih = all_finite_iff vs in ground (arith, ih)

  check_rows_iff :
      (count cols n c : ℕ) (rows : List (List D))
      → (check_rows count cols rows ≡ done (n, c)) ↔ ((n ≡ count) × (c ≡ cols) × IsTable cols rows)
  unfolding check_rows
  check_rows_iff count cols n c [] = ground arith
  check_rows_iff count cols n c (row ∷ rows) =
      let ih = check_rows_iff count cols n c rows in
      let vs = all_finite_iff row in
      elim (Bool-cases (length row == cols)) [
        | inr short ↦ rw short ((λ e. cc), (λ h. ground (arith, short, h)))
        | inl long ↦ elim (Bool-cases (all_finite row)) [
          | inr odd ↦ rw (long, odd) ((λ e. cc), (λ h. ground (arith, vs, odd, h)))
          | inl fine ↦
              let same = (==_iff (length row) cols).0 long in
              rw (long, fine)
                (
                  (λ e. let k = ih.0 e in (k.0, k.1, ((same, vs.0 fine), k.2))),
                  (λ (en, ec, (_, t)). ih.1 (en, ec, t)),
                )
        ]
      ]

  -- The program ends well, with the numbers of rows and columns, exactly when the file that its first
  -- argument names reads as a table with a row at least, whose rows have as many values as the first, all
  -- finite.
  pub check_main_iff :
      (read : String → Result (List (List D))) (path : String) (args : List String) (n cols : ℕ)
      → (check_main read (path ∷ args) ≡ done (n, cols)) ↔ (
          (row : List D) × (rows : List (List D)) × (read path ≡ ok (row ∷ rows))
          × (n ≡ length (row ∷ rows))
          × (cols ≡ length row)
          × IsTable cols (row ∷ rows))
  unfolding check_main
  check_main_iff read path args n cols = (
    (λ e. elim (Result-cases (read path)) [
      | inl (x, r) ↦ let e' = rw (r, check_main) at e in absurd (cc)
      | inr ([], r) ↦ let e' = rw (r, check_main) at e in absurd (cc)
      | inr (row ∷ rows, r) ↦
          let e' = rw (r, check_main) at e in
          let k = (check_rows_iff (length (row ∷ rows)) (length row) n cols (row ∷ rows)).0 e' in
          (row, rows, r, k.0, k.1, subst (λ w. IsTable w (row ∷ rows)) (sym k.1) k.2)
    ]),
    (λ (row, rows, r, en, ec, t).
        rw (r, check_main)
          ((check_rows_iff (length (row ∷ rows)) (length row) n cols (row ∷ rows)).1
            (en, ec, subst (λ w. IsTable w (row ∷ rows)) ec t))),
  )
