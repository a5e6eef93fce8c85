-- ===== src/Tensor/Rows.antt =====
-- What `add_row`, `relu` and `softmax` leave in each cell.
use neuralware_x.Prelude.{
  ℕ, zero, suc, ◌≤◌, ◌<◌, ◌≡◌, refl, ap, ap₂, ◌∙◌, List, ◌&&◌, arith, ltb, lt→ltb, ◌==◌,
  if◌then◌else◌, for_up, get_or,
}
use native.Mathlib.Nat.{le_refl}
use neuralware_x.Double.{Double, nought}
use neuralware_x.Tensor.{
  Tensor2D, Fits, IsShaped, at, put, zeros, add_row, relu, softmax, softmax_row, row_max,
}
use neuralware_x.Tensor.View.{Grid, modify, view, at-view, zeros-Fits, row_loop, at-put_self}
use neuralware_x.Tensor.Cells.{
  Shows, Shows-put, Shows-for_up, Shows-for_cells, at-for_cells, rows_loop,
}

module _ {D : Type 0} ⦃d : Double D⦄ where
  pub add_row-Fits : (r c : ℕ) (A : Tensor2D D) (b : List D) → Fits r c A → Fits r c (add_row A b)
  unfolding add_row
  add_row-Fits r c A b fit =
      (Shows-for_cells r c A.rows A.cols (λ i j v. d.add v (get_or b j nought)) A fit (omega arith)
        (omega arith)).0

  pub at-add_row :
      (A : Tensor2D D) (b : List D) (p q : ℕ)
      → IsShaped A
      → p < A.rows
      → q < A.cols
      → at (add_row A b) p q ≡ d.add (at A p q) (get_or b q nought)
  unfolding add_row
  at-add_row A b p q shaped hp hq =
      at-for_cells A.rows A.cols A.rows A.cols (λ i j v. d.add v (get_or b j nought)) A p q
        (refl, refl, shaped) (le_refl _) (le_refl _) hp hq
      ∙ rw (lt→ltb p A.rows hp, lt→ltb q A.cols hq)

  pub relu-Fits : (r c : ℕ) (X : Tensor2D D) → Fits r c X → Fits r c (relu X)
  unfolding relu
  relu-Fits r c X fit =
      (Shows-for_cells r c X.rows X.cols (λ i j v. if d.lt v nought then nought else v) X fit
        (omega arith) (omega arith)).0

  pub at-relu :
      (X : Tensor2D D) (p q : ℕ)
      → IsShaped X
      → p < X.rows
      → q < X.cols
      → at (relu X) p q ≡ (if d.lt (at X p q) nought then nought else at X p q)
  unfolding relu
  at-relu X p q shaped hp hq =
      at-for_cells X.rows X.cols X.rows X.cols (λ i j v. if d.lt v nought then nought else v) X p q
        (refl, refl, shaped) (le_refl _) (le_refl _) hp hq
      ∙ rw (lt→ltb p X.rows hp, lt→ltb q X.cols hq)

module _ {D : Type 0} ⦃d : Double D⦄ (X : Tensor2D D) where
  -- The exponential in a cell, and the sum of those of its row.
  abbrev pub scaled_exp : ℕ → ℕ → D
  scaled_exp i j = d.exp (d.sub (at X i j) (row_max X i))

  unfoldable pub exp_sum : ℕ → ℕ → D
  exp_sum i n = for_up n (λ j s. d.add s (scaled_exp i j)) nought

  abbrev softmax_step : ℕ → ℕ → Tensor2D D × D → Tensor2D D × D
  softmax_step i j s = let Y' = put s.0 i j (scaled_exp i j) in (Y', d.add s.1 (at Y' i j))

  -- The first loop of a row writes the exponentials, and adds up what it wrote.
  exponentials :
      (r c i n : ℕ) (Y : Tensor2D D)
      → i < r
      → n ≤ c
      → Fits r c Y
      → let s = for_up n (softmax_step i) (Y, nought) in
        Shows r c s.0 (for_up n (λ j. modify i j (λ _. scaled_exp i j)) (view r c Y))
        × (s.1 ≡ exp_sum i n)
  unfolding exp_sum for_up
  exponentials r c i zero Y hi hn fit = ((fit, refl), refl)
  exponentials r c i (suc n) Y hi hn fit =
      let s = for_up n (softmax_step i) (Y, nought) in
      let ((fit', shows), sum) = exponentials r c i n Y hi (omega arith) fit in
      let (fits, put_shows) = Shows-put r c s.0 i n (λ _. scaled_exp i n) fit' hi hn in
      (
        (fits, put_shows ∙ ap (modify i n (λ _. scaled_exp i n)) shows),
        ap₂ d.add sum (at-put_self r c s.0 i n (scaled_exp i n) fit' hi hn),
      )

  row_grid : ℕ → Grid D → Grid D
  row_grid i g =
      for_up X.cols (λ j. modify i j (λ v. d.div v (exp_sum i X.cols)))
        (for_up X.cols (λ j. modify i j (λ _. scaled_exp i j)) g)

  Shows-softmax_row :
      (r i : ℕ) (Y : Tensor2D D)
      → i < r
      → Fits r X.cols Y
      → Shows r X.cols (softmax_row X i Y) (row_grid i (view r X.cols Y))
  unfolding softmax_row row_grid
  Shows-softmax_row r i Y hi fit =
      let s = for_up X.cols (softmax_step i) (Y, nought) in
      let ((fit', shows), sum) = exponentials r X.cols i X.cols Y hi (le_refl _) fit in
      let (fits, divided) =
        Shows-for_up r X.cols X.cols (λ j Y2. put Y2 i j (d.div (at Y2 i j) s.1))
          (λ j. modify i j (λ v. d.div v s.1))
          (λ j u hj fu. Shows-put r X.cols u i j (λ v. d.div v s.1) fu hi hj) s.0 fit' in
      (fits, divided ∙ ap₂ (λ t g. for_up X.cols (λ j. modify i j (λ v. d.div v t)) g) sum shows)

  row_grid-cell :
      (i p q : ℕ) (g : Grid D)
      → row_grid i g p q
        ≡ (if p == i && ltb q X.cols then d.div (scaled_exp p q) (exp_sum p X.cols) else g p q)
  unfolding row_grid
  row_grid-cell i p q g = ground (
    arith,
    row_loop X.cols i (λ j v. d.div v (exp_sum i X.cols))
        (for_up X.cols (λ j. modify i j (λ _. scaled_exp i j)) g) p q,
    row_loop X.cols i (λ j _. scaled_exp i j) g p q,
  )

  Shows-softmax :
      Shows X.rows X.cols
        (softmax X)
        (for_up X.rows row_grid (view X.rows X.cols (zeros X.rows X.cols)))
  unfolding softmax
  Shows-softmax =
      Shows-for_up X.rows X.cols X.rows (softmax_row X) row_grid
        (λ i s hi fs. Shows-softmax_row X.rows i s hi fs) (zeros X.rows X.cols)
        (zeros-Fits D X.rows X.cols)

  pub softmax-Fits : Fits X.rows X.cols (softmax X)
  softmax-Fits = Shows-softmax.0

  -- Each cell of `softmax` is the exponential of its distance to the row's maximum, divided by the
  -- sum of those of the row; the sum is taken from the cells just written, left to right.
  pub at-softmax :
      (p q : ℕ)
      → p < X.rows
      → q < X.cols
      → at (softmax X) p q ≡ d.div (scaled_exp p q) (exp_sum p X.cols)
  at-softmax p q hp hq =
      at-view X.rows X.cols (softmax X) p q softmax-Fits hp hq
      ∙ (λ i. Shows-softmax.1 i p q)
      ∙ rows_loop X.rows p q (ltb q X.cols) (λ _. d.div (scaled_exp p q) (exp_sum p X.cols))
          row_grid (λ i g. row_grid-cell i p q g) _
      ∙ rw (lt→ltb p X.rows hp, lt→ltb q X.cols hq)
