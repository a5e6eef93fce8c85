-- ===== src/Scaler/Cells.antt =====
-- What `transform` leaves in each cell.
use native.Mathlib.Nat.{le_refl}
use neuralware_x.Prelude.{ℕ, ◌<◌, ◌≡◌, ◌∙◌, lt→ltb, get_or}
use neuralware_x.Double.{Double, nought}
use neuralware_x.Tensor.{Tensor2D, Fits, at, zeros}
use neuralware_x.Tensor.View.{zeros-Fits}
use neuralware_x.Tensor.Cells.{Shows-for_cells, at-for_cells}
use neuralware_x.Scaler.{StandardScaler, transform}

module _ {D : Type 0} ⦃d : Double D⦄ where
  -- A value of column `j`, standardised.
  abbrev pub scaled_value : StandardScaler D → ℕ → D → D
  scaled_value s j v = d.div (d.sub v (get_or s.mean j nought)) (get_or s.stdv j nought)

module _ {D : Type 0} ⦃d : Double D⦄ (s : StandardScaler D) (X : Tensor2D D) where
  pub transform-Fits : Fits X.rows X.cols (transform s X)
  unfolding transform
  transform-Fits =
      (Shows-for_cells X.rows X.cols X.rows X.cols (λ i j _. scaled_value s j (at X i j))
        (zeros X.rows X.cols) (zeros-Fits D X.rows X.cols) (le_refl _) (le_refl _)).0

  pub at-transform :
      (p q : ℕ) → p < X.rows → q < X.cols → at (transform s X) p q ≡ scaled_value s q (at X p q)
  unfolding transform
  at-transform p q hp hq =
      at-for_cells X.rows X.cols X.rows X.cols (λ i j _. scaled_value s j (at X i j))
        (zeros X.rows X.cols) p q (zeros-Fits D X.rows X.cols) (le_refl _) (le_refl _) hp hq
      ∙ rw (lt→ltb p X.rows hp, lt→ltb q X.cols hq)
