-- ===== src/Scaler.antt =====
-- src/core/scaler.cpp: standardisation of columns.
pub mod Cells
use neuralware_x.Prelude.{ℕ, List, if◌then◌else◌, get_or, set, replicate, for_up}
use neuralware_x.Prelude.Int.{pos}
use neuralware_x.Double.{Double, nought, one}
use neuralware_x.Tensor.{Tensor2D, at, zeros, for_cells}

pub record StandardScaler (D : Type 0) : Type 0 where
  pub mean : List D
  pub stdv : List D

module _ {D : Type 0} ⦃d : Double D⦄ where
  unfoldable pub column_mean : Tensor2D D → ℕ → D
  unfolding for_up
  column_mean X j = d.div (for_up X.rows (λ i s. d.add s (at X i j)) nought) (d.of_int (pos X.rows))

  -- The deviation of a column, 1.0 where it is 0.
  unfoldable pub column_stdv : Tensor2D D → ℕ → D → D
  unfolding for_up
  column_stdv X j mean =
      let v = for_up X.rows (λ i v. let e = d.sub (at X i j) mean in d.add v (d.mul e e)) nought in
      let s = d.sqrt (d.div v (d.of_int (pos X.rows))) in if d.eq s nought then one else s

  unfoldable pub fit : Tensor2D D → StandardScaler D
  unfolding for_up column_mean column_stdv
  fit X =
      for_up X.cols
        (λ j s.
          let m = column_mean X j in
          record { mean = set s.mean j m; stdv = set s.stdv j (column_stdv X j m) })
        (record { mean = replicate X.cols nought; stdv = replicate X.cols nought })

  unfoldable pub transform : StandardScaler D → Tensor2D D → Tensor2D D
  unfolding for_cells
  transform s X =
      for_cells X.rows X.cols
        (λ i j _. d.div (d.sub (at X i j) (get_or s.mean j nought)) (get_or s.stdv j nought))
        (zeros X.rows X.cols)
