-- ===== src/Calibration.antt =====
-- src/app/main.cpp: the temperature of the softmax, chosen on the validation rows, and the predictions of a
-- loaded model.
pub mod Chosen
use neuralware_x.Prelude.{
  ℕ, zero, suc, ◌+◌, Bool, true, false, Option, none, some, List, [], ◌∷◌, ◌++◌, map, if◌then◌else◌,
  length, get_or, for_up,
}
use neuralware_x.Double.{Double, nought, one}
use neuralware_x.Tensor.{Tensor2D, Backend, at, zeros, for_cells, softmax, cross_entropy, argmax}
use neuralware_x.Scaler.{transform}
use neuralware_x.Model.{Mlp, forward}
use neuralware_x.Quant.{quantize_weights}
use neuralware_x.Capi.{Handle}

-- The grid has 91 temperatures in exact arithmetic; a few more rounds leave room for rounding.
abbrev pub grid_rounds : ℕ
grid_rounds = 100

-- `bestT` and `bestNLL`.
pub record Best (D : Type 0) : Type 0 where
  pub temperature : D
  pub nll : D

module _ {D : Type 0} ⦃d : Double D⦄ where
  -- `for (double &u : L.data) u /= T;`
  unfoldable pub divided : D → Tensor2D D → Tensor2D D
  divided T L = record L { cells = map (λ u. d.div u T) L.cells }

  unfoldable pub nll_for : Tensor2D D → List ℕ → D → D
  unfolding divided
  nll_for logits_v yv T = cross_entropy (softmax (divided T logits_v)) yv

  abbrev pub last_temperature : D
  last_temperature = d.add (d.decimal 5 0) (d.decimal 1 9)

  abbrev pub next_temperature : D → D
  next_temperature T = d.add T (d.decimal 5 2)

  unfoldable pub better : (D → D) → D → Best D → Best D
  better nll T b = let n = nll T in if d.lt n b.nll then record { temperature = T; nll = n } else b

  -- `for (double T=0.5; T<=5.0 + 1e-9; T += 0.05)`, with the rounds that are left; `none`: there are more.
  unfoldable pub search_grid : ℕ → (D → D) → D → Best D → Option (Best D)
  search_grid zero nll T b = if d.le T last_temperature then none else some b
  search_grid (suc fuel) nll T b =
      let rest = search_grid fuel nll (next_temperature T) (better nll T b) in
      if d.le T last_temperature then rest else some b

  unfoldable pub calibrate : Tensor2D D → List ℕ → Option (Best D)
  unfolding search_grid nll_for
  calibrate logits_v yv =
      let nll = nll_for logits_v yv in
      search_grid grid_rounds nll (d.decimal 5 1) (record { temperature = one; nll = nll one })

  -- include/nwx/quant_runtime.hpp.
  unfoldable pub enable_runtime_quantization : Mlp D → Mlp D
  enable_runtime_quantization m = record m {
    quant = record { enabled = true; l1 = quantize_weights m.w1; l2 = quantize_weights m.w2 };
  }

  -- `Xp(i,j)=pred_rows[i][j]`
  unfoldable pub rows_matrix : List (List D) → Tensor2D D
  rows_matrix pred_rows =
      for_cells (length pred_rows) (length (get_or pred_rows 0 []))
        (λ i j _. get_or (get_or pred_rows i []) j nought)
        (zeros (length pred_rows) (length (get_or pred_rows 0 [])))

  abbrev pub labels_below : Tensor2D D → ℕ → List ℕ
  labels_below probs zero = []
  labels_below probs (suc n) = labels_below probs n ++ (argmax probs n ∷ [])

  -- `for (double &u : logits.data) u /= model.temperature;` and the label of each row.
  abbrev pub labels_from : D → Tensor2D D → List ℕ
  labels_from T logits = let probs = softmax (divided T logits) in labels_below probs probs.rows

  -- The predicted labels of the rows, with the scaler of the bundle that was loaded.
  unfoldable pub predict_labels : Backend D → Bool → Handle D → List (List D) → List ℕ
  unfolding divided rows_matrix enable_runtime_quantization
  predict_labels e quantize_runtime h pred_rows =
      let X = rows_matrix pred_rows in
      let Xp = if h.has_scaler then transform h.scaler X else X in
      let m = if quantize_runtime then enable_runtime_quantization h.model else h.model in
      labels_from m.temperature (forward e m Xp).1
