-- ===== src/Capi.antt =====
-- src/capi/capi.cpp: the C interface. A null pointer is `none` (or `false` for the output), and the
-- output buffer is the list that it points to.
pub mod Written
use neuralware_x.Prelude.{
  ℕ, ◌+◌, ◌*◌, ◌<◌, ◌≤◌, ◌≡◌, refl, sym, ◌∙◌, inl, inr, Bool, Bool-cases, true, false, ◌&&◌, Option,
  none, some, List, arith, ltb, if◌then◌else◌, length, get_or, set, length-set, for_up, for_up_inv,
}
use neuralware_x.Prelude.Int.{ℤ, pos, negsuc, pos_part, ltb_ℤ}
use neuralware_x.Double.{Double, nought, one}
use neuralware_x.Tensor.{Tensor2D, Backend, Fits, at, zeros, for_cells, softmax}
use neuralware_x.Tensor.Rows.{softmax-Fits}
use neuralware_x.Scaler.{StandardScaler, transform}
use neuralware_x.Model.{Mlp, forward}
use neuralware_x.Model.Forward.{IsCpu, forward_cells}

-- `Handle`, with the bundle's parts.
pub record Handle (D : Type 0) : Type 0 where
  pub model : Mlp D
  pub has_scaler : Bool
  pub scaler : StandardScaler D

abbrev pub minus_one : ℤ
minus_one = negsuc 0

unfoldable pub nwx_output_dim : {D : Type 0} → Option (Handle D) → ℤ
nwx_output_dim none = minus_one
nwx_output_dim (some h) = pos h.model.w2.cols

module _ {D : Type 0} ⦃d : Double D⦄ where
  -- `X(i,j) = data[i*cols+j]`
  unfoldable pub matrix_of : ℕ → ℕ → List D → Tensor2D D
  matrix_of rows cols data_in =
      for_cells rows cols (λ i j _. get_or data_in (i * cols + j) nought) (zeros rows cols)

  -- `out_probs[i*P.cols+j] = P(i,j)`: the buffer has the layout of a tensor.
  unfoldable pub write_probs : Tensor2D D → List D → List D
  write_probs P buffer =
      let out =
        for_cells P.rows P.cols (λ i j _. at P i j)
          (record { rows = P.rows; cols = P.cols; cells = buffer }) in
      out.cells

  -- With the handle afterwards, whose model keeps the activations of the forward pass.
  unfoldable pub predict : Backend D → Handle D → ℕ → ℕ → List D → List D → Handle D × List D
  predict e h rows cols data_in buffer =
      let X = matrix_of rows cols data_in in
      let X' = if h.has_scaler then transform h.scaler X else X in
      let (m, logits) = forward e h.model X' in
      (record h { model = m }, write_probs (softmax logits) buffer)

  unfoldable pub nwx_predict :
      Backend D
      → Option (Handle D)
      → Option (List D)
      → ℤ
      → ℤ
      → Option (List D)
      → ℤ × Option (Handle D) × Option (List D)
  nwx_predict e none data_in rows cols out = (minus_one, none, out)
  nwx_predict e (some h) none rows cols out = (minus_one, some h, out)
  nwx_predict e (some h) (some xs) rows cols none = (minus_one, some h, none)
  nwx_predict e (some h) (some xs) rows cols (some buffer) =
      let (h', buffer') = predict e h (pos_part rows) (pos_part cols) xs buffer in
      if ltb_ℤ (pos 0) rows && ltb_ℤ (pos 0) cols
      then (pos 0, some h', some buffer')
      else (minus_one, some h, some buffer)
