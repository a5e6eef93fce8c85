-- ===== src/Capi/Written.antt =====
-- What `nwx_predict` leaves in the output buffer.
use native.Mathlib.Nat.{le_refl}
use neuralware_x.Prelude.{
  ℕ, ◌+◌, ◌*◌, ◌<◌, ◌≡◌, refl, sym, ap, ◌∙◌, inl, inr, Bool-cases, true, ◌&&◌, some, List, arith,
  ltb, lt→ltb, if◌then◌else◌, length, get_or, get_or_ext,
}
use neuralware_x.Prelude.Int.{pos, ltb_ℤ}
use neuralware_x.Double.{Double, nought}
use neuralware_x.Tensor.{Tensor2D, Backend, Fits, at, zeros, for_cells, softmax}
use neuralware_x.Tensor.View.{zeros-Fits, split_index}
use neuralware_x.Tensor.Cells.{Shows-for_cells, at-for_cells}
use neuralware_x.Tensor.Rows.{softmax-Fits}
use neuralware_x.Scaler.{transform}
use neuralware_x.Scaler.Cells.{transform-Fits}
use neuralware_x.Model.{forward, forward_asserts}
use neuralware_x.Model.Forward.{IsCpu, Agrees, forward_asserts-Agrees, forward_cells}
use neuralware_x.Capi.{Handle, matrix_of, write_probs, predict, nwx_predict}

module _ {D : Type 0} ⦃d : Double D⦄ where
  -- A buffer of the right length becomes the cells of the tensor.
  write_probs-cells :
      (r c : ℕ) (P : Tensor2D D) (buffer : List D)
      → Fits r c P
      → length buffer ≡ r * c
      → write_probs P buffer ≡ P.cells
  unfolding write_probs
  write_probs-cells r c P buffer (er, ec, size) whole =
      let out : Tensor2D D = record { rows = P.rows; cols = P.cols; cells = buffer } in
      let fit : Fits P.rows P.cols out = (refl, refl, rw (er, ec) whole) in
      let done =
        (Shows-for_cells P.rows P.cols P.rows P.cols (λ i j _. at P i j) out fit (le_refl _)
          (le_refl _)).0 in
      get_or_ext _ P.cells nought (done.2 ∙ rw (er, ec) (sym size)) λ i below.
        let (p, q, hp, hq, e) = split_index P.rows P.cols i (rw done.2 at below) in
        let cell =
          at-for_cells P.rows P.cols P.rows P.cols (λ i j _. at P i j) out p q fit (le_refl _)
            (le_refl _) hp hq in
        let filled = for_cells P.rows P.cols (λ i j _. at P i j) out in
        let inside : (ltb p P.rows && ltb q P.cols) ≡ true =
          rw (lt→ltb p P.rows hp, lt→ltb q P.cols hq) refl in
        ap (λ k. get_or filled.cells k nought) (e ∙ ap (λ n. p * n + q) (sym done.1))
        ∙ rw inside at cell
        ∙ ap (λ k. get_or P.cells k nought) (sym e)

  matrix_of-Fits : (rows cols : ℕ) (xs : List D) → Fits rows cols (matrix_of rows cols xs)
  unfolding matrix_of
  matrix_of-Fits rows cols xs =
      (Shows-for_cells rows cols rows cols (λ i j _. get_or xs (i * cols + j) nought)
        (zeros rows cols) (zeros-Fits D rows cols) (le_refl _) (le_refl _)).0

  -- The rows that go into the network, scaled if the bundle has a scaler.
  abbrev pub scaled_input : Handle D → ℕ → ℕ → List D → Tensor2D D
  scaled_input h rows cols xs =
      if h.has_scaler then transform h.scaler (matrix_of rows cols xs) else matrix_of rows cols xs

  scaled_input-rows :
      (h : Handle D) (rows cols : ℕ) (xs : List D) → (scaled_input h rows cols xs).rows ≡ rows
  scaled_input-rows h rows cols xs = elim (Bool-cases h.has_scaler) [
    | inl yes_scaler ↦
        rw yes_scaler
          ((transform-Fits h.scaler (matrix_of rows cols xs)).0 ∙ (matrix_of-Fits rows cols xs).0)
    | inr no_scaler ↦ rw no_scaler (matrix_of-Fits rows cols xs).0
  ]

  scaled_input-cols :
      (h : Handle D) (rows cols : ℕ) (xs : List D) → (scaled_input h rows cols xs).cols ≡ cols
  scaled_input-cols h rows cols xs = elim (Bool-cases h.has_scaler) [
    | inl yes_scaler ↦
        rw yes_scaler
          ((transform-Fits h.scaler (matrix_of rows cols xs)).1 ∙ (matrix_of-Fits rows cols xs).1)
    | inr no_scaler ↦ rw no_scaler (matrix_of-Fits rows cols xs).1
  ]

  -- On a processor, with at least one row and one column, a buffer of one double for each row and output,
  -- and dimensions that agree, those of the rows included, every `assert` on the way holds, `nwx_predict`
  -- returns 0, the buffer holds the cells of the softmax of the logits of the rows, scaled if the bundle has
  -- a scaler, and the handle keeps its weights.
  pub nwx_predict_lem :
      (e : Backend D) (h : Handle D) (xs buffer : List D) (rows cols : ℕ)
      → IsCpu e
      → 0 < rows
      → 0 < cols
      → length buffer ≡ rows * h.model.w2.cols
      → Agrees h.model cols
      → let (m, logits) = forward e h.model (scaled_input h rows cols xs) in
        (forward_asserts e h.model (scaled_input h rows cols xs) ≡ true)
        × (nwx_predict e (some h) (some xs) (pos rows) (pos cols) (some buffer)
            ≡ (pos 0, some (record h { model = m }), some (softmax logits).cells))
        × (m.w1 ≡ h.model.w1)
        × (m.w2 ≡ h.model.w2)
  unfolding nwx_predict predict
  nwx_predict_lem e h xs buffer rows cols cpu some_row some_col whole agrees =
      let X = scaled_input h rows cols xs in
      let f = forward_cells e h.model X cpu in
      let logits = (forward e h.model X).1 in
      let P = softmax-Fits logits in
      let shape : Fits rows h.model.w2.cols (softmax logits) = (
        P.0 ∙ f.0.0 ∙ scaled_input-rows h rows cols xs,
        P.1 ∙ f.0.1,
        P.2 ∙ rw (f.0.0, f.0.1, scaled_input-rows h rows cols xs) refl,
      ) in
      let on_rows : ltb_ℤ (pos 0) (pos rows) ≡ true = ground arith in
      let on_cols : ltb_ℤ (pos 0) (pos cols) ≡ true = ground arith in
      let same_cols = scaled_input-cols h rows cols xs ∙ agrees.inputs in
      (
        forward_asserts-Agrees e h.model X cpu (record {
          inputs = same_cols;
          first_bias = agrees.first_bias;
          layers = agrees.layers;
          second_bias = agrees.second_bias;
        }),
        rw
            (
              on_rows,
              on_cols,
              write_probs-cells rows h.model.w2.cols (softmax logits) buffer shape whole,
            )
            refl,
        f.5,
        f.6,
      )
