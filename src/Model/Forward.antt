-- ===== src/Model/Forward.antt =====
-- What `forward` computes, cell by cell.
use neuralware_x.Prelude.{
  ℕ, ◌*◌, ◌<◌, ◌≡◌, refl, sym, subst, ap, ap₂, ◌∙◌, none, List, arith, lt→ltb, Bool, true, ◌&&◌,
  length, if◌then◌else◌, get_or,
}
use neuralware_x.Double.{Double, nought}
use neuralware_x.Tensor.{
  Tensor2D, Fits, Backend, at, matmul, matmul_assert, matmul_loops, add_row, add_row_assert,
}
use neuralware_x.Tensor.Matmul.{dot, matmul_loops-Fits, at-matmul_loops, matmul_avx2-eq-loops}
use neuralware_x.Tensor.Rows.{add_row-Fits, at-add_row, relu-Fits, at-relu}
use neuralware_x.Tensor.Cells.{Shows-for_cells, at-for_cells}
use neuralware_x.Activation.{Activation, relu_act, tanh_act, activate, tanh_cells}
use neuralware_x.Model.{Mlp, forward, forward_asserts}

all_true :
    {a b c f : Bool} → a ≡ true → b ≡ true → c ≡ true → f ≡ true → (a && (b && (c && f))) ≡ true
all_true h h1 h2 h3 = rw (h, h1, h2, h3) refl

module _ {D : Type 0} ⦃d : Double D⦄ where
  -- No cuBLAS product: it is not compiled in, or each call fails.
  abbrev pub IsCpu : Backend D → Type 0
  IsCpu e = (A B : Tensor2D D) → e.gpu A B ≡ none

  -- On the processor `matmul` is the portable product, with AVX2 or without.
  pub matmul-eq-loops :
      (e : Backend D) (A B : Tensor2D D) → IsCpu e → matmul e A B ≡ matmul_loops A B
  unfolding matmul
  matmul-eq-loops e A B cpu = ground (arith, cpu A B, matmul_avx2-eq-loops A B)

  -- The activation of one value.
  abbrev pub act_value : Activation → D → D
  act_value relu_act v = if d.lt v nought then nought else v
  act_value tanh_act v = d.tanh v

  activate-Fits : (r c : ℕ) (X : Tensor2D D) (a : Activation) → Fits r c X → Fits r c (activate X a)
  unfolding activate tanh_cells
  activate-Fits r c X relu_act fit = relu-Fits r c X fit
  activate-Fits r c X tanh_act fit =
      (Shows-for_cells r c X.rows X.cols (λ i j _. d.tanh (at X i j)) X fit (omega arith)
        (omega arith)).0

  at-activate :
      (r c : ℕ) (X : Tensor2D D) (a : Activation) (p q : ℕ)
      → Fits r c X
      → p < r
      → q < c
      → at (activate X a) p q ≡ act_value a (at X p q)
  unfolding activate tanh_cells
  at-activate r c X relu_act p q (er, ec, el) hp hq =
      at-relu X p q (el ∙ ap₂ ◌*◌ (sym er) (sym ec)) (omega arith) (omega arith)
  at-activate r c X tanh_act p q fit hp hq =
      at-for_cells r c X.rows X.cols (λ i j _. d.tanh (at X i j)) X p q fit (omega arith)
        (omega arith) hp hq
      ∙ rw (lt→ltb p X.rows (omega arith), lt→ltb q X.cols (omega arith))

  -- A product with a bias: its shape and its cells.
  module _ (e : Backend D) (cpu : IsCpu e) (A W : Tensor2D D) (b : List D) where
    layer-Fits : Fits A.rows W.cols (add_row (matmul e A W) b)
    layer-Fits =
        rw (matmul-eq-loops e A W cpu)
          (add_row-Fits A.rows W.cols (matmul_loops A W) b (matmul_loops-Fits A W))

    at-layer :
        (p q : ℕ)
        → p < A.rows
        → q < W.cols
        → at (add_row (matmul e A W) b) p q ≡ d.add (dot A W p q) (get_or b q nought)
    at-layer p q hp hq =
        let (er, ec, el) = matmul_loops-Fits A W in
        rw (matmul-eq-loops e A W cpu) (
          at-add_row (matmul_loops A W) b p q (el ∙ ap₂ ◌*◌ (sym er) (sym ec)) (omega arith)
            (omega arith)
          ∙ ap (λ v. d.add v (get_or b q nought)) (at-matmul_loops A W p q hp hq))

  matmul-cols : (e : Backend D) (A B : Tensor2D D) → IsCpu e → (matmul e A B).cols ≡ B.cols
  matmul-cols e A B cpu = rw (matmul-eq-loops e A B cpu) (matmul_loops-Fits A B).1

  -- The dimensions of the layers agree with each other and with rows of `cols` values.
  pub record Agrees (m : Mlp D) (cols : ℕ) : Type 0 where
    pub inputs : cols ≡ m.w1.rows
    pub first_bias : length m.b1 ≡ m.w1.cols
    pub layers : m.w1.cols ≡ m.w2.rows
    pub second_bias : length m.b2 ≡ m.w2.cols

  pub forward_asserts-Agrees :
      (e : Backend D) (m : Mlp D) (X : Tensor2D D)
      → IsCpu e
      → Agrees m X.cols
      → forward_asserts e m X ≡ true
  unfolding forward_asserts
  forward_asserts-Agrees e m X cpu a =
      let x1 = add_row (matmul e X m.w1) m.b1 in
      let a1 = activate x1 m.act in
      let hidden = activate-Fits X.rows m.w1.cols x1 m.act (layer-Fits e cpu X m.w1 m.b1) in
      let inputs : matmul_assert X m.w1 ≡ true = ground (arith, a.inputs) in
      let first : add_row_assert (matmul e X m.w1) m.b1 ≡ true =
        ground (arith, matmul-cols e X m.w1 cpu, a.first_bias) in
      let layers : matmul_assert a1 m.w2 ≡ true = ground (arith, hidden.1, a.layers) in
      let second : add_row_assert (matmul e a1 m.w2) m.b2 ≡ true =
        ground (arith, matmul-cols e a1 m.w2 cpu, a.second_bias) in
      all_true inputs first layers second

  -- What a forward pass computes, whatever the dimensions are.
  pub forward_cells :
      (e : Backend D) (m : Mlp D) (X : Tensor2D D)
      → IsCpu e
      → let (m', logits) = forward e m X in
        Fits X.rows m.w2.cols logits
        × Fits X.rows m.w1.cols m'.a1
        × ((p j : ℕ)
            → p < X.rows
            → j < m.w1.cols
            → at m'.a1 p j ≡ act_value m.act (d.add (dot X m.w1 p j) (get_or m.b1 j nought)))
        × ((p q : ℕ)
            → p < X.rows
            → q < m.w2.cols
            → at logits p q ≡ d.add (dot m'.a1 m.w2 p q) (get_or m.b2 q nought))
        × (m'.a2 ≡ logits)
        × (m'.w1 ≡ m.w1)
        × (m'.w2 ≡ m.w2)
  unfolding forward
  forward_cells e m X cpu =
      let x1 = add_row (matmul e X m.w1) m.b1 in
      let a1 = activate x1 m.act in
      let fit = layer-Fits e cpu X m.w1 m.b1 in
      let fit1 = activate-Fits X.rows m.w1.cols x1 m.act fit in
      let rows = fit1.0 in
      (
        subst (λ r. Fits r m.w2.cols (add_row (matmul e a1 m.w2) m.b2)) rows
            (layer-Fits e cpu a1 m.w2 m.b2),
        fit1,
        (λ p j hp hj.
            at-activate X.rows m.w1.cols x1 m.act p j fit hp hj
            ∙ ap (act_value m.act) (at-layer e cpu X m.w1 m.b1 p j hp hj)),
        (λ p q hp hq. at-layer e cpu a1 m.w2 m.b2 p q (omega arith) hq),
        refl,
        refl,
        refl,
      )

  -- On a processor, with AVX2 or without, and with dimensions that agree, every `assert` on the way holds
  -- and `forward` gives one row of logits for each row of the batch: each hidden cell is the activation of
  -- the row's sum of products with a column of W1 plus its bias, each logit the sum of products of those
  -- with a column of W2 plus its bias, added in index order; the model keeps the hidden cells and the
  -- logits, and its weights stay.
  pub forward_lem :
      (e : Backend D) (m : Mlp D) (X : Tensor2D D)
      → IsCpu e
      → Agrees m X.cols
      → let (m', logits) = forward e m X in
        (forward_asserts e m X ≡ true)
        × Fits X.rows m.w2.cols logits
        × Fits X.rows m.w1.cols m'.a1
        × ((p j : ℕ)
            → p < X.rows
            → j < m.w1.cols
            → at m'.a1 p j ≡ act_value m.act (d.add (dot X m.w1 p j) (get_or m.b1 j nought)))
        × ((p q : ℕ)
            → p < X.rows
            → q < m.w2.cols
            → at logits p q ≡ d.add (dot m'.a1 m.w2 p q) (get_or m.b2 q nought))
        × (m'.a2 ≡ logits)
        × (m'.w1 ≡ m.w1)
        × (m'.w2 ≡ m.w2)
  forward_lem e m X cpu agrees =
      let f = forward_cells e m X cpu in
      (forward_asserts-Agrees e m X cpu agrees, f.0, f.1, f.2, f.3, f.4, f.5, f.6)
