-- ===== src/Model.antt =====
-- src/core/model.cpp: the two-layer network. `forward` keeps the activations of the batch in the
-- model, and `backward` reads them.
pub mod Forward
pub mod Alone
use neuralware_x.Prelude.{
  ℕ, ◌+◌, Bool, ◌&&◌, List, map, if◌then◌else◌, length, get_or, set, replicate, for_up,
}
use neuralware_x.Prelude.Int.{pos}
use neuralware_x.Double.{Double, Rng, nought, one}
use neuralware_x.Tensor.{
  Tensor2D, Backend, at, put, zeros, for_cells, matmul, matmul_assert, add_row, add_row_assert,
  softmax, xavier_init,
}
use neuralware_x.Activation.{Activation, activate, activate_grad}
use neuralware_x.Quant.{QuantMlp}

pub record Mlp (D : Type 0) : Type 0 where
  pub temperature : D
  pub quant : QuantMlp D
  pub act : Activation
  pub in_dim : ℕ
  pub hidden : ℕ
  pub out : ℕ
  pub w1 : Tensor2D D
  pub w2 : Tensor2D D
  pub b1 : List D
  pub b2 : List D
  pub x1 : Tensor2D D
  pub a1 : Tensor2D D
  pub a2 : Tensor2D D

module _ {D : Type 0} ⦃d : Double D⦄ where
  unfoldable pub init :
      {G : Type 0} → Rng G D → Mlp D → (in_dim hidden_dim out_dim : ℕ) → G → Activation → Mlp D × G
  unfolding xavier_init
  init r m in_dim hidden_dim out_dim g a =
      let (w1, g1) = xavier_init r (zeros in_dim hidden_dim) g in
      let (w2, g2) = xavier_init r (zeros hidden_dim out_dim) g1 in
      (
        record m {
          in_dim = in_dim;
          hidden = hidden_dim;
          out = out_dim;
          w1 = w1;
          w2 = w2;
          b1 = replicate hidden_dim nought;
          b2 = replicate out_dim nought;
          act = a;
        },
        g2,
      )

  unfoldable pub forward : Backend D → Mlp D → Tensor2D D → Mlp D × Tensor2D D
  unfolding matmul add_row activate
  forward e m X =
      let x1 = add_row (matmul e X m.w1) m.b1 in
      let a1 = activate x1 m.act in
      let a2 = add_row (matmul e a1 m.w2) m.b2 in (record m { x1 = x1; a1 = a1; a2 = a2 }, a2)

  -- The asserts that a forward pass comes to, in a build that has them.
  unfoldable pub forward_asserts : Backend D → Mlp D → Tensor2D D → Bool
  forward_asserts e m X =
      let x1 = add_row (matmul e X m.w1) m.b1 in
      let a1 = activate x1 m.act in
      matmul_assert X m.w1
      && (add_row_assert (matmul e X m.w1) m.b1
          && (matmul_assert a1 m.w2 && add_row_assert (matmul e a1 m.w2) m.b2))

  -- The gradient of the loss on the logits: `probs`, less 1 at each label, over the rows.
  unfoldable pub logit_grad : Tensor2D D → List ℕ → Tensor2D D
  unfolding for_up
  logit_grad probs y =
      let t =
        for_up probs.rows (λ i t'. let c = get_or y i 0 in put t' i c (d.sub (at t' i c) one))
          probs in
      record t { cells = map (λ v. d.div v (d.of_int (pos probs.rows))) t.cells }

  unfoldable pub transpose : Tensor2D D → Tensor2D D
  unfolding for_up
  transpose A =
      for_up A.rows (λ i. for_up A.cols (λ j t. put t j i (at A i j))) (zeros A.cols A.rows)

  -- `gb[j] += t(i,j)`
  unfoldable pub column_sums : ℕ → Tensor2D D → List D
  unfolding for_up
  column_sums n t =
      for_up t.rows (λ i. for_up t.cols (λ j gb. set gb j (d.add (get_or gb j nought) (at t i j))))
        (replicate n nought)

  -- `sum += dlogits(i,k) * W2(j,k)`
  unfoldable pub hidden_sum : Tensor2D D → Tensor2D D → ℕ → ℕ → D
  unfolding for_up
  hidden_sum dlogits W2 i j =
      for_up dlogits.cols (λ k sum. d.add sum (d.mul (at dlogits i k) (at W2 j k))) nought

  unfoldable pub hidden_grad : Mlp D → Tensor2D D → Tensor2D D
  unfolding for_cells hidden_sum activate_grad
  hidden_grad m dlogits =
      for_cells m.a1.rows m.a1.cols
        (λ i j _. d.mul (at (activate_grad m.x1 m.act) i j) (hidden_sum dlogits m.w2 i j))
        (zeros m.a1.rows m.a1.cols)

  -- `W(i,j) -= lr * g(i,j)` and `b[j] -= lr * g[j]`
  unfoldable pub descend : D → Tensor2D D → Tensor2D D → Tensor2D D
  unfolding for_cells
  descend lr g W = for_cells W.rows W.cols (λ i j w. d.sub w (d.mul lr (at g i j))) W

  unfoldable pub descend_vec : D → List D → List D → List D
  unfolding for_up
  descend_vec lr g b =
      for_up (length b)
        (λ j b'. set b' j (d.sub (get_or b' j nought) (d.mul lr (get_or g j nought)))) b

  unfoldable pub backward : Backend D → Mlp D → Tensor2D D → List ℕ → D → Mlp D
  unfolding softmax logit_grad transpose column_sums hidden_grad matmul descend descend_vec
  backward e m X y lr =
      let dlogits = logit_grad (softmax m.a2) y in
      let gW2 = matmul e (transpose m.a1) dlogits in
      let gb2 = column_sums (length m.b2) dlogits in
      let d_a1 = hidden_grad m dlogits in
      let gW1 = matmul e (transpose X) d_a1 in
      let gb1 = column_sums (length m.b1) d_a1 in
      record m {
        w2 = descend lr gW2 m.w2;
        b2 = descend_vec lr gb2 m.b2;
        w1 = descend lr gW1 m.w1;
        b1 = descend_vec lr gb1 m.b1;
      }
