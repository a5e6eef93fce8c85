-- ===== src/Optim.antt =====
-- src/core/optim.cpp: one update of the weights, by plain descent or by Adam.
use neuralware_x.Prelude.{ℕ, ◌+◌, List, if◌then◌else◌, ◌==◌, length, get_or, set, replicate, for_up}
use neuralware_x.Prelude.Int.{pos}
use neuralware_x.Double.{Double, nought, one}
use neuralware_x.Tensor.{Tensor2D, at, put, zeros, for_cells}
use neuralware_x.Model.{descend_vec}

-- The four parameter blocks of a network, or their gradients.
pub record Params (D : Type 0) : Type 0 where
  pub w1 : Tensor2D D
  pub b1 : List D
  pub w2 : Tensor2D D
  pub b2 : List D

pub record AdamState (D : Type 0) : Type 0 where
  pub m : Params D
  pub v : Params D
  pub t : ℕ

module _ {D : Type 0} ⦃d : Double D⦄ where
  -- `W(i,j) -= lr * (g(i,j) + wd * W(i,j))`
  unfoldable pub decay : D → D → Tensor2D D → Tensor2D D → Tensor2D D
  unfolding for_cells
  decay lr wd g W =
      for_cells W.rows W.cols (λ i j w. d.sub w (d.mul lr (d.add (at g i j) (d.mul wd w)))) W

  unfoldable pub sgd_update : Params D → Params D → D → D → Params D
  unfolding decay descend_vec
  sgd_update p g lr wd = record {
    w1 = decay lr wd g.w1 p.w1;
    b1 = descend_vec lr g.b1 p.b1;
    w2 = decay lr wd g.w2 p.w2;
    b2 = descend_vec lr g.b2 p.b2;
  }

  abbrev pub zero_params : Params D → Params D
  zero_params p = record {
    w1 = zeros p.w1.rows p.w1.cols;
    b1 = replicate (length p.b1) nought;
    w2 = zeros p.w2.rows p.w2.cols;
    b2 = replicate (length p.b2) nought;
  }

module _ {D : Type 0} ⦃d : Double D⦄ (lr beta1 beta2 eps : D) (t : ℕ) where
  -- One number: the new first and second moment, and the new weight.
  unfoldable pub adam_cell : D → D → D → D → D × D × D
  adam_cell gi m v w =
      let m' = d.add (d.mul beta1 m) (d.mul (d.sub one beta1) gi) in
      let v' = d.add (d.mul beta2 v) (d.mul (d.mul (d.sub one beta2) gi) gi) in
      let mhat = d.div m' (d.sub one (d.pow beta1 (d.of_int (pos t)))) in
      let vhat = d.div v' (d.sub one (d.pow beta2 (d.of_int (pos t)))) in
      (m', v', d.sub w (d.mul lr (d.div mhat (d.add (d.sqrt vhat) eps))))

  unfoldable pub upd_mat :
      D → Tensor2D D → Tensor2D D × Tensor2D D × Tensor2D D → Tensor2D D × Tensor2D D × Tensor2D D
  unfolding for_up adam_cell
  upd_mat wd g s =
      for_up s.0.rows
        (λ i. for_up s.0.cols (λ j s'.
          let (W, m, v) = s' in
          let gi = d.add (at g i j) (d.mul wd (at W i j)) in
          let (m', v', w') = adam_cell gi (at m i j) (at v i j) (at W i j) in
          (put W i j w', put m i j m', put v i j v')))
        s

  unfoldable pub upd_vec : List D → List D × List D × List D → List D × List D × List D
  unfolding for_up adam_cell
  upd_vec g s =
      for_up (length s.0)
        (λ j s'.
          let (W, m, v) = s' in
          let (m', v', w') =
            adam_cell (get_or g j nought) (get_or m j nought) (get_or v j nought)
              (get_or W j nought) in
          (set W j w', set m j m', set v j v'))
        s

module _ {D : Type 0} ⦃d : Double D⦄ where
  -- The moments are made at the first call.
  unfoldable pub adam_start : AdamState D → Params D → AdamState D
  adam_start st p = if st.t == 0 then record st { m = zero_params p; v = zero_params p } else st

  unfoldable pub adam_update :
      AdamState D → Params D → Params D → (lr wd beta1 beta2 eps : D) → AdamState D × Params D
  unfolding adam_start upd_mat upd_vec
  adam_update st p g lr wd beta1 beta2 eps =
      let s0 = adam_start st p in
      let t = s0.t + 1 in
      let (w1, m1, v1) = upd_mat lr beta1 beta2 eps t wd g.w1 (p.w1, s0.m.w1, s0.v.w1) in
      let (c1, n1, u1) = upd_vec lr beta1 beta2 eps t g.b1 (p.b1, s0.m.b1, s0.v.b1) in
      let (w2, m2, v2) = upd_mat lr beta1 beta2 eps t wd g.w2 (p.w2, s0.m.w2, s0.v.w2) in
      let (c2, n2, u2) = upd_vec lr beta1 beta2 eps t g.b2 (p.b2, s0.m.b2, s0.v.b2) in
      (
        record {
          m = record { w1 = m1; b1 = n1; w2 = m2; b2 = n2 };
          v = record { w1 = v1; b1 = u1; w2 = v2; b2 = u2 };
          t = t;
        },
        record { w1 = w1; b1 = c1; w2 = w2; b2 = c2 },
      )
