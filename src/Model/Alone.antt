-- ===== src/Model/Alone.antt =====
-- What the network makes of one row does not depend on the other rows of the batch.
use neuralware_x.Prelude.{ℕ, ◌<◌, ◌≡◌, ap, ap₂, ◌∙◌, arith, get_or, for_up, for_up_congr}
use neuralware_x.Double.{Double, nought, fmax}
use neuralware_x.Tensor.{Tensor2D, Backend, at, row_max, softmax}
use neuralware_x.Tensor.Matmul.{dot}
use neuralware_x.Tensor.Rows.{scaled_exp, exp_sum, at-softmax}
use neuralware_x.Model.{Mlp, forward}
use neuralware_x.Model.Forward.{IsCpu, act_value, forward_cells}

module _ {D : Type 0} ⦃d : Double D⦄ where
  -- A row as a function of the column: its sum of products with a column, its logits, and their
  -- probabilities.
  unfoldable pub weigh : ℕ → (ℕ → D) → Tensor2D D → ℕ → D
  weigh n x W q = for_up n (λ k acc. d.add acc (d.mul (x k) (at W k q))) nought

  unfoldable pub hidden_of : Mlp D → ℕ → (ℕ → D) → ℕ → D
  unfolding weigh
  hidden_of m n x j = act_value m.act (d.add (weigh n x m.w1 j) (get_or m.b1 j nought))

  unfoldable pub logit_of : Mlp D → ℕ → (ℕ → D) → ℕ → D
  unfolding weigh hidden_of
  logit_of m n x q = d.add (weigh m.w1.cols (hidden_of m n x) m.w2 q) (get_or m.b2 q nought)

  unfoldable pub largest : ℕ → (ℕ → D) → D
  largest n l = for_up n (λ j m. fmax m (l j)) (d.neg d.infinity)

  unfoldable pub exp_of : ℕ → (ℕ → D) → ℕ → D
  unfolding largest
  exp_of n l j = d.exp (d.sub (l j) (largest n l))

  unfoldable pub share_of : ℕ → (ℕ → D) → ℕ → D
  unfolding exp_of
  share_of n l q = d.div (exp_of n l q) (for_up n (λ j s. d.add s (exp_of n l j)) nought)

  abbrev Reads : Tensor2D D → ℕ → (ℕ → D) → Type 0
  Reads X p x = (k : ℕ) → k < X.cols → at X p k ≡ x k

  dot_alone :
      (A W : Tensor2D D) (p q : ℕ) (x : ℕ → D) → Reads A p x → dot A W p q ≡ weigh A.cols x W q
  unfolding dot weigh
  dot_alone A W p q x e =
      for_up_congr A.cols _ _ (λ k acc hk. ap (λ v. d.add acc (d.mul v (at W k q))) (e k hk)) nought

  share_alone :
      (X : Tensor2D D) (p q : ℕ) (l : ℕ → D)
      → Reads X p l
      → p < X.rows
      → q < X.cols
      → at (softmax X) p q ≡ share_of X.cols l q
  unfolding exp_sum row_max largest exp_of share_of
  share_alone X p q l e hp hq =
      let top : row_max X p ≡ largest X.cols l =
        for_up_congr X.cols _ _ (λ j m hj. ap (fmax m) (e j hj)) (d.neg d.infinity) in
      let one_exp : (j : ℕ) → j < X.cols → scaled_exp X p j ≡ exp_of X.cols l j =
        λ j hj. ap₂ (λ v m. d.exp (d.sub v m)) (e j hj) top in
      at-softmax X p q hp hq
      ∙ ap₂ d.div (one_exp q hq)
          (for_up_congr X.cols _ _ (λ j s hj. ap (d.add s) (one_exp j hj)) nought)

  -- The probabilities of row `p` of a batch, from the values of that row alone.
  pub forward_alone :
      (e : Backend D) (m : Mlp D) (X : Tensor2D D) (p q : ℕ) (x : ℕ → D)
      → IsCpu e
      → ((k : ℕ) → k < X.cols → at X p k ≡ x k)
      → p < X.rows
      → q < m.w2.cols
      → at (softmax (forward e m X).1) p q ≡ share_of m.w2.cols (logit_of m X.cols x) q
  unfolding logit_of hidden_of
  forward_alone e m X p q x cpu row hp hq =
      let f = forward_cells e m X cpu in
      let a1 = (forward e m X).0.a1 in
      let logits = (forward e m X).1 in
      let l = logit_of m X.cols x in
      let hidden : Reads a1 p (hidden_of m X.cols x) = λ j hj.
        f.2 p j hp (omega (arith, f.1.1))
        ∙ ap (λ v. act_value m.act (d.add v (get_or m.b1 j nought))) (dot_alone X m.w1 p j x row) in
      let same : Reads logits p l = λ k hk.
        f.3 p k hp (omega (arith, f.0.1))
        ∙ ap (λ v. d.add v (get_or m.b2 k nought))
            (dot_alone a1 m.w2 p k (hidden_of m X.cols x) hidden
              ∙ ap (λ n. weigh n (hidden_of m X.cols x) m.w2 k) f.1.1) in
      share_alone logits p q l same (omega (arith, f.0.0)) (omega (arith, f.0.1))
      ∙ ap (λ n. share_of n l q) f.0.1
