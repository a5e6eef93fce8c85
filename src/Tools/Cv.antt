-- ===== src/Tools/Cv.antt =====
-- src/app/cv.cpp: K-fold cross-validation.
pub mod Folds
use neuralware_x.Prelude.{
  ℕ, zero, suc, ◌+◌, ◌-◌, ◌*◌, ◌/◌, ◌<◌, Bool, ◌&&◌, List, [], ◌∷◌, ◌++◌, ltb, leb, if◌then◌else◌,
  length, get_or, for_up,
}
use neuralware_x.Prelude.Int.{ℤ, pos, ◌+ℤ◌}
use neuralware_x.Double.{Double, Rng, nought}
use neuralware_x.Tensor.{Tensor2D, Backend, softmax, accuracy}
use neuralware_x.Activation.{relu_act}
use neuralware_x.Model.{Mlp, init, forward}
use neuralware_x.Optim.{AdamState}
use neuralware_x.Split.{Groups, indices}
use neuralware_x.Trainer.{TrainConfig, Dataset, select_rows, select_labels, train_xent}

-- The row indices of a fold: those of the training part and those of the test part.
pub record Fold : Type 0 where
  pub train : List ℕ
  pub test : List ℕ

-- The range of an `int` that is not negative.
abbrev pub FitsInt : ℕ → Type 0
FitsInt n = n < 2147483648

-- `f*X.rows/K` in `int`, for a product that fits: it overflows from 2^31 on, where the source has no
-- defined result.
abbrev pub fold_start : (f rows K : ℕ) → ℕ
fold_start f rows K = (f * rows) / K

-- The loop over the positions from `i` on.
unfoldable pub split_fold : (start end : ℕ) → ℕ → List ℕ → Fold
split_fold start end i [] = record { train = []; test = [] }
split_fold start end i (x ∷ idx) =
    let rest = split_fold start end (i + 1) idx in
    if leb start i && ltb i end
    then record rest { test = x ∷ rest.test }
    else record rest { train = x ∷ rest.train }

unfoldable pub fold : (K : ℕ) → List ℕ → ℕ → Fold
fold K idx f = split_fold (fold_start f (length idx) K) (fold_start (f + 1) (length idx) K) 0 idx

module _ {D G : Type 0} ⦃d : Double D⦄ (e : Backend D) (r : Rng G D) (visit : Groups → Groups) where
  -- `cfg` is the default configuration with the five fields that are set, and `m` and `adam` are a fresh
  -- model and state.
  unfoldable pub fold_accuracy : AdamState D → Mlp D → TrainConfig D → Dataset D → ℕ → ℕ → Fold → D
  fold_accuracy adam m cfg dataset in_dim f parts =
      let fresh = init r m in_dim 16 dataset.n_classes (r.seed (pos (7 + f))) relu_act in
      let training : Dataset D = record {
        x = select_rows dataset.x parts.train;
        y = select_labels dataset.y parts.train;
        n_classes = dataset.n_classes;
      } in
      let trained = train_xent e r visit adam fresh.0 training cfg in
      let logits = (forward e trained.model (select_rows dataset.x parts.test)).1 in
      accuracy (softmax logits) (select_labels dataset.y parts.test)

  abbrev accuracies : (ℕ → D) → ℕ → List D
  accuracies acc zero = []
  accuracies acc (suc n) = accuracies acc n ++ (acc n ∷ [])

  abbrev pub total : List D → D → D
  total [] s = s
  total (a ∷ accs) s = total accs (d.add s a)

  abbrev pub total_square : D → List D → D → D
  total_square mean [] s = s
  total_square mean (a ∷ accs) s =
      total_square mean accs (d.add s (d.mul (d.sub a mean) (d.sub a mean)))

  -- The mean of the accuracies of the folds, and their deviation.
  unfoldable pub cross_validate :
      AdamState D → Mlp D → TrainConfig D → Dataset D → ℕ → (K : ℕ) → D × D
  cross_validate adam m cfg dataset in_dim K =
      let (idx, _) = r.shuffle (indices dataset.x.rows) (r.seed (pos 7)) in
      let accs = accuracies (λ f. fold_accuracy adam m cfg dataset in_dim f (fold K idx f)) K in
      let mean = d.div (total accs nought) (d.of_int (pos K)) in
      let var = d.div (total_square mean accs nought) (d.of_int (pos K)) in (mean, d.sqrt var)
