-- ===== src/Trainer.antt =====
-- src/core/trainer.cpp: training with batches, validation and early stopping. The lines of the history
-- file are the field `history`; what only the logger prints is left out.
pub mod Batch
pub mod Stopping
use Prim.Native.String.{String}
use text.Mathlib.Text.{◌==◌ as str_eq}
use neuralware_x.Prelude.{
  ℕ, zero, suc, ◌+◌, ◌-◌, Bool, true, false, not, ◌&&◌, ◌||◌, Option, none, some, List, [], ◌∷◌,
  ◌++◌, map, min, ltb, leb, if◌then◌else◌, length, get_or, for_up,
}
use neuralware_x.Prelude.Int.{ℤ, pos, pos_part, ltb_ℤ}
use neuralware_x.Double.{Double, Rng, nought, one, fmax}
use neuralware_x.Tensor.{
  Tensor2D, Backend, at, zeros, for_cells, matmul, softmax, cross_entropy, accuracy,
}
use neuralware_x.Model.{Mlp, forward, logit_grad, transpose, column_sums, hidden_sum}
use neuralware_x.Optim.{Params, AdamState, adam_update, sgd_update}
use neuralware_x.Scaler.{fit, transform}
use neuralware_x.Split.{Groups, indices, stratified_split}
use Batch.{batch_size, slices}

-- The fields that the training reads.
pub record TrainConfig (D : Type 0) : Type 0 where
  pub epochs : ℤ
  pub lr : D
  pub hidden : ℤ
  pub seed : ℤ
  pub weight_decay : D
  pub batch : ℤ
  pub val_split : D
  pub patience : ℤ
  pub standardize : Bool
  pub optimizer : String
  pub lr_schedule : String
  pub warmup_steps : ℤ
  pub clip_norm : D
  pub history_path : String
  pub activation : String

pub record Dataset (D : Type 0) : Type 0 where
  pub x : Tensor2D D
  pub y : List ℕ
  pub n_classes : ℕ

-- A line of the history: the validation columns are empty where there is no validation part.
pub record HistoryRow (D : Type 0) : Type 0 where
  pub epoch : ℕ
  pub train_loss : D
  pub train_acc : D
  pub val : Option (D × D)

pub record Training (D G : Type 0) : Type 0 where
  pub model : Mlp D
  pub adam : AdamState D
  pub tr_idx : List ℕ
  pub rng : G
  pub best_val : D
  pub bad_epochs : ℕ
  pub best : Mlp D
  pub history : List (HistoryRow D)

abbrev pub select_labels : List ℕ → List ℕ → List ℕ
select_labels y idx = map (λ i. get_or y i 0) idx

module _ {D : Type 0} ⦃d : Double D⦄ where
  -- `t`, `T` and `warmup` as in the source; `std::max(0, t - warmup)` is the subtraction of ℕ.
  unfoldable pub cosine_lr : D → ℕ → ℕ → ℕ → D
  cosine_lr base_lr t T warmup =
      if ltb 0 warmup && ltb t warmup
      then d.div (d.mul base_lr (d.of_int (pos (t + 1)))) (d.of_int (pos warmup))
      else let tt = d.of_int (pos (t - warmup)) in
        let TT = d.of_int (pos (if ltb (T - warmup) 1 then 1 else T - warmup)) in
        d.mul (d.mul (d.decimal 5 1) base_lr)
          (d.add one (d.cos (d.div (d.mul (d.decimal 3141592653589793 15) tt) TT)))

  abbrev sum_squares : List D → D → D
  sum_squares [] s = s
  sum_squares (x ∷ xs) s = sum_squares xs (d.add s (d.mul x x))

  unfoldable pub clip_by_global_norm : List D → D → List D
  clip_by_global_norm v max_norm =
      let g = d.sqrt (sum_squares v nought) in
      if d.le max_norm nought
      then v
      else if d.lt max_norm g && d.lt nought g
      then map (λ x. d.mul x (d.div max_norm g)) v
      else v

  unfoldable pub select_rows : Tensor2D D → List ℕ → Tensor2D D
  unfolding for_cells
  select_rows X idx =
      for_cells (length idx) X.cols (λ i j _. at X (get_or idx i 0) j) (zeros (length idx) X.cols)

  -- Back through the hidden layer: the sum where the pre-activation is positive, whatever the
  -- activation of the model.
  unfoldable pub masked_grad : Mlp D → Tensor2D D → Tensor2D D
  unfolding for_cells hidden_sum
  masked_grad m dlogits =
      for_cells m.a1.rows m.a1.cols
        (λ i j _. if d.lt nought (at m.x1 i j) then hidden_sum dlogits m.w2 i j else nought)
        (zeros m.a1.rows m.a1.cols)

  abbrev params : Mlp D → Params D
  params m = record { w1 = m.w1; b1 = m.b1; w2 = m.w2; b2 = m.b2 }

  abbrev with_params : Mlp D → Params D → Mlp D
  with_params m p = record m { w1 = p.w1; b1 = p.b1; w2 = p.w2; b2 = p.b2 }

  unfoldable pub gradients : Backend D → Mlp D → Tensor2D D → List ℕ → Tensor2D D → Params D
  unfolding softmax logit_grad transpose column_sums masked_grad matmul
  gradients e m xb yb logits =
      let dlogits = logit_grad (softmax logits) yb in
      let d_a1 = masked_grad m dlogits in
      record {
        w1 = matmul e (transpose xb) d_a1;
        b1 = column_sums (length m.b1) d_a1;
        w2 = matmul e (transpose m.a1) dlogits;
        b2 = column_sums (length m.b2) dlogits;
      }

  unfoldable pub update : TrainConfig D → AdamState D → Mlp D → Params D → Mlp D × AdamState D
  unfolding adam_update sgd_update
  update cfg adam m g =
      if str_eq cfg.optimizer "adam" || str_eq cfg.optimizer "adamw"
      then (let (adam', p) =
            adam_update adam (params m) g cfg.lr cfg.weight_decay (d.decimal 9 1) (d.decimal 999 3)
              (d.decimal 1 8) in
          (with_params m p, adam'))
      else (with_params m (sgd_update (params m) g cfg.lr cfg.weight_decay), adam)

  -- The body of the loop over the batches.
  unfoldable pub batch_step :
      Backend D
      → TrainConfig D
      → Tensor2D D
      → List ℕ
      → List ℕ
      → Mlp D × AdamState D
      → Mlp D × AdamState D
  unfolding forward select_rows gradients update
  batch_step e cfg X y idx s =
      let xb = select_rows X idx in
      let (m, logits) = forward e s.0 xb in
      update cfg s.1 m (gradients e m xb (select_labels y idx) logits)

  abbrev run_batches :
      Backend D
      → TrainConfig D
      → Tensor2D D
      → List ℕ
      → List (List ℕ)
      → Mlp D × AdamState D
      → Mlp D × AdamState D
  run_batches e cfg X y [] s = s
  run_batches e cfg X y (b ∷ bs) s = run_batches e cfg X y bs (batch_step e cfg X y b s)

  -- A forward pass over some rows, its loss and its accuracy.
  unfoldable pub evaluate : Backend D → Tensor2D D → List ℕ → List ℕ → Mlp D → Mlp D × D × D
  unfolding forward select_rows softmax cross_entropy accuracy
  evaluate e X y idx m =
      let (m', logits) = forward e m (select_rows X idx) in
      let probs = softmax logits in
      (m', cross_entropy probs (select_labels y idx), accuracy probs (select_labels y idx))

module _ {D G : Type 0} ⦃d : Double D⦄ where
  -- What follows the validation loss: a new best model, or one more bad epoch, or the stop.
  unfoldable pub early_stop : ℤ → D → Training D G → Training D G × Bool
  early_stop patience val_loss s =
      if d.lt (d.add val_loss (d.decimal 1 12)) s.best_val
      then (record s { best_val = val_loss; bad_epochs = 0; best = s.model }, false)
      else if ltb_ℤ (pos 0) patience
      then (let bad = s.bad_epochs + 1 in
          if leb (pos_part patience) bad
          then (record s { bad_epochs = bad; model = s.best }, true)
          else (record s { bad_epochs = bad }, false))
      else (s, false)

module _ {D G : Type 0} ⦃d : Double D⦄ (e : Backend D) (r : Rng G D) (cfg : TrainConfig D)
    (X : Tensor2D D) (y va_idx : List ℕ) where
  -- Shuffle, and go through the batches.
  unfoldable pub train_epoch : Training D G → Training D G
  train_epoch s =
      let (idx, g) = r.shuffle s.tr_idx s.rng in
      let (m, a) =
        run_batches e cfg X y (slices (length idx) (batch_size cfg.batch (length idx)) 0 idx)
          (s.model, s.adam) in
      record s { tr_idx = idx; rng = g; model = m; adam = a }

  abbrev log_row : HistoryRow D → Training D G → Training D G
  log_row row s =
      if str_eq cfg.history_path "" then s else record s { history = s.history ++ (row ∷ []) }

  abbrev is_nil : List ℕ → Bool
  is_nil [] = true
  is_nil (_ ∷ _) = false

  -- The epoch's metrics, on the training rows and on the validation rows.
  unfoldable pub finish_epoch : ℕ → Training D G → Training D G × Bool
  finish_epoch epoch s =
      let (m1, loss, acc) = evaluate e X y s.tr_idx s.model in
      if is_nil va_idx
      then (
        log_row (record { epoch = epoch; train_loss = loss; train_acc = acc; val = none })
            (record s { model = m1 }),
        false,
      )
      else let (m2, val_loss, val_acc) = evaluate e X y va_idx m1 in
        early_stop cfg.patience val_loss (
          log_row
            (record {
              epoch = epoch;
              train_loss = loss;
              train_acc = acc;
              val = some (val_loss, val_acc);
            })
            (record s { model = m2 }))

  -- `for (epoch = ..; epoch <= epochs; ++epoch)`, with the rounds that are left.
  unfoldable pub train_epochs : ℕ → ℕ → Training D G → Training D G
  train_epochs zero epoch s = s
  train_epochs (suc left) epoch s =
      let (s', stop) = finish_epoch epoch (train_epoch s) in
      let rest = train_epochs left (epoch + 1) s' in if stop then s' else rest

module _ {D G : Type 0} ⦃d : Double D⦄ (e : Backend D) (r : Rng G D) (visit : Groups → Groups) where
  -- `adam` is the state that `AdamState adam;` constructs: no moments yet, and `t` is 0.
  unfoldable pub train_xent : AdamState D → Mlp D → Dataset D → TrainConfig D → Training D G
  train_xent adam model dataset cfg =
      let X = if cfg.standardize then transform (fit dataset.x) dataset.x else dataset.x in
      let g = r.seed cfg.seed in
      let ((tr_idx, va_idx), g') =
        if d.lt nought cfg.val_split
        then stratified_split r cfg.val_split visit dataset.y g
        else ((indices X.rows, []), g) in
      train_epochs e r cfg X dataset.y va_idx (pos_part cfg.epochs) 1 (record {
        model = model;
        adam = adam;
        tr_idx = tr_idx;
        rng = g';
        best_val = d.infinity;
        bad_epochs = 0;
        best = model;
        history = [];
      })
