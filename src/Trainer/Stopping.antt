-- ===== src/Trainer/Stopping.antt =====
-- Early stopping: which model is kept, and when the loop ends.
use text.Mathlib.Text.{◌==◌ as str_eq}
use neuralware_x.Prelude.{
  ℕ, zero, suc, ◌+◌, ◌<◌, ◌≤◌, ◌≡◌, length, length-append, refl, sym, ap, subst, ◌⊎◌, inl, inr,
  true, false, Bool-cases, some, List, [], ◌∷◌, ◌++◌, arith, leb, if◌then◌else◌,
}
use neuralware_x.Prelude.Int.{ℤ, pos, negsuc, pos_part, ltb_ℤ}
use neuralware_x.Double.{Double, Rng, IsOrdered, nought}
use neuralware_x.Tensor.{Tensor2D, Backend}
use neuralware_x.Model.{Mlp, forward}
use neuralware_x.Optim.{AdamState}
use neuralware_x.Split.{Groups, stratified_split}
use neuralware_x.Scaler.{fit, transform}
use neuralware_x.Trainer.{
  Dataset, train_xent, TrainConfig, Training, HistoryRow, evaluate, early_stop, train_epoch,
  finish_epoch, train_epochs,
}

-- Adding 1e-12 and rounding does not lower a number.
abbrev pub TinyGrows : {D : Type 0} → Double D → Type 0
TinyGrows {D = D} d = (x y : D) → d.lt (d.add x (d.decimal 1 12)) y ≡ true → d.lt x y ≡ true

module _ {D : Type 0} ⦃d : Double D⦄ where
  -- No validation loss in the history is below `bound` by more than the margin.
  abbrev pub NoneBelow : D → List (HistoryRow D) → Type 0
  NoneBelow bound [] = Unit
  NoneBelow bound (row ∷ rows) =
      ((v acc : D) → row.val ≡ some (v, acc) → d.lt (d.add v (d.decimal 1 12)) bound ≡ false)
      × NoneBelow bound rows

  NoneBelow-append :
      (bound : D) (rows rows' : List (HistoryRow D))
      → NoneBelow bound rows
      → NoneBelow bound rows'
      → NoneBelow bound (rows ++ rows')
  NoneBelow-append bound [] rows' h h' = h'
  NoneBelow-append bound (row ∷ rows) rows' h h' = (h.0, NoneBelow-append bound rows rows' h.1 h')

  -- A new bound that is better by more than the margin.
  NoneBelow-lower :
      (laws : IsOrdered d) (grows : TinyGrows d) (old new : D) (rows : List (HistoryRow D))
      → d.lt (d.add new (d.decimal 1 12)) old ≡ true
      → NoneBelow old rows
      → NoneBelow new rows
  NoneBelow-lower laws grows old new [] better h = tt
  NoneBelow-lower laws grows old new (row ∷ rows) better h = (
    λ v acc e. ground (
      arith,
      h.0 v acc e,
      grows new old better,
      laws.lt_trans (d.add v (d.decimal 1 12)) new old,
    ),
    NoneBelow-lower laws grows old new rows better h.1,
  )

module _ {D : Type 0} ⦃d : Double D⦄ where
  -- The loss of a model on some rows.
  abbrev pub val_loss_of : Backend D → Tensor2D D → List ℕ → List ℕ → Mlp D → D
  val_loss_of e X y va m = (evaluate e X y va m).1

-- How the loop ends, with a row of the history for each epoch: every epoch was run and fewer bad ones in a
-- row than the patience were seen, or just as many were seen, within the epochs, and the best model is back.
abbrev pub Outcome : {D G : Type 0} → ℤ → (epochs : ℕ) → Training D G → Type 0
Outcome patience epochs s =
    ((s.bad_epochs < pos_part patience) × (length s.history ≡ epochs))
    ⊎ ((s.bad_epochs ≡ pos_part patience) × (s.model ≡ s.best) × (length s.history ≤ epochs))

module _ {D G : Type 0} ⦃d : Double D⦄ (laws : IsOrdered d) (grows : TinyGrows d) (e : Backend D)
    (r : Rng G D) (cfg : TrainConfig D) (X : Tensor2D D) (y : List ℕ) (v0 : ℕ) (vs : List ℕ)
    (start : Mlp D) where
  -- What is true between two epochs.
  pub record Kept (s : Training D G) : Type 0 where
    pub best_is :
        ((s.best_val ≡ d.infinity) × (s.best ≡ start))
        ⊎ (val_loss_of e X y (v0 ∷ vs) s.best ≡ s.best_val)
    pub none_below : NoneBelow s.best_val s.history

  -- The forward pass of a validation keeps the weights, so it does not change the loss.
  val_loss-evaluate :
      (m : Mlp D)
      → val_loss_of e X y (v0 ∷ vs) (evaluate e X y (v0 ∷ vs) m).0 ≡ val_loss_of e X y (v0 ∷ vs) m
  unfolding evaluate forward
  val_loss-evaluate m = refl

  NotStopped : Training D G → Type 0
  NotStopped s = s.bad_epochs < pos_part cfg.patience

  -- One call of `early_stop`, after the row with the loss was logged.
  early_stop-Kept :
      (row : HistoryRow D) (loss acc : D) (m : Mlp D) (s : Training D G)
      → ltb_ℤ (pos 0) cfg.patience ≡ true
      → row.val ≡ some (loss, acc)
      → val_loss_of e X y (v0 ∷ vs) m ≡ loss
      → Kept s
      → s.bad_epochs < pos_part cfg.patience
      → let (s', stop) =
          early_stop cfg.patience loss
            (record s { model = m; history = s.history ++ (row ∷ []) }) in
        Kept s'
        × (stop ≡ false → s'.bad_epochs < pos_part cfg.patience)
        × (stop ≡ true → (s'.bad_epochs ≡ pos_part cfg.patience) × (s'.model ≡ s'.best))
        × (length s'.history ≡ length s.history + 1)
  unfolding early_stop
  early_stop-Kept row loss acc m s on logged loss_is kept not_yet =
      let one_row = length-append s.history (row ∷ []) in
      elim (Bool-cases (d.lt (d.add loss (d.decimal 1 12)) s.best_val)) [
        | inl better ↦ rw better (
          record {
            best_is = inr loss_is;
            none_below =
                NoneBelow-append loss s.history (row ∷ [])
                  (NoneBelow-lower laws grows s.best_val loss s.history better kept.none_below)
                  ((λ v a same. ground (arith, grows loss loss, laws.lt_irrefl loss)), tt);
          },
          (λ _. ground arith),
          (λ stop. cc),
          one_row,
        )
        | inr worse ↦
            let rows : NoneBelow s.best_val (s.history ++ (row ∷ [])) =
              NoneBelow-append s.best_val s.history (row ∷ []) kept.none_below
                ((λ v a same. ground arith), tt) in
            elim (Bool-cases (leb (pos_part cfg.patience) (s.bad_epochs + 1))) [
              | inl enough ↦
                  rw (worse, on, enough)
                    (
                      record { best_is = kept.best_is; none_below = rows },
                      (λ stop. cc),
                      (λ _. (ground arith, refl)),
                      one_row,
                    )
              | inr more ↦
                  rw (worse, on, more)
                    (
                      record { best_is = kept.best_is; none_below = rows },
                      (λ _. ground arith),
                      (λ stop. cc),
                      one_row,
                    )
            ]
      ]

  -- One epoch with validation, its row logged.
  epoch-Kept :
      (epoch : ℕ) (s : Training D G)
      → ltb_ℤ (pos 0) cfg.patience ≡ true
      → str_eq cfg.history_path "" ≡ false
      → Kept s
      → s.bad_epochs < pos_part cfg.patience
      → let (s', stop) =
          finish_epoch e r cfg X y (v0 ∷ vs) epoch (train_epoch e r cfg X y (v0 ∷ vs) s) in
        Kept s'
        × (stop ≡ false → s'.bad_epochs < pos_part cfg.patience)
        × (stop ≡ true → (s'.bad_epochs ≡ pos_part cfg.patience) × (s'.model ≡ s'.best))
        × (length s'.history ≡ length s.history + 1)
  unfolding finish_epoch train_epoch
  epoch-Kept epoch s on logging kept not_yet =
      let t = train_epoch e r cfg X y (v0 ∷ vs) s in
      let tr = evaluate e X y t.tr_idx t.model in
      let va = evaluate e X y (v0 ∷ vs) tr.0 in
      rw logging (
        early_stop-Kept
          (record { epoch = epoch; train_loss = tr.1; train_acc = tr.2; val = some (va.1, va.2) })
          va.1 va.2 va.0 t on refl (val_loss-evaluate tr.0)
          (record { best_is = kept.best_is; none_below = kept.none_below }) not_yet)

  epochs-Kept :
      (left epoch : ℕ) (s : Training D G)
      → ltb_ℤ (pos 0) cfg.patience ≡ true
      → str_eq cfg.history_path "" ≡ false
      → Kept s
      → s.bad_epochs < pos_part cfg.patience
      → let s' = train_epochs e r cfg X y (v0 ∷ vs) left epoch s in
        Kept s' × Outcome cfg.patience (length s.history + left) s'
  unfolding train_epochs
  epochs-Kept zero epoch s on logging kept not_yet = (kept, inl (not_yet, omega arith))
  epochs-Kept (suc left) epoch s on logging kept not_yet =
      let round = finish_epoch e r cfg X y (v0 ∷ vs) epoch (train_epoch e r cfg X y (v0 ∷ vs) s) in
      let (kept', going, stopped, one_row) = epoch-Kept epoch s on logging kept not_yet in
      let one_round : length round.0.history + left ≡ length s.history + suc left =
        omega (arith, one_row) in
      elim (Bool-cases round.1) [
        | inl stop ↦
            rw stop (kept', inr ((stopped stop).0, (stopped stop).1, omega (arith, one_row)))
        | inr go ↦
            let rest = epochs-Kept left (epoch + 1) round.0 on logging kept' (going go) in
            rw go (rest.0, rw one_round at rest.1)
      ]

  -- The loop of `train_xent`, from the state in which it starts.
  train_epochs_stopping :
      (left : ℕ) (s : Training D G)
      → ltb_ℤ (pos 0) cfg.patience ≡ true
      → str_eq cfg.history_path "" ≡ false
      → s.best_val ≡ d.infinity
      → s.best ≡ start
      → s.history ≡ []
      → s.bad_epochs ≡ 0
      → let s' = train_epochs e r cfg X y (v0 ∷ vs) left 1 s in
        (((s'.best_val ≡ d.infinity) × (s'.best ≡ start))
          ⊎ (val_loss_of e X y (v0 ∷ vs) s'.best ≡ s'.best_val))
        × NoneBelow s'.best_val s'.history
        × Outcome cfg.patience left s'
  train_epochs_stopping left s on logging no_best first no_history none_bad =
      let kept : Kept s = record {
        best_is = inl (no_best, first);
        none_below = subst (NoneBelow s.best_val) (sym no_history) tt;
      } in
      let (kept', outcome) =
        epochs-Kept left 1 s on logging kept (some_patience cfg.patience on none_bad) in
      let none_yet : length s.history + left ≡ left = omega (arith, ap length no_history) in
      let s' = train_epochs e r cfg X y (v0 ∷ vs) left 1 s in
      (kept'.best_is, kept'.none_below, subst (λ n. Outcome cfg.patience n s') none_yet outcome)
    where
      some_patience : (p : ℤ) {n : ℕ} → ltb_ℤ (pos 0) p ≡ true → n ≡ 0 → n < pos_part p
      some_patience (pos p) h zero_bad = ground arith
      some_patience (negsuc p) h zero_bad = absurd (ground arith)

module _ {D G : Type 0} ⦃d : Double D⦄ (laws : IsOrdered d) (grows : TinyGrows d) (e : Backend D)
    (r : Rng G D) (visit : Groups → Groups) where
  -- Training with a positive patience, a validation part that gets at least one row, and a history
  -- file: the snapshot `best` has the validation loss `best_val` (or no epoch was ever better and it
  -- is the model at the start), no validation loss of the history is below `best_val` by more than
  -- 1e-12, and the loop either ran through all its epochs, each with its row in the history, with fewer
  -- bad epochs in a row than the patience, or it stopped within them at exactly that number and returned
  -- the snapshot. Assumed of the doubles: `<` is a strict order, and adding 1e-12 does not lower a number.
  pub train_xent_stopping :
      (adam : AdamState D) (model : Mlp D) (dataset : Dataset D) (cfg : TrainConfig D) (v0 : ℕ)
      (vs : List ℕ)
      → ltb_ℤ (pos 0) cfg.patience ≡ true
      → str_eq cfg.history_path "" ≡ false
      → d.lt nought cfg.val_split ≡ true
      → (stratified_split r cfg.val_split visit dataset.y (r.seed cfg.seed)).0.1 ≡ v0 ∷ vs
      → let s = train_xent e r visit adam model dataset cfg in
        let X = if cfg.standardize then transform (fit dataset.x) dataset.x else dataset.x in
        (((s.best_val ≡ d.infinity) × (s.best ≡ model))
          ⊎ (val_loss_of e X dataset.y (v0 ∷ vs) s.best ≡ s.best_val))
        × NoneBelow s.best_val s.history
        × Outcome cfg.patience (pos_part cfg.epochs) s
  unfolding train_xent
  train_xent_stopping adam model dataset cfg v0 vs on logging splits part =
      let X = if cfg.standardize then transform (fit dataset.x) dataset.x else dataset.x in
      rw (splits, part)
        (train_epochs_stopping laws grows e r cfg X dataset.y v0 vs model (pos_part cfg.epochs) _ on
          logging refl refl refl refl)
