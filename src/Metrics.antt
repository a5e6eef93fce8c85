-- ===== src/Metrics.antt =====
-- src/core/metrics.cpp and src/core/metrics_ex.cpp. Labels are class numbers; the scan of a row is
-- `argmax`, which these functions repeat. `int` counts are bounded by the number of rows.
pub mod Counts
pub mod Micro
use neuralware_x.Prelude.{
  ℕ, zero, suc, ◌+◌, Bool, true, false, not, ◌&&◌, List, [], ◌∷◌, ◌++◌, ◌==◌, if◌then◌else◌, get_or,
  set, replicate, for_up,
}
use neuralware_x.Prelude.Int.{pos}
use neuralware_x.Double.{Double, nought, one}
use neuralware_x.Tensor.{Tensor2D, at, argmax}

abbrev pub Matrix : Type 0
Matrix = List (List ℕ)

abbrev pub cell : Matrix → ℕ → ℕ → ℕ
cell cm y p = get_or (get_or cm y []) p 0

-- `v[i]++`
abbrev pub bump : List ℕ → ℕ → List ℕ
bump v i = set v i (get_or v i 0 + 1)

module _ {D : Type 0} ⦃d : Double D⦄ where
  unfoldable pub confusion_matrix : Tensor2D D → List ℕ → ℕ → Matrix
  unfolding for_up
  confusion_matrix probs labels n_classes =
      for_up probs.rows
        (λ i cm. let y = get_or labels i 0 in set cm y (bump (get_or cm y []) (argmax probs i)))
        (replicate n_classes (replicate n_classes 0))

-- `tp`, `fp` and `fn` of one class.
pub record Tally : Type 0 where
  pub tp : ℕ
  pub fp : ℕ
  pub fn : ℕ

unfoldable pub tally_row : ℕ → ℕ → ℕ → Tally → Tally
tally_row positive pred y t =
    if pred == positive && y == positive
    then record t { tp = t.tp + 1 }
    else if pred == positive && not (y == positive)
    then record t { fp = t.fp + 1 }
    else if not (pred == positive) && y == positive
    then record t { fn = t.fn + 1 }
    else t

module _ {D : Type 0} ⦃d : Double D⦄ where
  unfoldable pub tally : Tensor2D D → List ℕ → ℕ → Tally
  unfolding for_up tally_row
  tally probs labels positive =
      for_up probs.rows (λ i. tally_row positive (argmax probs i) (get_or labels i 0))
        (record { tp = 0; fp = 0; fn = 0 })

  -- `b == 0 ? 0.0 : (double)a / b`
  abbrev pub ratio : ℕ → ℕ → D
  ratio a b = if b == 0 then nought else d.div (d.of_int (pos a)) (d.of_int (pos b))

  unfoldable pub precision_recall : Tensor2D D → List ℕ → ℕ → D × D
  unfolding tally
  precision_recall probs labels positive =
      let t = tally probs labels positive in (ratio t.tp (t.tp + t.fp), ratio t.tp (t.tp + t.fn))

  -- `2 * p * r / (p + r)`, and 0.0 where the sum is 0.
  unfoldable pub harmonic : D → D → D
  harmonic p r =
      if d.eq (d.add p r) nought
      then nought
      else d.div (d.mul (d.mul (d.decimal 2 0) p) r) (d.add p r)

  unfoldable pub f1_score : Tensor2D D → List ℕ → ℕ → D
  unfolding precision_recall harmonic
  f1_score probs labels positive =
      let (p, r) = precision_recall probs labels positive in harmonic p r

-- The vectors `tp`, `fp`, `fn` over the classes.
pub record Tallies : Type 0 where
  pub tp : List ℕ
  pub fp : List ℕ
  pub fn : List ℕ

abbrev pub sum_below : ℕ → (ℕ → ℕ) → ℕ
sum_below zero f = 0
sum_below (suc n) f = sum_below n f + f n

unfoldable pub tallies_row : ℕ → ℕ → Tallies → Tallies
tallies_row pred y t =
    if pred == y
    then record t { tp = bump t.tp y }
    else record t { fp = bump t.fp pred; fn = bump t.fn y }

module _ {D : Type 0} ⦃d : Double D⦄ where
  unfoldable pub tallies : Tensor2D D → List ℕ → ℕ → Tallies
  unfolding for_up tallies_row
  tallies probs labels n =
      let none = replicate n 0 in
      for_up probs.rows (λ i. tallies_row (argmax probs i) (get_or labels i 0))
        (record { tp = none; fp = none; fn = none })

  unfoldable pub f1_for : Tallies → ℕ → D
  unfolding harmonic
  f1_for t c =
      let tp = get_or t.tp c 0 in
      harmonic (ratio tp (tp + get_or t.fp c 0)) (ratio tp (tp + get_or t.fn c 0))

  unfoldable pub f1_micro : Tallies → ℕ → D
  unfolding harmonic
  f1_micro t n =
      let tp = sum_below n (λ c. get_or t.tp c 0) in
      let fp = sum_below n (λ c. get_or t.fp c 0) in
      let fn = sum_below n (λ c. get_or t.fn c 0) in
      harmonic (ratio tp (tp + fp)) (ratio tp (tp + fn))

  unfoldable pub f1_macro_micro : Tensor2D D → List ℕ → ℕ → D × D
  unfolding for_up tallies f1_for f1_micro
  f1_macro_micro probs labels n =
      let t = tallies probs labels n in
      (
        d.div (for_up n (λ c macro. d.add macro (f1_for t c)) nought) (d.of_int (pos n)),
        f1_micro t n,
      )

-- The curve of `pr_auc_binary`: what the loop over the sorted pairs keeps.
pub record Curve (D : Type 0) : Type 0 where
  pub tp : D
  pub fp : D
  pub prev_r : D
  pub auc : D

module _ {D : Type 0} ⦃d : Double D⦄ where
  -- `x != 0.0`
  abbrev nonzero : D → Bool
  nonzero x = not (d.eq x nought)

  -- `tp` and `fp` are counted before the point is added.
  unfoldable pub curve_step : D → ℕ → Curve D → Curve D
  curve_step positives label c =
      let tp = if label == 1 then d.add c.tp one else c.tp in
      let fp = if label == 1 then c.fp else d.add c.fp one in
      let prec = if nonzero (d.add tp fp) then d.div tp (d.add tp fp) else one in
      let rec = if nonzero positives then d.div tp positives else nought in
      record { tp = tp; fp = fp; prev_r = rec; auc = d.add c.auc (d.mul prec (d.sub rec c.prev_r)) }

  abbrev pub positives_of : List (D × ℕ) → D → D
  positives_of [] p = p
  positives_of ((_, label) ∷ s) p = positives_of s (if label == 1 then d.add p one else p)

  unfoldable pub curve : D → List (D × ℕ) → Curve D → Curve D
  unfolding curve_step
  curve positives [] c = c
  curve positives ((_, label) ∷ s) c = curve positives s (curve_step positives label c)

  -- `s[i] = {probs(i,1), labels[i]}`
  abbrev pub scored : Tensor2D D → List ℕ → ℕ → List (D × ℕ)
  scored probs labels zero = []
  scored probs labels (suc n) = scored probs labels n ++ ((at probs n 1, get_or labels n 0) ∷ [])

  -- `sort` is `std::sort` by descending score.
  unfoldable pub pr_auc_binary : (List (D × ℕ) → List (D × ℕ)) → Tensor2D D → List ℕ → D
  unfolding curve
  pr_auc_binary sort probs labels =
      let s = sort (scored probs labels probs.rows) in
      (curve (positives_of s nought) s
        (record { tp = nought; fp = nought; prev_r = nought; auc = nought })).auc
