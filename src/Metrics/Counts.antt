-- ===== src/Metrics/Counts.antt =====
-- The confusion matrix and the tallies of one class count the same rows.
use neuralware_x.Prelude.{
  ℕ, zero, suc, ◌+◌, ◌<◌, ◌≡◌, refl, sym, ap, ap₂, ◌∙◌, inl, inr, Bool, Bool-cases, ◌&&◌, List, [],
  ◌∷◌, arith, ltb, ◌==◌, if◌then◌else◌, length, get_or, set, replicate, for_up, length-set,
  length-replicate, get_or-set_self, get_or-set_ne, get_or-replicate, get_or-replicate_lt,
}
use neuralware_x.Prelude.Sums.{count_if, sum_by-append}
use neuralware_x.Double.{Double}
use neuralware_x.Tensor.{Tensor2D, argmax}
use neuralware_x.Split.{indices}
use neuralware_x.Metrics.{
  Matrix, cell, bump, confusion_matrix, Tally, tally, tally_row, ratio, precision_recall, sum_below,
}

-- Counting over the row numbers.
pub count-indices-suc :
    (p : ℕ → Bool) (n : ℕ)
    → count_if p (indices (suc n)) ≡ count_if p (indices n) + (if p n then 1 else 0)
count-indices-suc p n =
    omega (arith, sum_by-append (λ i. if p i then 1 else 0) (indices n) (n ∷ []))

pub count-indices_congr :
    (p q : ℕ → Bool) (n : ℕ)
    → ((i : ℕ) → i < n → p i ≡ q i)
    → count_if p (indices n) ≡ count_if q (indices n)
count-indices_congr p q zero e = refl
count-indices_congr p q (suc n) e =
    count-indices-suc p n
    ∙ ap₂ (λ a b. a + (if b then 1 else 0)) (count-indices_congr p q n (λ i h. e i (omega arith)))
        (e n (omega arith))
    ∙ sym (count-indices-suc q n)

count_below_none :
    (f : ℕ → ℕ) (q : ℕ → Bool) (xs : List ℕ) → count_if (λ i. ltb (f i) 0 && q i) xs ≡ 0
count_below_none f q [] = refl
count_below_none f q (x ∷ xs) = ground (arith, count_below_none f q xs)

count_below_suc :
    (f : ℕ → ℕ) (q : ℕ → Bool) (m : ℕ) (xs : List ℕ)
    → count_if (λ i. ltb (f i) m && q i) xs + count_if (λ i. f i == m && q i) xs
      ≡ count_if (λ i. ltb (f i) (suc m) && q i) xs
count_below_suc f q m [] = refl
count_below_suc f q m (x ∷ xs) = ground (arith, count_below_suc f q m xs)

-- The members on which `f` takes one of the values below `m`.
pub sum_below-count :
    (f : ℕ → ℕ) (q : ℕ → Bool) (m : ℕ) (xs : List ℕ)
    → sum_below m (λ y. count_if (λ i. f i == y && q i) xs) ≡ count_if (λ i. ltb (f i) m && q i) xs
sum_below-count f q zero xs = sym (count_below_none f q xs)
sum_below-count f q (suc m) xs = omega (arith, sum_below-count f q m xs, count_below_suc f q m xs)

sum_below_congr :
    (n : ℕ) (f g : ℕ → ℕ) → ((i : ℕ) → i < n → f i ≡ g i) → sum_below n f ≡ sum_below n g
sum_below_congr zero f g e = refl
sum_below_congr (suc n) f g e =
    ap₂ ◌+◌ (sum_below_congr n f g (λ i h. e i (omega arith))) (e n (omega arith))

record IsSquare (n : ℕ) (cm : Matrix) : Type 0 where
  size : length cm ≡ n
  row_size : (y : ℕ) → y < n → length (get_or cm y []) ≡ n

none_counted : (n : ℕ) → IsSquare n (replicate n (replicate n 0))
none_counted n = record {
  size = length-replicate n (replicate n 0);
  row_size = λ y h. ap length (get_or-replicate_lt n y (replicate n 0) [] h) ∙ length-replicate n 0;
}

-- `cm[y][p] += 1`
abbrev count_up : Matrix → ℕ → ℕ → Matrix
count_up cm y p = set cm y (bump (get_or cm y []) p)

length-row :
    (n : ℕ) (cm : Matrix) (y p y' : ℕ)
    → IsSquare n cm
    → y' < n
    → length (get_or (count_up cm y p) y' []) ≡ n
length-row n cm y p y' s h = elim (Bool-cases (y == y')) [
  | inl e ↦
      let same : y ≡ y' = ground arith in
      rw (same, get_or-set_self cm y' (bump (get_or cm y' []) p) [] (omega (arith, s.size)))
        (length-set (get_or cm y' []) p (get_or (get_or cm y' []) p 0 + 1) ∙ s.row_size y' h)
  | inr e ↦ rw (get_or-set_ne cm y y' (bump (get_or cm y []) p) [] (ground arith)) (s.row_size y' h)
]

count_up-IsSquare : (n : ℕ) (cm : Matrix) (y p : ℕ) → IsSquare n cm → IsSquare n (count_up cm y p)
count_up-IsSquare n cm y p s = record {
  size = length-set cm y (bump (get_or cm y []) p) ∙ s.size;
  row_size = λ y' h. length-row n cm y p y' s h;
}

cell-count_up :
    (n : ℕ) (cm : Matrix) (y p y' p' : ℕ)
    → IsSquare n cm
    → y' < n
    → p' < n
    → cell (count_up cm y p) y' p' ≡ cell cm y' p' + (if y == y' && p == p' then 1 else 0)
cell-count_up n cm y p y' p' s hy hp = elim (Bool-cases (y == y')) [
  | inl e ↦
      let same : y ≡ y' = ground arith in
      rw (same, get_or-set_self cm y' (bump (get_or cm y' []) p) [] (omega (arith, s.size)))
        (bumped (get_or cm y' []) (s.row_size y' hy))
  | inr e ↦ rw (e, get_or-set_ne cm y y' (bump (get_or cm y []) p) [] (ground arith)) (omega arith)
]
  where
    bumped :
        (row : List ℕ)
        → length row ≡ n
        → get_or (bump row p) p' 0 ≡ get_or row p' 0 + (if y' == y' && p == p' then 1 else 0)
    bumped row l = ground (
      arith,
      get_or-set_self row p (get_or row p 0 + 1) 0,
      get_or-set_ne row p p' (get_or row p 0 + 1) 0,
    )

module _ {D : Type 0} ⦃d : Double D⦄ (P : Tensor2D D) (labels : List ℕ) where
  abbrev pub label : ℕ → ℕ
  label i = get_or labels i 0

  abbrev counted : ℕ → ℕ → Matrix
  counted n m = for_up m (λ i cm. count_up cm (label i) (argmax P i)) (replicate n (replicate n 0))

  counted-cell :
      (n m y p : ℕ)
      → y < n
      → p < n
      → IsSquare n (counted n m)
        × (cell (counted n m) y p ≡ count_if (λ i. label i == y && argmax P i == p) (indices m))
  unfolding for_up
  counted-cell n zero y p hy hp = (
    none_counted n,
    ap (λ row. get_or row p 0) (get_or-replicate_lt n y (replicate n 0) [] hy)
        ∙ get_or-replicate n p 0,
  )
  counted-cell n (suc m) y p hy hp =
      let (square, count) = counted-cell n m y p hy hp in
      (
        count_up-IsSquare n (counted n m) (label m) (argmax P m) square,
        omega (
          arith,
          cell-count_up n (counted n m) (label m) (argmax P m) y p square hy hp,
          count,
          count-indices-suc (λ i. label i == y && argmax P i == p) m,
        ),
      )

  -- Entry `[y][p]` of the confusion matrix is the number of rows with label `y` and prediction `p`.
  pub cell-confusion_matrix :
      (n y p : ℕ)
      → y < n
      → p < n
      → cell (confusion_matrix P labels n) y p
        ≡ count_if (λ i. label i == y && argmax P i == p) (indices P.rows)
  unfolding confusion_matrix
  cell-confusion_matrix n y p hy hp = (counted-cell n P.rows y p hy hp).1

  abbrev tallied : ℕ → ℕ → Tally
  tallied k m =
      for_up m (λ i. tally_row k (argmax P i) (label i)) (record { tp = 0; fp = 0; fn = 0 })

  tallied-counts :
      (k m : ℕ)
      → ((tallied k m).tp ≡ count_if (λ i. label i == k && argmax P i == k) (indices m))
        × ((tallied k m).tp + (tallied k m).fp ≡ count_if (λ i. argmax P i == k) (indices m))
        × ((tallied k m).tp + (tallied k m).fn ≡ count_if (λ i. label i == k) (indices m))
  unfolding for_up tally_row
  tallied-counts k zero = omega arith
  tallied-counts k (suc m) = ground (
    arith,
    tallied-counts k m,
    count-indices-suc (λ i. label i == k && argmax P i == k) m,
    count-indices-suc (λ i. argmax P i == k) m,
    count-indices-suc (λ i. label i == k) m,
  )

  column :
      (n k : ℕ)
      → ((i : ℕ) → i < P.rows → label i < n)
      → k < n
      → sum_below n (λ y. cell (confusion_matrix P labels n) y k)
        ≡ count_if (λ i. argmax P i == k) (indices P.rows)
  column n k in_range hk =
      sum_below_congr n _ _ (λ y hy. cell-confusion_matrix n y k hy hk)
      ∙ sum_below-count label (λ i. argmax P i == k) n (indices P.rows)
      ∙ count-indices_congr _ _ P.rows (λ i hi. ground (arith, in_range i hi))

  row :
      (n k : ℕ)
      → ((i : ℕ) → i < P.rows → argmax P i < n)
      → k < n
      → sum_below n (λ p. cell (confusion_matrix P labels n) k p)
        ≡ count_if (λ i. label i == k) (indices P.rows)
  row n k in_range hk =
      sum_below_congr n _ (λ p. count_if (λ i. argmax P i == p && label i == k) (indices P.rows))
        (λ p hp.
          cell-confusion_matrix n k p hk hp ∙ count-indices_congr _ _ P.rows (λ i hi. ground arith))
      ∙ sum_below-count (argmax P) (λ i. label i == k) n (indices P.rows)
      ∙ count-indices_congr _ _ P.rows (λ i hi. ground (arith, in_range i hi))

  -- With labels and predictions below the number of classes, the precision of a class is its diagonal
  -- entry of the confusion matrix over its column, and the recall the same entry over its row, each
  -- 0.0 where the sum is 0.
  pub precision_recall-confusion_matrix :
      (n k : ℕ)
      → ((i : ℕ) → i < P.rows → label i < n)
      → ((i : ℕ) → i < P.rows → argmax P i < n)
      → k < n
      → let cm = confusion_matrix P labels n in
        precision_recall P labels k ≡ (
          ratio (cell cm k k) (sum_below n (λ y. cell cm y k)),
          ratio (cell cm k k) (sum_below n (λ p. cell cm k p)),
        )
  unfolding precision_recall tally
  precision_recall-confusion_matrix n k labels_lt preds_lt hk =
      let (hits, predicted, actual) = tallied-counts k P.rows in
      rw (
        predicted,
        actual,
        hits,
        column n k labels_lt hk,
        row n k preds_lt hk,
        cell-confusion_matrix n k k hk hk,
      )
