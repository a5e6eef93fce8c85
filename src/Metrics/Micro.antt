-- ===== src/Metrics/Micro.antt =====
-- Over all classes the tallies add up to the rows, so the micro average is the accuracy.
use neuralware_x.Prelude.{
  ℕ, zero, suc, ◌+◌, ◌<◌, ◌≤◌, ◌≡◌, refl, ◌∙◌, inl, inr, Bool-cases, List, arith, ltb, ◌==◌,
  if◌then◌else◌, length, get_or, replicate, for_up, length-set, length-replicate, get_or-set_self,
  get_or-set_ne, get_or-replicate,
}
use neuralware_x.Double.{Double}
use neuralware_x.Tensor.{Tensor2D, argmax, correct_count}
use neuralware_x.Tensor.Argmax.{argmax-lt}
use neuralware_x.Metrics.{
  bump, ratio, harmonic, sum_below, Tallies, tallies, tallies_row, f1_micro, f1_macro_micro,
}

abbrev total : List ℕ → ℕ → ℕ
total v m = sum_below m (λ c. get_or v c 0)

total-bump :
    (v : List ℕ) (i m : ℕ)
    → i < length v
    → total (bump v i) m ≡ total v m + (if ltb i m then 1 else 0)
total-bump v i zero h = ground arith
total-bump v i (suc m) h = ground (
  arith,
  total-bump v i m h,
  get_or-set_self v i (get_or v i 0 + 1) 0,
  get_or-set_ne v i m (get_or v i 0 + 1) 0,
)

total-none : (n m : ℕ) → total (replicate n 0) m ≡ 0
total-none n zero = refl
total-none n (suc m) = omega (arith, total-none n m, get_or-replicate {A = ℕ} n m 0)

-- After `m` rows of which `correct` were right.
record Sums (n m correct : ℕ) (t : Tallies) : Type 0 where
  tp_size : length t.tp ≡ n
  fp_size : length t.fp ≡ n
  fn_size : length t.fn ≡ n
  hits : total t.tp n ≡ correct
  predicted : total t.tp n + total t.fp n ≡ m
  actual : total t.tp n + total t.fn n ≡ m

Sums-row :
    (n m correct pred y : ℕ) (t : Tallies)
    → pred < n
    → y < n
    → Sums n m correct t
    → Sums n (suc m) (if pred == y then correct + 1 else correct) (tallies_row pred y t)
unfolding tallies_row
Sums-row n m correct pred y t hp hy s = elim (Bool-cases (pred == y)) [
  | inl e ↦ rw e (record {
    tp_size = length-set t.tp y _ ∙ s.tp_size;
    fp_size = s.fp_size;
    fn_size = s.fn_size;
    hits = ground (arith, total-bump t.tp y n, s.tp_size, s.hits);
    predicted = ground (arith, total-bump t.tp y n, s.tp_size, s.predicted);
    actual = ground (arith, total-bump t.tp y n, s.tp_size, s.actual);
  })
  | inr e ↦ rw e (record {
    tp_size = s.tp_size;
    fp_size = length-set t.fp pred _ ∙ s.fp_size;
    fn_size = length-set t.fn y _ ∙ s.fn_size;
    hits = s.hits;
    predicted = ground (arith, total-bump t.fp pred n, s.fp_size, s.predicted);
    actual = ground (arith, total-bump t.fn y n, s.fn_size, s.actual);
  })
]

module _ {D : Type 0} ⦃d : Double D⦄ (P : Tensor2D D) (labels : List ℕ) where
  abbrev none_tallied : ℕ → Tallies
  none_tallied n = record { tp = replicate n 0; fp = replicate n 0; fn = replicate n 0 }

  Sums-loop :
      (n m : ℕ)
      → 0 < P.cols
      → P.cols ≤ n
      → ((i : ℕ) → i < m → get_or labels i 0 < n)
      → Sums n m
          (for_up m
            (λ i correct. if argmax P i == get_or labels i 0 then correct + 1 else correct)
            0)
          (for_up m (λ i. tallies_row (argmax P i) (get_or labels i 0)) (none_tallied n))
  unfolding for_up
  Sums-loop n zero hc hn labels_lt = record {
    tp_size = length-replicate n 0;
    fp_size = length-replicate n 0;
    fn_size = length-replicate n 0;
    hits = total-none n n;
    predicted = omega (arith, total-none n n);
    actual = omega (arith, total-none n n);
  }
  Sums-loop n (suc m) hc hn labels_lt =
      Sums-row n m _ (argmax P m) (get_or labels m 0) _ (omega (arith, argmax-lt P m hc))
        (labels_lt m (omega arith)) (Sums-loop n m hc hn (λ i h. labels_lt i (omega arith)))

  -- If there is a column, no more columns than classes and every label is a class, the micro F1 is
  -- the harmonic mean of the accuracy with itself: micro precision and micro recall are both the
  -- number of correct rows over the number of rows.
  pub f1_macro_micro-accuracy :
      (n : ℕ)
      → 0 < P.cols
      → P.cols ≤ n
      → ((i : ℕ) → i < P.rows → get_or labels i 0 < n)
      → let share : D = ratio (correct_count P labels) P.rows in
        (f1_macro_micro P labels n).1 ≡ harmonic share share
  unfolding f1_macro_micro tallies f1_micro correct_count
  f1_macro_micro-accuracy n hc hn labels_lt =
      let s = Sums-loop n P.rows hc hn labels_lt in rw (s.predicted, s.actual, s.hits)
