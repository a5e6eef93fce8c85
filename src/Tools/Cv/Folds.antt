-- ===== src/Tools/Cv/Folds.antt =====
-- The folds of the cross-validation.
use mathlib.Core.List.{Perm, append_assoc, perm_append_comm, perm-append_left_iff}
use native.Mathlib.Nat.{
  zero-div, zero-mul, mul-div_right, le-div_iff_mul-le, div-lt_iff_lt-mul, lt-div-mul-add, add-mul,
  div-mul-le_self, mul-le-mul_right,
}
use neuralware_x.Prelude.{
  ℕ, zero, suc, ◌+◌, ◌-◌, ◌*◌, ◌/◌, ◌≤◌, ◌<◌, ◌≡◌, refl, sym, subst, ap, ap₂, ◌∙◌, ◌&&◌, true,
  false, List, [], ◌∷◌, ◌++◌, ltb, leb, length, take, drop, take-append-drop, length-take,
  length-drop, arith,
}
use neuralware_x.Tools.Cv.{FitsInt, fold_start, split_fold, fold}

-- The test parts of the first folds, one after the other.
abbrev pub tests_of : (K : ℕ) → List ℕ → ℕ → List ℕ
tests_of K idx zero = []
tests_of K idx (suc n) = tests_of K idx n ++ (fold K idx n).test

module _ (start end : ℕ) where
  -- The loop at position `i`, with `a` positions before the part and `b` in it.
  split_fold-cut :
      (a b i : ℕ) (idx : List ℕ)
      → start - i ≡ a
      → end - i ≡ a + b
      → split_fold start end i idx
        ≡ record { train = take a idx ++ drop b (drop a idx); test = take b (drop a idx) }
  unfolding split_fold
  split_fold-cut zero zero i [] s e = refl
  split_fold-cut zero (suc b) i [] s e = refl
  split_fold-cut (suc a) zero i [] s e = refl
  split_fold-cut (suc a) (suc b) i [] s e = refl
  split_fold-cut (suc a) b i (x ∷ idx) s e =
      let out : (leb start i && ltb i end) ≡ false = ground arith in
      rw (out, split_fold-cut a b (i + 1) idx (omega arith) (omega arith)) refl
  split_fold-cut zero (suc b) i (x ∷ idx) s e =
      let inside : (leb start i && ltb i end) ≡ true = ground arith in
      rw (inside, split_fold-cut zero b (i + 1) idx (omega arith) (omega arith)) refl
  split_fold-cut zero zero i (x ∷ idx) s e =
      let out : (leb start i && ltb i end) ≡ false = ground arith in
      rw (out, split_fold-cut zero zero (i + 1) idx (omega arith) (omega arith)) refl

take-zero : (b : ℕ) → take {A = ℕ} b [] ≡ []
take-zero zero = refl
take-zero (suc b) = refl

take-add : (a b n : ℕ) (idx : List ℕ) → n ≡ a + b → take n idx ≡ take a idx ++ take b (drop a idx)
take-add zero b n idx e = ap (λ k. take k idx) (omega arith)
take-add (suc a) b n [] e = take-zero n ∙ sym (take-zero b)
take-add (suc a) b zero (x ∷ idx) e = absurd (omega arith)
take-add (suc a) b (suc n) (x ∷ idx) e = ap (◌∷◌ x) (take-add a b n idx (omega arith))

-- Products by `K`, compared.
div_mono : (K a b : ℕ) → 0 < K → a ≤ b → a / K ≤ b / K
div_mono K a b some_fold h = grind arith

div-add : (K a b : ℕ) → 0 < K → (a / K + b / K ≤ (a + b) / K) × ((a + b) / K ≤ a / K + b / K + 1)
div-add K a b some_fold = (
  (le-div_iff_mul-le some_fold).1
      (omega (arith, add-mul (a / K) (b / K) K, div-mul-le_self a K, div-mul-le_self b K)),
  lt_succ (
      (div-lt_iff_lt-mul some_fold).1 (
        omega (
          arith,
          add-mul (a / K + b / K) 2 K,
          add-mul (a / K) (b / K) K,
          lt-div-mul-add {a = a} some_fold,
          lt-div-mul-add {a = b} some_fold,
        ))),
)
  where
    lt_succ : (a + b) / K < a / K + b / K + 2 → (a + b) / K ≤ a / K + b / K + 1
    lt_succ h = omega arith

moved :
    (A B : List ℕ) (s : ℕ) (idx : List ℕ) → A ++ B ≡ idx → Perm ((A ++ drop s B) ++ take s B) idx
moved A B s idx e =
    subst (λ xs. Perm ((A ++ drop s B) ++ take s B) xs) (ap (◌++◌ A) (take-append-drop s B) ∙ e)
      (subst (λ xs. Perm xs (A ++ (take s B ++ drop s B)))
        (sym (append_assoc A (drop s B) (take s B)))
        ((perm-append_left_iff A).1 (perm_append_comm (drop s B) (take s B))))

take-all : (idx : List ℕ) → take (length idx) idx ≡ idx
take-all [] = refl
take-all (x ∷ idx) = ap (◌∷◌ x) (take-all idx)

module _ (K : ℕ) (some_fold : 0 < K) (idx : List ℕ) where
  abbrev size : ℕ → ℕ
  size f = fold_start (f + 1) (length idx) K - fold_start f (length idx) K

  start_mono : (f : ℕ) → fold_start f (length idx) K ≤ fold_start (f + 1) (length idx) K
  start_mono f = div_mono K (f * length idx) ((f + 1) * length idx) some_fold (grind arith)

  fold_lem :
      (f : ℕ)
      → let a = fold_start f (length idx) K in
        fold K idx f ≡ record {
          train = take a idx ++ drop (size f) (drop a idx);
          test = take (size f) (drop a idx);
        }
  unfolding fold
  fold_lem f = split_fold-cut _ _ _ (size f) 0 idx (omega arith) (omega (arith, start_mono f))

  next : (n : ℕ) → fold_start (suc n) (length idx) K ≡ fold_start n (length idx) K + size n
  next n =
      let step : suc n ≡ n + 1 = omega arith in
      ap (λ k. fold_start k (length idx) K) step ∙ omega (arith, start_mono n)

  tests_of-take : (n : ℕ) → tests_of K idx n ≡ take (fold_start n (length idx) K) idx
  tests_of-take zero =
      ap (λ k. take k idx) (sym (ap (λ k. k / K) (zero-mul (length idx)) ∙ zero-div K))
  tests_of-take (suc n) =
      ap₂ ◌++◌ (tests_of-take n) (ap (λ p. p.test) (fold_lem n))
      ∙ sym (
          take-add (fold_start n (length idx) K) (size n) (fold_start (suc n) (length idx) K) idx
            (next n))

  fold-perm : (f : ℕ) → Perm ((fold K idx f).train ++ (fold K idx f).test) idx
  fold-perm f = rw (fold_lem f) (
      moved (take (fold_start f (length idx) K) idx) _ (size f) idx
        (take-append-drop (fold_start f (length idx) K) idx))

  end-le : (f : ℕ) → f < K → fold_start (f + 1) (length idx) K ≤ length idx
  end-le f h = omega (
    arith,
    div_mono K ((f + 1) * length idx) (K * length idx) some_fold
        (mul-le-mul_right (length idx) (omega arith)),
    mul-div_right (length idx) some_fold,
  )

  test-length : (f : ℕ) → f < K → length (fold K idx f).test ≡ size f
  test-length f h =
      ap (λ p. length p.test) (fold_lem f)
      ∙ omega (
        arith,
        length-take (size f) (drop (fold_start f (length idx) K) idx),
        length-drop (fold_start f (length idx) K) idx,
        end-le f h,
        start_mono f,
      )

  test-size :
      (f : ℕ)
      → f < K
      → (length idx / K ≤ length (fold K idx f).test)
        × (length (fold K idx f).test ≤ length idx / K + 1)
  test-size f h =
      let sums = div-add K (f * length idx) (length idx) some_fold in
      let step : (f + 1) * length idx ≡ f * length idx + length idx = grind arith in
      let step' = ap (λ k. k / K) step in
      (omega (arith, test-length f h), omega (arith, test-length f h))

  tests_of-all : tests_of K idx K ≡ idx
  tests_of-all =
      tests_of-take K ∙ ap (λ k. take k idx) (mul-div_right (length idx) some_fold) ∙ take-all idx

-- With at least one fold, every row is in the test part of exactly one fold: the test parts, one after the
-- other, are the shuffled rows in order. The two parts of a fold are together all the rows, each once, and
-- the sizes of the test parts differ by one at most, if the number of folds times the rows fits an `int`.
pub folds_cover :
    (K : ℕ) (idx : List ℕ)
    → 0 < K
    → FitsInt (K * length idx)
    → (tests_of K idx K ≡ idx)
      × ((f : ℕ)
          → f < K
          → Perm ((fold K idx f).train ++ (fold K idx f).test) idx
            × (length idx / K ≤ length (fold K idx f).test)
            × (length (fold K idx f).test ≤ length idx / K + 1))
folds_cover K idx some_fold fits = (
  tests_of-all K some_fold idx,
  λ f h. let size = test-size K some_fold idx f h in (fold-perm K some_fold idx f, size.0, size.1),
)
