-- ===== src/Tensor/Argmax.antt =====
-- The column that a row scan chooses.
use neuralware_x.Prelude.{
  ℕ, zero, suc, ◌+◌, ◌-◌, ◌≤◌, ◌<◌, ◌≡◌, refl, ◌⊎◌, true, false, inl, inr, arith, if◌then◌else◌,
  Bool-cases, for_up,
}
use neuralware_x.Double.{Double, IsOrdered}
use neuralware_x.Tensor.{Tensor2D, at, argmax}

module _ {D : Type 0} ⦃d : Double D⦄ where
  -- Index `b` is the first of the indices below `n` at which `v` is largest.
  pub record IsFirstMax (v : ℕ → D) (n b : ℕ) : Type 0 where
    pub in_range : b < n
    pub largest : (j : ℕ) → j < n → d.lt (v b) (v j) ≡ false
    pub first : (j : ℕ) → j < b → d.lt (v j) (v b) ≡ true

  scan : (ℕ → D) → ℕ → ℕ × D
  scan v n = for_up n (λ k s. if d.lt s.1 (v (k + 1)) then (k + 1, v (k + 1)) else s) (0, v 0)

  module _ (laws : IsOrdered d) (v : ℕ → D) where
    below_suc : (j n : ℕ) → j < suc n → (j < n) ⊎ (j ≡ n)
    below_suc j n h = omega arith

    -- A new value above the largest so far.
    IsFirstMax-new :
        (n b : ℕ)
        → ((j : ℕ) → j < n → d.eq (v j) (v j) ≡ true)
        → IsFirstMax v n b
        → d.lt (v b) (v n) ≡ true
        → IsFirstMax v (suc n) n
    IsFirstMax-new n b numeric m above = record {
      in_range = omega arith;
      largest = λ j hj. elim (below_suc j n hj) [
        | inl h ↦ ground (arith, m.largest j h, laws.lt_trans (v b) (v n) (v j))
        | inr e ↦ rw e (laws.lt_irrefl (v n))
      ];
      first = λ j hj. ground (arith, m.largest j hj, numeric j hj, laws.lt_weak (v b) (v j) (v n));
    }

    IsFirstMax-old :
        (n b : ℕ) → IsFirstMax v n b → d.lt (v b) (v n) ≡ false → IsFirstMax v (suc n) b
    IsFirstMax-old n b m not_above = record {
      in_range = omega (arith, m.in_range);
      largest = λ j hj. elim (below_suc j n hj) [ inl h ↦ m.largest j h | inr e ↦ rw e not_above ];
      first = m.first;
    }

    IsFirstMax-one : IsFirstMax v 1 0
    IsFirstMax-one = record {
      in_range = omega arith;
      largest = λ j hj. let e : j ≡ 0 = omega arith in rw e (laws.lt_irrefl (v 0));
      first = λ j hj. absurd (omega arith);
    }

    scan-IsFirstMax :
        (n : ℕ)
        → ((j : ℕ) → j < suc n → d.eq (v j) (v j) ≡ true)
        → IsFirstMax v (suc n) (scan v n).0 × ((scan v n).1 ≡ v (scan v n).0)
    unfolding for_up scan
    scan-IsFirstMax zero numeric = (IsFirstMax-one, refl)
    scan-IsFirstMax (suc n) numeric =
        let s = scan v n in
        let (m, value) = scan-IsFirstMax n (λ j hj. numeric j (omega arith)) in
        let next : n + 1 ≡ suc n = omega arith in
        elim (Bool-cases (d.lt (v s.0) (v (suc n)))) [
          | inl above ↦
              rw (next, value, above)
                (IsFirstMax-new (suc n) s.0 (λ j hj. numeric j (omega arith)) m above, refl)
          | inr not_above ↦
              rw (next, value, not_above) (IsFirstMax-old (suc n) s.0 m not_above, refl)
        ]

  -- For a row of numbers, none of them a NaN, `argmax` is the first column that holds the largest
  -- value of the row.
  pub argmax-IsFirstMax :
      IsOrdered d
      → (P : Tensor2D D) (i : ℕ) → 0 < P.cols
      → ((j : ℕ) → j < P.cols → d.eq (at P i j) (at P i j) ≡ true)
      → IsFirstMax (at P i) P.cols (argmax P i)
  unfolding argmax scan
  argmax-IsFirstMax laws P i some_col numeric =
      let e : suc (P.cols - 1) ≡ P.cols = omega arith in
      rw e at ((scan-IsFirstMax laws (at P i) (P.cols - 1) (λ j hj. numeric j (omega arith))).0)

  scan-le : (v : ℕ → D) (n : ℕ) → (scan v n).0 ≤ n
  unfolding scan for_up
  scan-le v zero = omega arith
  scan-le v (suc n) = elim (Bool-cases (d.lt (scan v n).1 (v (n + 1)))) [
    | inl e ↦ rw e (omega arith)
    | inr e ↦ rw e (omega (arith, scan-le v n))
  ]

  -- Whatever the cells hold, the column exists if there is one.
  pub argmax-lt : (P : Tensor2D D) (i : ℕ) → 0 < P.cols → argmax P i < P.cols
  unfolding argmax scan
  argmax-lt P i h = omega (arith, scan-le (at P i) (P.cols - 1))
