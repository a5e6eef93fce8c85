-- ===== src/Tools/Fairness/Totals.antt =====
-- The counts of the groups, group by group.
use neuralware_x.Prelude.{
  ℕ, ◌+◌, ◌≡◌, refl, sym, subst, ap, ◌∙◌, inl, inr, Bool, Bool-cases, true, false, ◌&&◌, List, [],
  ◌∷◌, ◌==◌, if◌then◌else◌, get_or, arith,
}
use neuralware_x.Prelude.Int.{ℤ, pos, negsuc, ltb_ℤ}
use neuralware_x.Double.{Double}
use neuralware_x.Tensor.{Tensor2D, argmax}
use neuralware_x.Tools.Fairness.{
  Group, one_if, is_label, new_group, count_in, count_row, count_groups,
}

abbrev pub eq_ℤ : ℤ → ℤ → Bool
eq_ℤ (pos a) (pos b) = a == b
eq_ℤ (pos a) (negsuc b) = false
eq_ℤ (negsuc a) (pos b) = false
eq_ℤ (negsuc a) (negsuc b) = a == b

-- The entries of a key in the maps; a key that is not there has zeros.
abbrev pub entry : ℤ → List Group → Group
entry k [] = new_group k
entry k (t ∷ groups) = if eq_ℤ k t.key then t else entry k groups

-- How many of the rows from `i` on have the key and pass the test.
abbrev pub rows_with : (ℕ → Bool) → ℤ → ℕ → List ℤ → ℕ
rows_with test k i [] = 0
rows_with test k i (g ∷ gs) = one_if (eq_ℤ k g && test i) + rows_with test k (i + 1) gs

-- The keys of all groups are above `k`.
abbrev pub Above : ℤ → List Group → Type 0
Above k [] = Unit
Above k (t ∷ groups) = (ltb_ℤ k t.key ≡ true) × Above k groups

abbrev pub AreSorted : List Group → Type 0
AreSorted [] = Unit
AreSorted (t ∷ groups) = Above t.key groups × AreSorted groups

eq_ℤ-refl : (k : ℤ) → eq_ℤ k k ≡ true
eq_ℤ-refl (pos n) = ground arith
eq_ℤ-refl (negsuc n) = ground arith

eq_of_eq_ℤ : (a b : ℤ) → eq_ℤ a b ≡ true → a ≡ b
eq_of_eq_ℤ (pos a) (pos b) h = ground arith
eq_of_eq_ℤ (pos a) (negsuc b) h = cc
eq_of_eq_ℤ (negsuc a) (pos b) h = cc
eq_of_eq_ℤ (negsuc a) (negsuc b) h = ground arith

eq_ℤ-of_lt : (a b : ℤ) → ltb_ℤ a b ≡ true → eq_ℤ a b ≡ false
eq_ℤ-of_lt (pos a) (pos b) h = ground arith
eq_ℤ-of_lt (pos a) (negsuc b) h = refl
eq_ℤ-of_lt (negsuc a) (pos b) h = refl
eq_ℤ-of_lt (negsuc a) (negsuc b) h = ground arith

eq_of_not_lt : (a b : ℤ) → ltb_ℤ a b ≡ false → ltb_ℤ b a ≡ false → a ≡ b
eq_of_not_lt (pos a) (pos b) h h' = ap pos (ground arith)
eq_of_not_lt (pos a) (negsuc b) h h' = absurd (ground arith)
eq_of_not_lt (negsuc a) (pos b) h h' = absurd (ground arith)
eq_of_not_lt (negsuc a) (negsuc b) h h' = ap negsuc (ground arith)

ltb_ℤ-trans : (a b c : ℤ) → ltb_ℤ a b ≡ true → ltb_ℤ b c ≡ true → ltb_ℤ a c ≡ true
ltb_ℤ-trans a b c h h' = ground arith

Above-trans : (a b : ℤ) (groups : List Group) → ltb_ℤ a b ≡ true → Above b groups → Above a groups
Above-trans a b [] h k = tt
Above-trans a b (t ∷ groups) h (k, ks) = (ltb_ℤ-trans a b t.key h k, Above-trans a b groups h ks)

-- A key below all others is not there.
entry-Above : (k : ℤ) (groups : List Group) → Above k groups → entry k groups ≡ new_group k
entry-Above k [] h = refl
entry-Above k (t ∷ groups) (h, hs) = rw (eq_ℤ-of_lt k t.key h) (entry-Above k groups hs)

module _ (key : ℤ) (p a : Bool) where
  count_row-Above :
      (k : ℤ) (groups : List Group)
      → ltb_ℤ k key ≡ true
      → Above k groups
      → Above k (count_row key p a groups)
  unfolding count_row count_in
  count_row-Above k [] h hs = (h, tt)
  count_row-Above k (t ∷ groups) h (ht, hs) = elim (Bool-cases (ltb_ℤ key t.key)) [
    | inl before ↦ rw before (h, (ht, hs))
    | inr not_before ↦ elim (Bool-cases (ltb_ℤ t.key key)) [
      | inl after ↦ rw (not_before, after) (ht, count_row-Above k groups h hs)
      | inr same ↦ rw (not_before, same) (ht, hs)
    ]
  ]

  count_row-AreSorted :
      (groups : List Group) → AreSorted groups → AreSorted (count_row key p a groups)
  unfolding count_row count_in
  count_row-AreSorted [] h = (tt, tt)
  count_row-AreSorted (t ∷ groups) (ht, hs) = elim (Bool-cases (ltb_ℤ key t.key)) [
    | inl before ↦ rw before ((before, Above-trans key t.key groups before ht), (ht, hs))
    | inr not_before ↦ elim (Bool-cases (ltb_ℤ t.key key)) [
      | inl after ↦
          rw (not_before, after)
            (count_row-Above t.key groups after ht, count_row-AreSorted groups hs)
      | inr same ↦ rw (not_before, same) (ht, hs)
    ]
  ]

  -- The row is counted in the group of its key, and in no other.
  entry-count_row :
      (k : ℤ) (groups : List Group)
      → AreSorted groups
      → entry k (count_row key p a groups)
        ≡ (if eq_ℤ k key then count_in p a (entry k groups) else entry k groups)
  unfolding count_row count_in
  entry-count_row k [] h = elim (Bool-cases (eq_ℤ k key)) [
    | inl mine ↦ rw (mine, eq_of_eq_ℤ k key mine) refl
    | inr other ↦ rw other refl
  ]
  entry-count_row k (t ∷ groups) (ht, hs) = elim (Bool-cases (ltb_ℤ key t.key)) [
    | inl before ↦ rw before (elim (Bool-cases (eq_ℤ k key)) [
      | inl mine ↦
          let none_yet = entry-Above k (t ∷ groups) (
            subst (λ j. Above j (t ∷ groups)) (sym (eq_of_eq_ℤ k key mine))
              (before, Above-trans key t.key groups before ht)) in
          rw (mine, none_yet) (rw (eq_of_eq_ℤ k key mine) refl)
      | inr other ↦ rw other refl
    ])
    | inr not_before ↦ elim (Bool-cases (ltb_ℤ t.key key)) [
      | inl after ↦
          rw (not_before, after)
            (elim (Bool-cases (eq_ℤ k t.key)) [
              | inl here ↦
                  let away : eq_ℤ k key ≡ false =
                    rw (eq_of_eq_ℤ k t.key here) (eq_ℤ-of_lt t.key key after) in
                  rw (here, away) refl
              | inr further ↦ rw further (entry-count_row k groups hs)
            ])
      | inr same ↦
          let keys = eq_of_not_lt key t.key not_before same in
          rw (not_before, same, keys)
            (elim (Bool-cases (eq_ℤ k t.key)) [
              | inl here ↦ rw here refl
              | inr further ↦ rw further refl
            ])
    ]
  ]

-- The counts of the rows from `i` on, added to those of a group.
abbrev more_counts : (ℕ → Bool) → (ℕ → Bool) → ℤ → ℕ → List ℤ → Group → Group
more_counts predicted actual k i gs t = record t {
  cnt = t.cnt + rows_with (λ j. true) k i gs;
  positive = t.positive + rows_with predicted k i gs;
  tp = t.tp + rows_with (λ j. predicted j && actual j) k i gs;
  pos_true = t.pos_true + rows_with actual k i gs;
}

module _ {D : Type 0} ⦃d : Double D⦄ (P : Tensor2D D) (y : List ℕ) (pos_label : ℤ) where
  -- The prediction, or the label, of a row is the positive one.
  abbrev pub predicted_positive : ℕ → Bool
  predicted_positive i = is_label pos_label (argmax P i)

  abbrev pub is_positive : ℕ → Bool
  is_positive i = is_label pos_label (get_or y i 0)

  one_more :
      (k : ℤ) (i : ℕ) (g : ℤ) (gs : List ℤ) (t : Group)
      → more_counts predicted_positive is_positive k
          (i + 1)
          gs
          (if eq_ℤ k g then count_in (predicted_positive i) (is_positive i) t else t)
        ≡ more_counts predicted_positive is_positive k i (g ∷ gs) t
  unfolding count_in
  one_more k i g gs t = elim (Bool-cases (eq_ℤ k g)) [
    | inl mine ↦ rw mine (ground arith)
    | inr other ↦ rw other (ground arith)
  ]

  counted :
      (k : ℤ) (i : ℕ) (gs : List ℤ) (groups : List Group)
      → AreSorted groups
      → AreSorted (count_groups P y pos_label i gs groups)
        × (entry k (count_groups P y pos_label i gs groups)
            ≡ more_counts predicted_positive is_positive k i gs (entry k groups))
  unfolding count_groups
  counted k i [] groups h = (h, ground arith)
  counted k i (g ∷ gs) groups h =
      let p = predicted_positive i in
      let a = is_positive i in
      let rest = counted k (i + 1) gs _ (count_row-AreSorted g p a groups h) in
      (
        rest.0,
        rest.1
            ∙ ap (more_counts predicted_positive is_positive k (i + 1) gs)
                (entry-count_row g p a k groups h)
            ∙ one_more k i g gs (entry k groups),
      )

  -- The groups of the report stand in the order of their keys, each key once, and for every key the counts
  -- are how many rows have that key, how many of them are predicted positive, how many are both predicted
  -- positive and positive, and how many are positive, all 0 for a key that no row has.
  pub count_groups-entry :
      (gs : List ℤ)
      → AreSorted (count_groups P y pos_label 0 gs [])
        × ((k : ℤ)
            → entry k (count_groups P y pos_label 0 gs []) ≡ record {
              key = k;
              cnt = rows_with (λ i. true) k 0 gs;
              positive = rows_with predicted_positive k 0 gs;
              tp = rows_with (λ i. predicted_positive i && is_positive i) k 0 gs;
              pos_true = rows_with is_positive k 0 gs;
            })
  count_groups-entry gs =
      ((counted (pos 0) 0 gs [] tt).0, λ k. (counted k 0 gs [] tt).1 ∙ (ground arith))
