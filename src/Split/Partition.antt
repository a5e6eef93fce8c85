-- ===== src/Split/Partition.antt =====
-- The two parts hold every row once.
use mathlib.Core.List.{Perm}
use neuralware_x.Prelude.{
  ℕ, zero, suc, ◌+◌, ◌≤◌, ◌≡◌, refl, ◌∙◌, List, [], ◌∷◌, ◌++◌, arith, ltb, ◌==◌, if◌then◌else◌,
  length, take, drop, for_up, get_or, length-take, length-drop, length-append,
}
use neuralware_x.Prelude.Int.{pos, negsuc, ℤ}
use neuralware_x.Prelude.Sums.{
  sum_by, count_if, sum_by-append, sum_by-perm, length-perm, sum_by-take-drop,
}
use neuralware_x.Double.{Double, Rng}
use neuralware_x.Split.{
  indices, clamp_size, split_size, Groups, push_index, by_class, train_val_split, split_classes,
  stratified_split,
}

-- `std::shuffle` reorders.
abbrev pub IsShuffle : {D G : Type 0} → Rng G D → Type 0
IsShuffle {G = G} r = (xs : List ℕ) (g : G) → Perm (r.shuffle xs g).0 xs

pub clamp_size-le : (z : ℤ) (n : ℕ) → clamp_size z n ≤ n
clamp_size-le (pos k) n = omega arith
clamp_size-le (negsuc k) n = omega arith

pub length-indices : (n : ℕ) → length (indices n) ≡ n
length-indices zero = refl
length-indices (suc n) = omega (arith, length-append (indices n) (n ∷ []), length-indices n)

pub count-indices : (i n : ℕ) → count_if (λ j. j == i) (indices n) ≡ (if ltb i n then 1 else 0)
count-indices i zero = ground arith
count-indices i (suc n) =
    ground
      (arith, count-indices i n, sum_by-append (λ j. if j == i then 1 else 0) (indices n) (n ∷ []))

-- The sum over all members of all groups.
abbrev pub members : (ℕ → ℕ) → Groups → ℕ
members f = sum_by (λ kv. sum_by f kv.1)

pub members-push_index :
    (f : ℕ → ℕ) (c i : ℕ) (m : Groups) → members f (push_index c i m) ≡ members f m + f i
unfolding push_index
members-push_index f c i [] = omega arith
members-push_index f c i ((k, xs) ∷ m) =
    ground (arith, members-push_index f c i m, sum_by-append f xs (i ∷ []))

members-loop :
    (f : ℕ → ℕ) (labels : List ℕ) (n : ℕ)
    → members f (for_up n (λ i. push_index (get_or labels i 0) i) []) ≡ sum_by f (indices n)
unfolding for_up
members-loop f labels zero = refl
members-loop f labels (suc n) = omega (
  arith,
  members-push_index f (get_or labels n 0) n (for_up n (λ i. push_index (get_or labels i 0) i) []),
  members-loop f labels n,
  sum_by-append f (indices n) (n ∷ []),
)

pub members-by_class :
    (f : ℕ → ℕ) (labels : List ℕ) → members f (by_class labels) ≡ sum_by f (indices (length labels))
unfolding by_class
members-by_class f labels = members-loop f labels (length labels)

module _ {D G : Type 0} ⦃d : Double D⦄ (r : Rng G D) (shuffles : IsShuffle r) (ratio : D) where
  members-split_classes :
      (f : ℕ → ℕ) (m : Groups) (tr va : List ℕ) (g : G)
      → let (tr', va', _) = split_classes r ratio m tr va g in
        sum_by f tr' + sum_by f va' ≡ sum_by f tr + sum_by f va + members f m
  unfolding split_classes
  members-split_classes f [] tr va g = omega arith
  members-split_classes f ((k, xs) ∷ m) tr va g =
      let (idx, g') = r.shuffle xs g in
      let n_val = split_size ratio (length idx) in
      omega (
        arith,
        members-split_classes f m (tr ++ drop n_val idx) (va ++ take n_val idx) g',
        sum_by-append f tr (drop n_val idx),
        sum_by-append f va (take n_val idx),
        sum_by-take-drop f n_val idx,
        sum_by-perm f (shuffles xs g),
      )

  -- A sum over the rows is the sum over the training rows plus the sum over the validation rows.
  sum_by-stratified_split :
      (f : ℕ → ℕ) (visit : Groups → Groups) (labels : List ℕ) (g : G)
      → ((m : Groups) → Perm (visit m) m)
      → let s = stratified_split r ratio visit labels g in
        sum_by f s.0.0 + sum_by f s.0.1 ≡ sum_by f (indices (length labels))
  unfolding stratified_split
  sum_by-stratified_split f visit labels g visits =
      let groups = visit (by_class labels) in
      let (tr, va, g1) = split_classes r ratio groups [] [] g in
      let (tr', g2) = r.shuffle tr g1 in
      omega (
        arith,
        sum_by-perm f (shuffles tr g1),
        sum_by-perm f (shuffles va g2),
        members-split_classes f groups [] [] g,
        sum_by-perm (λ kv. sum_by f kv.1) (visits (by_class labels)),
        members-by_class f labels,
      )

  -- Whatever order the map is walked in and however the generator shuffles, every row number below
  -- the number of labels occurs once in the two parts together, and no other number occurs.
  pub stratified_split_partition :
      (visit : Groups → Groups) (labels : List ℕ) (g : G)
      → ((m : Groups) → Perm (visit m) m)
      → (i : ℕ)
      → let s = stratified_split r ratio visit labels g in
        count_if (λ j. j == i) s.0.0 + count_if (λ j. j == i) s.0.1
        ≡ (if ltb i (length labels) then 1 else 0)
  stratified_split_partition visit labels g visits i =
      sum_by-stratified_split (λ j. if j == i then 1 else 0) visit labels g visits
      ∙ count-indices i (length labels)

  -- `train_val_split` puts every row number below `n` into one of its parts, once, and the validation
  -- part has the clamped size.
  pub train_val_split_partition :
      (n : ℕ) (g : G) (i : ℕ)
      → let s = train_val_split r ratio n g in
        (count_if (λ j. j == i) s.0.0 + count_if (λ j. j == i) s.0.1 ≡ (if ltb i n then 1 else 0))
        × (length s.0.1 ≡ split_size ratio n)
        × (length s.0.0 + split_size ratio n ≡ n)
  unfolding train_val_split
  train_val_split_partition n g i =
      let idx = (r.shuffle (indices n) g).0 in
      let m = split_size ratio n in
      let p : ℕ → ℕ = λ j. if j == i then 1 else 0 in
      let small = clamp_size-le (d.to_int (d.mul ratio (d.of_int (pos n)))) n in
      let whole : length idx ≡ n = length-perm (shuffles (indices n) g) ∙ length-indices n in
      (
        omega (arith, sum_by-take-drop p m idx, sum_by-perm p (shuffles (indices n) g))
            ∙ count-indices i n,
        omega (arith, length-take m idx),
        omega (arith, length-drop m idx),
      )
