-- ===== src/Split.antt =====
-- src/core/split.cpp and src/core/stratified.cpp: the split of the rows into training and validation.
pub mod Partition
pub mod Classes
use neuralware_x.Prelude.{
  ℕ, zero, suc, ◌+◌, List, [], ◌∷◌, ◌++◌, ◌==◌, if◌then◌else◌, length, get_or, take, drop, min,
  for_up,
}
use neuralware_x.Prelude.Int.{ℤ, pos, negsuc}
use neuralware_x.Double.{Double, Rng}

-- 0, 1, .., n-1
abbrev pub indices : ℕ → List ℕ
indices zero = []
indices (suc n) = indices n ++ (n ∷ [])

-- A size moved into `0 .. n`.
abbrev pub clamp_size : ℤ → ℕ → ℕ
clamp_size (pos k) n = min k n
clamp_size (negsuc k) n = 0

module _ {D : Type 0} ⦃d : Double D⦄ where
  -- `(int)(val_ratio * n)`, clamped.
  abbrev pub split_size : D → ℕ → ℕ
  split_size ratio n = clamp_size (d.to_int (d.mul ratio (d.of_int (pos n)))) n

-- `byc[label].push_back(i)`: the map as its entries.
abbrev pub Groups : Type 0
Groups = List (ℕ × List ℕ)

unfoldable pub push_index : ℕ → ℕ → Groups → Groups
push_index c i [] = (c, i ∷ []) ∷ []
push_index c i ((k, xs) ∷ m) =
    if k == c then (k, xs ++ (i ∷ [])) ∷ m else (k, xs) ∷ push_index c i m

unfoldable pub by_class : List ℕ → Groups
unfolding for_up push_index
by_class labels = for_up (length labels) (λ i. push_index (get_or labels i 0) i) []

module _ {D G : Type 0} ⦃d : Double D⦄ (r : Rng G D) (ratio : D) where
  -- The pair that the code returns is the training rows, then the validation rows.
  unfoldable pub train_val_split : ℕ → G → (List ℕ × List ℕ) × G
  train_val_split n g =
      let (idx, g') = r.shuffle (indices n) g in
      let n_val = split_size ratio n in ((drop n_val idx, take n_val idx), g')

  unfoldable pub split_classes : Groups → List ℕ → List ℕ → G → List ℕ × List ℕ × G
  split_classes [] tr va g = (tr, va, g)
  split_classes ((k, xs) ∷ m) tr va g =
      let (idx, g') = r.shuffle xs g in
      let n_val = split_size ratio (length idx) in
      split_classes m (tr ++ drop n_val idx) (va ++ take n_val idx) g'

  -- `visit` is the order in which the unordered map is walked.
  unfoldable pub stratified_split : (Groups → Groups) → List ℕ → G → (List ℕ × List ℕ) × G
  unfolding by_class split_classes
  stratified_split visit labels g =
      let (tr, va, g1) = split_classes (visit (by_class labels)) [] [] g in
      let (tr', g2) = r.shuffle tr g1 in let (va', g3) = r.shuffle va g2 in ((tr', va'), g3)
