-- ===== src/Split/Classes.antt =====
-- The split is stratified: each class gives the validation part its own share.
use mathlib.Core.List.{Perm}
use neuralware_x.Prelude.{
  ℕ, zero, suc, ◌+◌, ◌≡◌, ◌≢◌, refl, sym, subst, ap, ◌∙◌, inl, inr, Bool, true, false, Bool-cases,
  List, [], ◌∷◌, ◌++◌, arith, ◌==◌, if◌then◌else◌, length, take, drop, for_up, get_or,
  length-append,
}
use neuralware_x.Prelude.Int.{pos}
use neuralware_x.Prelude.Sums.{
  sum_by, count_if, sum_by-append, sum_by-perm, length-perm, count_if-take_all, count_if-take_none,
}
use Prim.Native.Nat.add
use neuralware_x.Double.{Double, Rng}
use neuralware_x.Split.{
  indices, split_size, Groups, push_index, by_class, split_classes, stratified_split,
}
use neuralware_x.Split.Partition.{IsShuffle, clamp_size-le}

-- Key `k` is not in the map; the keys of the map differ.
abbrev IsNew : ℕ → Groups → Type 0
IsNew k [] = Unit
IsNew k ((j, xs) ∷ m) = (j ≢ k) × IsNew k m

abbrev IsDistinct : Groups → Type 0
IsDistinct [] = Unit
IsDistinct ((k, xs) ∷ m) = IsNew k m × IsDistinct m

-- The members of a group have its label.
abbrev IsLabelled : (ℕ → ℕ) → Groups → Type 0
IsLabelled label [] = Unit
IsLabelled label ((k, xs) ∷ m) =
    ((c : ℕ) → count_if (λ i. label i == c) xs ≡ (if k == c then length xs else 0))
    × IsLabelled label m

IsNew-push_index : (k c i : ℕ) (m : Groups) → c ≢ k → IsNew k m → IsNew k (push_index c i m)
unfolding push_index
IsNew-push_index k c i [] h n = (h, tt)
IsNew-push_index k c i ((j, xs) ∷ m) h n = ground (arith, IsNew-push_index k c i m h)

IsDistinct-push_index : (c i : ℕ) (m : Groups) → IsDistinct m → IsDistinct (push_index c i m)
unfolding push_index
IsDistinct-push_index c i [] h = (tt, tt)
IsDistinct-push_index c i ((k, xs) ∷ m) h =
    ground (arith, IsDistinct-push_index c i m h.1, IsNew-push_index k c i m)

-- The sum over the groups of class `c`.
abbrev of_class : (ℕ → ℕ) → ℕ → Groups → ℕ
of_class f c = sum_by (λ kv. if kv.0 == c then f (length kv.1) else 0)

of_class_new : (f : ℕ → ℕ) (c : ℕ) (m : Groups) → IsNew c m → of_class f c m ≡ 0
of_class_new f c [] h = refl
of_class_new f c ((k, xs) ∷ m) h = ground (arith, of_class_new f c m h.1)

-- In a map with distinct keys there is at most one group of a class.
of_class_one :
    (f : ℕ → ℕ) (c : ℕ) (m : Groups)
    → f 0 ≡ 0
    → IsDistinct m
    → of_class f c m ≡ f (of_class (λ n. n) c m)
of_class_one f c [] e h = sym e
of_class_one f c ((k, xs) ∷ m) e h = elim (Bool-cases (k == c)) [
  | inl hit ↦
      let same : k ≡ c = ground arith in
      let new : IsNew c m = subst (λ x. IsNew x m) same h.0 in
      rw hit (
        omega (
          arith,
          of_class_new f c m new,
          ap f (one_more (length xs) (of_class_new (λ n. n) c m new)),
        ))
  | inr miss ↦
      rw (miss, add.zero (of_class f c m), add.zero (of_class (λ n. n) c m))
        (of_class_one f c m e h.1)
]
  where
    one_more : (n : ℕ) {z : ℕ} → z ≡ 0 → n ≡ n + z
    one_more n e = omega arith

of_class-push_index :
    (c k i : ℕ) (m : Groups)
    → of_class (λ n. n) c (push_index k i m) ≡ of_class (λ n. n) c m + (if k == c then 1 else 0)
unfolding push_index
of_class-push_index c k i [] = ground arith
of_class-push_index c k i ((j, xs) ∷ m) =
    ground (arith, of_class-push_index c k i m, length-append xs (i ∷ []))

IsLabelled-push_index :
    (label : ℕ → ℕ) (i : ℕ) (m : Groups)
    → IsLabelled label m
    → IsLabelled label (push_index (label i) i m)
unfolding push_index
IsLabelled-push_index label i [] h = (λ c. ground arith, tt)
IsLabelled-push_index label i ((k, xs) ∷ m) h = elim (Bool-cases (k == label i)) [
  | inl hit ↦ rw hit (
    λ c.
        let p : ℕ → ℕ = λ j. if label j == c then 1 else 0 in
        ground (arith, h.0 c, sum_by-append p xs (i ∷ []), length-append xs (i ∷ [])),
    h.1,
  )
  | inr miss ↦ rw miss (h.0, IsLabelled-push_index label i m h.1)
]

abbrev built : List ℕ → ℕ → Groups
built labels n = for_up n (λ i. push_index (get_or labels i 0) i) []

built-IsDistinct : (labels : List ℕ) (n : ℕ) → IsDistinct (built labels n)
unfolding for_up
built-IsDistinct labels zero = tt
built-IsDistinct labels (suc n) =
    IsDistinct-push_index (get_or labels n 0) n (built labels n) (built-IsDistinct labels n)

built-IsLabelled : (labels : List ℕ) (n : ℕ) → IsLabelled (λ i. get_or labels i 0) (built labels n)
unfolding for_up
built-IsLabelled labels zero = tt
built-IsLabelled labels (suc n) =
    IsLabelled-push_index (λ i. get_or labels i 0) n (built labels n) (built-IsLabelled labels n)

of_class-built :
    (labels : List ℕ) (c n : ℕ)
    → of_class (λ k. k) c (built labels n) ≡ count_if (λ i. get_or labels i 0 == c) (indices n)
unfolding for_up
of_class-built labels c zero = refl
of_class-built labels c (suc n) = omega (
  arith,
  of_class-push_index c (get_or labels n 0) n (built labels n),
  of_class-built labels c n,
  sum_by-append (λ i. if get_or labels i 0 == c then 1 else 0) (indices n) (n ∷ []),
)

-- How many groups break the labelling of class `c`; no order enters.
abbrev mislabelled : (ℕ → ℕ) → ℕ → Groups → ℕ
mislabelled label c = sum_by (λ kv.
    if count_if (λ i. label i == c) kv.1 == (if kv.0 == c then length kv.1 else 0) then 0 else 1)

mislabelled_none :
    (label : ℕ → ℕ) (c : ℕ) (m : Groups) → IsLabelled label m → mislabelled label c m ≡ 0
mislabelled_none label c [] h = refl
mislabelled_none label c ((k, xs) ∷ m) h = ground (arith, h.0 c, mislabelled_none label c m h.1)

module _ {D G : Type 0} ⦃d : Double D⦄ (r : Rng G D) (shuffles : IsShuffle r) (ratio : D) where
  -- What one shuffled group gives to the validation part.
  share :
      (p : ℕ → Bool) (here : Bool) (xs : List ℕ) (g : G)
      → count_if p xs ≡ (if here then length xs else 0)
      → count_if p (take (split_size ratio (length (r.shuffle xs g).0)) (r.shuffle xs g).0)
        ≡ (if here then split_size ratio (length xs) else 0)
  share p true xs g e =
      let idx = (r.shuffle xs g).0 in
      let same : length idx ≡ length xs = length-perm (shuffles xs g) in
      let counted : count_if p idx ≡ length idx =
        sum_by-perm (λ i. if p i then 1 else 0) (shuffles xs g) ∙ e ∙ sym same in
      let small =
        clamp_size-le (d.to_int (d.mul ratio (d.of_int (pos (length idx))))) (length idx) in
      omega (arith, count_if-take_all p (split_size ratio (length idx)) idx counted)
      ∙ ap (split_size ratio) same
  share p false xs g e =
      let idx = (r.shuffle xs g).0 in
      count_if-take_none p (split_size ratio (length idx)) idx
        (sum_by-perm (λ i. if p i then 1 else 0) (shuffles xs g) ∙ e)

  split_classes-of_class :
      (label : ℕ → ℕ) (c : ℕ) (m : Groups) (tr va : List ℕ) (g : G)
      → mislabelled label c m ≡ 0
      → count_if (λ i. label i == c) (split_classes r ratio m tr va g).1
        ≡ count_if (λ i. label i == c) va + of_class (split_size ratio) c m
  unfolding split_classes
  split_classes-of_class label c [] tr va g h = omega arith
  split_classes-of_class label c ((k, xs) ∷ m) tr va g h =
      let (idx, g') = r.shuffle xs g in
      let n_val = split_size ratio (length idx) in
      let p : ℕ → Bool = λ i. label i == c in
      let labelled : count_if p xs ≡ (if k == c then length xs else 0) = ground arith in
      let rest : mislabelled label c m ≡ 0 = ground arith in
      omega (
        arith,
        split_classes-of_class label c m (tr ++ drop n_val idx) (va ++ take n_val idx) g' rest,
        sum_by-append (λ i. if label i == c then 1 else 0) va (take n_val idx),
        share p (k == c) xs g labelled,
      )

  -- Of the rows with label `c`, exactly `(int)(val_ratio * n_c)`, clamped into `0 .. n_c`, are in the
  -- validation part, where `n_c` is how many rows have that label.
  pub stratified_split_share :
      (visit : Groups → Groups) (labels : List ℕ) (g : G)
      → ((m : Groups) → Perm (visit m) m)
      → (c : ℕ)
      → let of_c : ℕ → Bool = λ i. get_or labels i 0 == c in
        count_if of_c (stratified_split r ratio visit labels g).0.1
        ≡ split_size ratio (count_if of_c (indices (length labels)))
  unfolding stratified_split by_class
  stratified_split_share visit labels g visits c =
      let groups = built labels (length labels) in
      let label : ℕ → ℕ = λ i. get_or labels i 0 in
      let (tr, va, g1) = split_classes r ratio (visit groups) [] [] g in
      let (tr', g2) = r.shuffle tr g1 in
      let fine =
        sum_by-perm _ (visits groups)
        ∙ mislabelled_none label c groups (built-IsLabelled labels (length labels)) in
      sum_by-perm (λ i. if label i == c then 1 else 0) (shuffles va g2)
      ∙ split_classes-of_class label c (visit groups) [] [] g fine
      ∙ add.zero _
      ∙ sum_by-perm _ (visits groups)
      ∙ of_class_one (split_size ratio) c groups
          (omega (arith, clamp_size-le (d.to_int (d.mul ratio (d.of_int (pos 0)))) 0))
          (built-IsDistinct labels (length labels))
      ∙ ap (split_size ratio) (of_class-built labels c (length labels))
