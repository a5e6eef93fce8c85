-- ===== src/Prelude/Sums.antt =====
-- Sums and counts over lists; they do not depend on the order.
use mathlib.Core.List.{Perm, Permᴰ}
use mathlib.Core.Logic.{∥∥₁_elim}
use native.Mathlib.Nat.{ℕ_set}
use neuralware_x.Prelude.{
  ℕ, zero, suc, ◌+◌, ◌≤◌, ◌≡◌, refl, ap, ◌∙◌, Bool, List, [], ◌∷◌, ◌++◌, arith, if◌then◌else◌,
  length, take, drop, min,
}

module _ {ℓ} {A : Type ℓ} where
  abbrev pub sum_by : (A → ℕ) → List A → ℕ
  sum_by f [] = 0
  sum_by f (x ∷ xs) = f x + sum_by f xs

  abbrev pub count_if : (A → Bool) → List A → ℕ
  count_if p = sum_by (λ x. if p x then 1 else 0)

module _ {ℓ} {A : Type ℓ} where
  pub sum_by-append : (f : A → ℕ) (xs ys : List A) → sum_by f (xs ++ ys) ≡ sum_by f xs + sum_by f ys
  sum_by-append f [] ys = omega arith
  sum_by-append f (x ∷ xs) ys = omega (arith, sum_by-append f xs ys)

  sum_by-permᴰ : (f : A → ℕ) {xs ys : List A} → Permᴰ xs ys → sum_by f xs ≡ sum_by f ys
  sum_by-permᴰ f Permᴰ.nil = refl
  sum_by-permᴰ f (Permᴰ.cons e p) = omega (arith, ap f e, sum_by-permᴰ f p)
  sum_by-permᴰ f (Permᴰ.swap e e') = omega (arith, ap f e, ap f e')
  sum_by-permᴰ f (Permᴰ.trans p q) = sum_by-permᴰ f p ∙ sum_by-permᴰ f q

  pub sum_by-perm : (f : A → ℕ) {xs ys : List A} → Perm xs ys → sum_by f xs ≡ sum_by f ys
  sum_by-perm f p = ∥∥₁_elim p (ℕ_set _ _) (sum_by-permᴰ f)

  pub sum_by-one : (xs : List A) → sum_by (λ _. 1) xs ≡ length xs
  sum_by-one [] = refl
  sum_by-one (x ∷ xs) = omega (arith, sum_by-one xs)

  pub length-perm : {xs ys : List A} → Perm xs ys → length xs ≡ length ys
  length-perm {xs} {ys} p = omega (arith, sum_by-one xs, sum_by-one ys, sum_by-perm (λ _. 1) p)

  pub count_if-le-length : (p : A → Bool) (xs : List A) → count_if p xs ≤ length xs
  count_if-le-length p [] = omega arith
  count_if-le-length p (x ∷ xs) = ground (arith, count_if-le-length p xs)

  pub count_if-take_all :
      (p : A → Bool) (m : ℕ) (xs : List A)
      → count_if p xs ≡ length xs
      → count_if p (take m xs) ≡ min m (length xs)
  count_if-take_all p zero xs h = omega arith
  count_if-take_all p (suc m) [] h = omega arith
  count_if-take_all p (suc m) (x ∷ xs) h =
      ground (arith, count_if-le-length p xs, count_if-take_all p m xs)

  pub count_if-take_none :
      (p : A → Bool) (m : ℕ) (xs : List A) → count_if p xs ≡ 0 → count_if p (take m xs) ≡ 0
  count_if-take_none p zero xs h = refl
  count_if-take_none p (suc m) [] h = refl
  count_if-take_none p (suc m) (x ∷ xs) h = ground (arith, count_if-take_none p m xs)

  pub sum_by-take-drop :
      (f : A → ℕ) (m : ℕ) (xs : List A) → sum_by f (take m xs) + sum_by f (drop m xs) ≡ sum_by f xs
  sum_by-take-drop f zero xs = omega arith
  sum_by-take-drop f (suc m) [] = refl
  sum_by-take-drop f (suc m) (x ∷ xs) = omega (arith, sum_by-take-drop f m xs)

  pub sum_by_congr : (f g : A → ℕ) (xs : List A) → ((x : A) → f x ≡ g x) → sum_by f xs ≡ sum_by g xs
  sum_by_congr f g [] e = refl
  sum_by_congr f g (x ∷ xs) e = omega (arith, e x, sum_by_congr f g xs e)
