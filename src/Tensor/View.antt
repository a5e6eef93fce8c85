-- ===== src/Tensor/View.antt =====
-- A tensor seen as a function of row and column, and the loops that update it cell by cell.
use neuralware_x.Prelude.{
  ℕ, zero, suc, ◌+◌, ◌*◌, ◌/◌, ◌%◌, ◌<◌, ◌≡◌, refl, sym, ap, ◌∙◌, fun_ext, ◌⊎◌, inl, inr, ◌&&◌,
  arith, ltb, ◌==◌, if◌then◌else◌, Bool-cases, length, get_or, length-set, get_or-set_self,
  get_or-set_ne, get_or_ext, for_up, length-replicate, get_or-replicate,
}
use native.Mathlib.Nat.{mul-le-mul, le_refl, mod-lt, div-lt_iff_lt-mul, div-add-mod'}
use neuralware_x.Double.{Double, nought}
use neuralware_x.Tensor.{Tensor2D, Fits, at, put, zeros}

abbrev pub Grid : Type 0 → Type 0
Grid D = ℕ → ℕ → D

-- Row-major indices of two cells differ, and stay below the size.
pub index_lt : (r c i j : ℕ) → i < r → j < c → i * c + j < r * c
index_lt r c i j p q = grind arith

lt_cases : (a b : ℕ) → (a ≡ b) ⊎ ((a < b) ⊎ (b < a))
lt_cases a b = omega arith

pub index_inj : (c i j p q : ℕ) → j < c → q < c → i * c + j ≡ p * c + q → (i ≡ p) × (j ≡ q)
index_inj c i j p q hj hq e = elim (lt_cases i p) [
  | inl same ↦ (same, let e' : i * c ≡ p * c = ap (λ x. x * c) same in omega arith)
  | inr (inl below) ↦ absurd (omega (arith, mul-le-mul below (le_refl c)))
  | inr (inr above) ↦ absurd (omega (arith, mul-le-mul above (le_refl c)))
]

pub split_index : (r c k : ℕ) → k < r * c → (p : ℕ) × (q : ℕ) × (p < r) × (q < c) × (k ≡ p * c + q)
split_index r c k h =
    (k / c, k % c, (div-lt_iff_lt-mul some_col).1 h, mod-lt k some_col, sym (div-add-mod' k c))
  where
    some_col : 0 < c
    some_col = elim (lt_cases 0 c) [
      | inl e ↦ absurd (let h' : k < r * 0 = rw (← e) at h in omega arith)
      | inr (inl h') ↦ h'
      | inr (inr h') ↦ absurd (omega arith)
    ]

module _ {D : Type 0} where
  abbrev pub modify : ℕ → ℕ → (D → D) → Grid D → Grid D
  modify i j h f p q = if p == i && q == j then h (f p q) else f p q

  modify_self : (i j : ℕ) (v : D) (g : Grid D) → modify i j (λ _. v) g i j ≡ v
  modify_self i j v g = ground arith

module _ {D : Type 0} ⦃d : Double D⦄ where
  unfoldable pub view : ℕ → ℕ → Tensor2D D → Grid D
  view r c t p q = if ltb p r && ltb q c then get_or t.cells (p * c + q) nought else nought

  pub at-view :
      (r c : ℕ) (t : Tensor2D D) (i j : ℕ) → Fits r c t → i < r → j < c → at t i j ≡ view r c t i j
  unfolding view
  at-view r c t i j fit p q = ground arith

  pub put-Fits : (r c : ℕ) (t : Tensor2D D) (i j : ℕ) (v : D) → Fits r c t → Fits r c (put t i j v)
  put-Fits r c t i j v (a, b, e) = (a, b, length-set t.cells (i * t.cols + j) v ∙ e)

  -- The cell that is written, and the others.
  view-put-at :
      (r c : ℕ) (t : Tensor2D D) (i j : ℕ) (h : D → D)
      → Fits r c t
      → i < r
      → j < c
      → (p q : ℕ) → view r c (put t i j (h (at t i j))) p q ≡ modify i j h (view r c t) p q
  unfolding view
  view-put-at r c t i j h fit hi hj p q = elim (Bool-cases (p == i && q == j)) [
    | inl e ↦
        ground
          (arith, get_or-set_self t.cells (i * t.cols + j) (h (at t i j)) nought, index_lt r c i j)
    | inr e ↦ elim (Bool-cases (ltb p r && ltb q c)) [
      | inl e' ↦ ground (
        arith,
        get_or-set_ne t.cells (i * t.cols + j) (p * c + q) (h (at t i j)) nought,
        index_inj c i j p q hj,
      )
      | inr e' ↦ rw (e, e')
    ]
  ]

  pub view-put :
      (r c : ℕ) (t : Tensor2D D) (i j : ℕ) (h : D → D)
      → Fits r c t
      → i < r
      → j < c
      → view r c (put t i j (h (at t i j))) ≡ modify i j h (view r c t)
  unfolding view
  view-put r c t i j h fit hi hj = fun_ext λ p. fun_ext λ q. view-put-at r c t i j h fit hi hj p q

  view_in :
      (r c : ℕ) (t : Tensor2D D) (p q : ℕ)
      → p < r
      → q < c
      → view r c t p q ≡ get_or t.cells (p * c + q) nought
  unfolding view
  view_in r c t p q hp hq = ground arith

  pub at-put_self :
      (r c : ℕ) (t : Tensor2D D) (i j : ℕ) (v : D)
      → Fits r c t
      → i < r
      → j < c
      → at (put t i j v) i j ≡ v
  at-put_self r c t i j v fit hi hj =
      at-view r c (put t i j v) i j (put-Fits r c t i j v fit) hi hj
      ∙ (λ k. view-put r c t i j (λ _. v) fit hi hj k i j)
      ∙ modify_self i j v (view r c t)

  -- Shape and view determine the tensor.
  pub tensor_ext :
      (r c : ℕ) (s t : Tensor2D D) → Fits r c s → Fits r c t → view r c s ≡ view r c t → s ≡ t
  tensor_ext r c s t (sr, sc, sl) (tr, tc, tl) e =
      λ i. record { rows = (sr ∙ sym tr) i; cols = (sc ∙ sym tc) i; cells = cells_eq i }
    where
      cell : (k : ℕ) → k < length s.cells → get_or s.cells k nought ≡ get_or t.cells k nought
      cell k h =
          let (p, q, hp, hq, eq) = split_index r c k (rw sl at h) in
          rw eq (sym (view_in r c s p q hp hq) ∙ (λ i. e i p q) ∙ view_in r c t p q hp hq)

      cells_eq : s.cells ≡ t.cells
      cells_eq = get_or_ext s.cells t.cells nought (sl ∙ sym tl) cell

module _ {D : Type 0} where
  -- One row, then all rows, of a loop that updates the cells in turn.
  pub row_loop :
      (n i : ℕ) (f : ℕ → D → D) (g : Grid D) (p q : ℕ)
      → for_up n (λ j. modify i j (f j)) g p q ≡ (if p == i && ltb q n then f q (g p q) else g p q)
  unfolding for_up
  row_loop zero i f g p q = ground arith
  row_loop (suc n) i f g p q = ground (arith, row_loop n i f g p q)

  pub rect_loop :
      (m n : ℕ) (f : ℕ → ℕ → D → D) (g : Grid D) (p q : ℕ)
      → for_up m (λ i. for_up n (λ j. modify i j (f i j))) g p q
        ≡ (if ltb p m && ltb q n then f p q (g p q) else g p q)
  unfolding for_up
  rect_loop zero n f g p q = ground arith
  rect_loop (suc m) n f g p q = ground (
    arith,
    rect_loop m n f g p q,
    row_loop n m (f m) (for_up m (λ i. for_up n (λ j. modify i j (f i j))) g) p q,
  )

module _ (D : Type 0) ⦃d : Double D⦄ where
  pub zeros-Fits : (r c : ℕ) → Fits {D = D} r c (zeros r c)
  zeros-Fits r c = (refl, refl, length-replicate (r * c) nought)

  pub view-zeros : (r c p q : ℕ) → view {D = D} r c (zeros r c) p q ≡ nought
  unfolding view
  view-zeros r c p q = elim (Bool-cases (ltb p r && ltb q c)) [
    | inl e ↦ rw e (get_or-replicate (r * c) (p * c + q) nought)
    | inr e ↦ rw e
  ]
