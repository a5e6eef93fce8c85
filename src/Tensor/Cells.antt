-- ===== src/Tensor/Cells.antt =====
-- Loops that update a tensor cell by cell, as loops on its view.
use neuralware_x.Prelude.{
  ℕ, zero, suc, ◌+◌, ◌≤◌, ◌<◌, ◌≡◌, sym, ap, ◌∙◌, Bool, ◌&&◌, arith, ltb, leb, ◌==◌, if◌then◌else◌,
  for_up, for_up_hom,
}
use native.Mathlib.Nat.{le_trans}
use neuralware_x.Double.{Double}
use neuralware_x.Tensor.{Tensor2D, Fits, at, put, for_cells}
use neuralware_x.Tensor.View.{Grid, modify, view, at-view, put-Fits, view-put, rect_loop}

abbrev pub within : ℕ → ℕ → ℕ → Bool
within a b p = leb a p && ltb p b

module _ {D : Type 0} ⦃d : Double D⦄ where
  -- A state with a shape, and what its view is.
  abbrev pub Shows : ℕ → ℕ → Tensor2D D → Grid D → Type 0
  Shows r c t g = Fits r c t × (view r c t ≡ g)

  pub Shows-put :
      (r c : ℕ) (t : Tensor2D D) (i j : ℕ) (h : D → D)
      → Fits r c t
      → i < r
      → j < c
      → Shows r c (put t i j (h (at t i j))) (modify i j h (view r c t))
  Shows-put r c t i j h fit hi hj =
      (put-Fits r c t i j (h (at t i j)) fit, view-put r c t i j h fit hi hj)

  -- A loop each of whose rounds acts on the view acts on the view.
  pub Shows-for_up :
      (r c n : ℕ) (body : ℕ → Tensor2D D → Tensor2D D) (body' : ℕ → Grid D → Grid D)
      → ((i : ℕ) (t : Tensor2D D)
          → i < n
          → Fits r c t
          → Shows r c (body i t) (body' i (view r c t)))
      → (t : Tensor2D D) → Fits r c t
      → Shows r c (for_up n body t) (for_up n body' (view r c t))
  Shows-for_up r c n body body' step t fit =
      for_up_hom (Fits r c) (view r c) n body body' step t fit

  pub Shows-for_cells :
      (r c m n : ℕ) (f : ℕ → ℕ → D → D) (t : Tensor2D D)
      → Fits r c t
      → m ≤ r
      → n ≤ c
      → Shows r c
          (for_cells m n f t)
          (for_up m (λ i. for_up n (λ j. modify i j (f i j))) (view r c t))
  unfolding for_cells
  Shows-for_cells r c m n f t fit hm hn =
      Shows-for_up r c m _ _
        (λ i s hi fs.
          Shows-for_up r c n _ _
            (λ j u hj fu. Shows-put r c u i j (f i j) fu (le_trans hi hm) (le_trans hj hn)) s fs)
        t fit

  -- What such a loop leaves in each cell.
  pub at-for_cells :
      (r c m n : ℕ) (f : ℕ → ℕ → D → D) (t : Tensor2D D) (p q : ℕ)
      → Fits r c t
      → m ≤ r
      → n ≤ c
      → p < r
      → q < c
      → at (for_cells m n f t) p q ≡ (if ltb p m && ltb q n then f p q (at t p q) else at t p q)
  at-for_cells r c m n f t p q fit hm hn hp hq =
      let (fits, shows) = Shows-for_cells r c m n f t fit hm hn in
      at-view r c (for_cells m n f t) p q fits hp hq
      ∙ (λ i. shows i p q)
      ∙ rect_loop m n f (view r c t) p q
      ∙ ap (λ v. if ltb p m && ltb q n then f p q v else v) (sym (at-view r c t p q fit hp hq))

module _ {D : Type 0} where
  -- A rectangle of cells, from `(i0, j0)` on.
  offset_row :
      (n i j0 : ℕ) (f : ℕ → D → D) (g : Grid D) (p q : ℕ)
      → for_up n (λ dj. modify i (j0 + dj) (f (j0 + dj))) g p q
        ≡ (if p == i && within j0 (j0 + n) q then f q (g p q) else g p q)
  unfolding for_up
  offset_row zero i j0 f g p q = ground arith
  offset_row (suc n) i j0 f g p q = ground (arith, offset_row n i j0 f g p q)

  pub offset_rect :
      (m n i0 j0 : ℕ) (f : ℕ → ℕ → D → D) (g : Grid D) (p q : ℕ)
      → for_up m (λ di. for_up n (λ dj. modify (i0 + di) (j0 + dj) (f (i0 + di) (j0 + dj)))) g p q
        ≡ (if within j0 (j0 + n) q && within i0 (i0 + m) p then f p q (g p q) else g p q)
  unfolding for_up
  offset_rect zero n i0 j0 f g p q = ground arith
  offset_rect (suc m) n i0 j0 f g p q = ground (
    arith,
    offset_rect m n i0 j0 f g p q,
    offset_row n (i0 + m) j0 (f (i0 + m))
        (for_up m (λ di. for_up n (λ dj. modify (i0 + di) (j0 + dj) (f (i0 + di) (j0 + dj)))) g) p
        q,
  )

-- Rounds that each update one row.
pub rows_loop :
    {D : Type 0} (m p q : ℕ) (here : Bool) (f : D → D) (body : ℕ → Grid D → Grid D)
    → ((i : ℕ) (g : Grid D) → body i g p q ≡ (if p == i && here then f (g p q) else g p q))
    → (g : Grid D) → for_up m body g p q ≡ (if ltb p m && here then f (g p q) else g p q)
unfolding for_up
rows_loop zero p q here f body e g = ground arith
rows_loop (suc m) p q here f body e g =
    ground (arith, e m (for_up m body g), rows_loop m p q here f body e g)
