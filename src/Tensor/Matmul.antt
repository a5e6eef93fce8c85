-- ===== src/Tensor/Matmul.antt =====
-- The two CPU paths of `matmul` give each cell the same sum, in the same order of additions.
use neuralware_x.Prelude.{
  ℕ, ◌+◌, ◌-◌, ◌*◌, ◌≤◌, ◌<◌, ◌≡◌, refl, sym, ap, ◌∙◌, fun_ext, Bool, true, false, ◌&&◌, arith, ltb,
  lt→ltb, ◌==◌, if◌then◌else◌, for_up, min,
}
use neuralware_x.Double.{Double, nought}
use neuralware_x.Tensor.{Tensor2D, Fits, at, zeros, block, blocks, tile, matmul_avx2, matmul_loops}
use neuralware_x.Tensor.View.{
  Grid, modify, view, at-view, zeros-Fits, view-zeros, tensor_ext, row_loop,
}
use neuralware_x.Tensor.Blocks.{blocks_all, select_loop, stripes_all}
use neuralware_x.Tensor.Cells.{rows_loop, Shows, Shows-put, Shows-for_up, within, offset_rect}

swap_tests :
    {D : Type 0} (a b : Bool) (x y : D) → (if a && b then x else y) ≡ (if b && a then x else y)
swap_tests true true x y = refl
swap_tests true false x y = refl
swap_tests false true x y = refl
swap_tests false false x y = refl

same_row :
    {D : Type 0} (f : ℕ → D) (p i : ℕ) (b : Bool) (y : D)
    → (if p == i && b then f i else y) ≡ (if p == i && b then f p else y)
same_row f p i b y = ground arith

module _ {D : Type 0} ⦃d : Double D⦄ (A B : Tensor2D D) where
  -- `acc += A(i,k) * B(k,j)`
  abbrev term : ℕ → ℕ → ℕ → D → D
  term p q k acc = d.add acc (d.mul (at A p k) (at B k q))

  -- The sum in a cell: from 0.0, the products in the order of `k`.
  unfoldable pub dot : ℕ → ℕ → D
  dot p q = for_up A.cols (term p q) nought

  abbrev part : ℕ → ℕ → ℕ → ℕ → D → D
  part k0 k1 p q = for_up (k1 - k0) (λ dk. term p q (k0 + dk))

  abbrev tile_grid : (i0 i1 j0 j1 k0 k1 : ℕ) → Grid D → Grid D
  tile_grid i0 i1 j0 j1 k0 k1 =
      for_up (i1 - i0)
        (λ di. for_up (j1 - j0) (λ dj. modify (i0 + di) (j0 + dj) (part k0 k1 (i0 + di) (j0 + dj))))

  Shows-tile :
      (r c i0 i1 j0 j1 k0 k1 : ℕ) (C : Tensor2D D)
      → Fits r c C
      → i1 ≤ r
      → j1 ≤ c
      → Shows r c (tile A B i0 i1 j0 j1 k0 k1 C) (tile_grid i0 i1 j0 j1 k0 k1 (view r c C))
  unfolding tile
  Shows-tile r c i0 i1 j0 j1 k0 k1 C fit hi hj =
      Shows-for_up r c (i1 - i0) _ _
        (λ di s hdi fs.
          Shows-for_up r c (j1 - j0) _ _
            (λ dj u hdj fu.
              Shows-put r c u (i0 + di) (j0 + dj) (part k0 k1 (i0 + di) (j0 + dj)) fu (omega arith)
                (omega arith))
            s fs)
        C fit

  -- All products of one tile's rows and columns, over the blocks of `k`.
  strip_grid : (i0 i1 j0 j1 : ℕ) → Grid D → Grid D
  strip_grid i0 i1 j0 j1 =
      for_up (blocks A.cols)
        (λ b2. tile_grid i0 i1 j0 j1 (b2 * block) (min A.cols (b2 * block + block)))

  strip_grid-cell :
      (i0 i1 j0 j1 p q : ℕ) (g : Grid D)
      → strip_grid i0 i1 j0 j1 g p q ≡ (
          if within j0 (j0 + (j1 - j0)) q && within i0 (i0 + (i1 - i0)) p
          then for_up A.cols (term p q) (g p q)
          else g p q)
  unfolding strip_grid
  strip_grid-cell i0 i1 j0 j1 p q g =
      select_loop p q (blocks A.cols) _
        (within j0 (j0 + (j1 - j0)) q && within i0 (i0 + (i1 - i0)) p)
        (λ b2. part (b2 * block) (min A.cols (b2 * block + block)) p q)
        (λ b2 g'.
          offset_rect (i1 - i0) (j1 - j0) i0 j0
            (part (b2 * block) (min A.cols (b2 * block + block))) g' p q)
        g
      ∙ ap (λ v. if within j0 (j0 + (j1 - j0)) q && within i0 (i0 + (i1 - i0)) p then v else g p q)
          (blocks_all A.cols (term p q) (g p q))

  avx2_grid : Grid D → Grid D
  avx2_grid = for_up (blocks A.rows) λ b0. for_up (blocks B.cols) λ b1.
      strip_grid (b0 * block) (min A.rows (b0 * block + block)) (b1 * block)
        (min B.cols (b1 * block + block))

  avx2_grid-cell :
      (p q : ℕ) (g : Grid D)
      → avx2_grid g p q
        ≡ (if ltb p A.rows && ltb q B.cols then for_up A.cols (term p q) (g p q) else g p q)
  unfolding avx2_grid
  avx2_grid-cell p q g =
      stripes_all p q A.rows p _ (ltb q B.cols) (for_up A.cols (term p q))
        (λ b0 g'.
          stripes_all p q B.cols q _
            (within (b0 * block) (b0 * block + (min A.rows (b0 * block + block) - b0 * block)) p)
            (for_up A.cols (term p q))
            (λ b1 g''.
              strip_grid-cell (b0 * block) (min A.rows (b0 * block + block)) (b1 * block)
                (min B.cols (b1 * block + block)) p q g'')
            g'
          ∙ swap_tests (ltb q B.cols) _ (for_up A.cols (term p q) (g' p q)) (g' p q))
        g

  Shows-matmul_avx2 :
      Shows A.rows B.cols (matmul_avx2 A B) (avx2_grid (view A.rows B.cols (zeros A.rows B.cols)))
  unfolding matmul_avx2 avx2_grid strip_grid
  Shows-matmul_avx2 =
      Shows-for_up A.rows B.cols (blocks A.rows) _ _
        (λ b0 s _ fs.
          Shows-for_up A.rows B.cols (blocks B.cols) _ _
            (λ b1 u _ fu.
              Shows-for_up A.rows B.cols (blocks A.cols) _ _
                (λ b2 w _ fw.
                  Shows-tile A.rows B.cols (b0 * block) (min A.rows (b0 * block + block))
                    (b1 * block) (min B.cols (b1 * block + block)) (b2 * block)
                    (min A.cols (b2 * block + block)) w fw (omega arith) (omega arith))
                u fu)
            s fs)
        (zeros A.rows B.cols) (zeros-Fits D A.rows B.cols)

  -- The portable path: row by row, one product at a time into the whole row.
  loops_grid : Grid D → Grid D
  loops_grid = for_up A.rows λ i. for_up A.cols λ k. for_up B.cols λ j. modify i j (term i j k)

  loops_row :
      (i n p q : ℕ) (g : Grid D)
      → for_up n (λ k. for_up B.cols λ j. modify i j (term i j k)) g p q
        ≡ (if p == i && ltb q B.cols then for_up n (term p q) (g p q) else g p q)
  loops_row i n p q g =
      select_loop p q n _ (p == i && ltb q B.cols) (term p q)
        (λ k g'.
          row_loop B.cols i (λ j. term i j k) g' p q
          ∙ same_row (λ x. term x q k (g' p q)) p i (ltb q B.cols) (g' p q))
        g

  loops_grid-cell :
      (p q : ℕ) (g : Grid D)
      → loops_grid g p q
        ≡ (if ltb p A.rows && ltb q B.cols then for_up A.cols (term p q) (g p q) else g p q)
  unfolding loops_grid
  loops_grid-cell p q g =
      rows_loop A.rows p q (ltb q B.cols) (for_up A.cols (term p q)) _
        (λ i g'. loops_row i A.cols p q g') g

  Shows-matmul_loops :
      Shows A.rows B.cols (matmul_loops A B) (loops_grid (view A.rows B.cols (zeros A.rows B.cols)))
  unfolding matmul_loops loops_grid
  Shows-matmul_loops =
      Shows-for_up A.rows B.cols A.rows _ _
        (λ i s hi fs.
          Shows-for_up A.rows B.cols A.cols _ _
            (λ k u _ fu.
              Shows-for_up A.rows B.cols B.cols _ _
                (λ j w hj fw. Shows-put A.rows B.cols w i j (term i j k) fw hi hj) u fu)
            s fs)
        (zeros A.rows B.cols) (zeros-Fits D A.rows B.cols)

  pub matmul_loops-Fits : Fits A.rows B.cols (matmul_loops A B)
  matmul_loops-Fits = Shows-matmul_loops.0

  -- Each cell of the product is its sum of products, added in the order of `k` from 0.0.
  pub at-matmul_loops : (p q : ℕ) → p < A.rows → q < B.cols → at (matmul_loops A B) p q ≡ dot p q
  unfolding dot
  at-matmul_loops p q hp hq =
      at-view A.rows B.cols (matmul_loops A B) p q matmul_loops-Fits hp hq
      ∙ (λ i. Shows-matmul_loops.1 i p q)
      ∙ loops_grid-cell p q _
      ∙ rw (view-zeros D A.rows B.cols p q, lt→ltb p A.rows hp, lt→ltb q B.cols hq)

  -- The tiled path gives exactly the tensor of the portable path: blocking reorders no addition
  -- within a cell.
  pub matmul_avx2-eq-loops : matmul_avx2 A B ≡ matmul_loops A B
  matmul_avx2-eq-loops =
      tensor_ext A.rows B.cols (matmul_avx2 A B) (matmul_loops A B) Shows-matmul_avx2.0
        matmul_loops-Fits
        (Shows-matmul_avx2.1
          ∙ (fun_ext λ p. fun_ext λ q. avx2_grid-cell p q _ ∙ sym (loops_grid-cell p q _))
          ∙ sym Shows-matmul_loops.1)
