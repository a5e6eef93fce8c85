-- ===== src/Tensor.antt =====
-- include/nwx/tensor.hpp and src/core/tensor.cpp: row-major matrices of doubles. The dimensions of a
-- tensor in memory are not negative; an index is `r * cols + c`, as in `Tensor2D::operator()`. The functions
-- are those of a release build, which leaves the `assert`s out; their conditions are `matmul_assert` and
-- `add_row_assert`.
pub mod View
pub mod Cells
pub mod Blocks
pub mod Matmul
pub mod Rows
pub mod Argmax
use neuralware_x.Prelude.{
  ℕ, ◌+◌, ◌-◌, ◌*◌, ◌/◌, ◌≡◌, List, Bool, ◌&&◌, Option, none, some, ◌==◌, if◌then◌else◌, min,
  length, get_or, set, replicate, for_up,
}
use neuralware_x.Prelude.Int.{pos}
use neuralware_x.Double.{Double, Rng, nought, one, fmax}

pub record Tensor2D (D : Type 0) : Type 0 where
  pub rows : ℕ
  pub cols : ℕ
  pub cells : List D

-- The vector holds one double for each cell.
abbrev pub Fits : {D : Type 0} → ℕ → ℕ → Tensor2D D → Type 0
Fits r c t = (t.rows ≡ r) × (t.cols ≡ c) × (length t.cells ≡ r * c)

abbrev pub IsShaped : {D : Type 0} → Tensor2D D → Type 0
IsShaped t = length t.cells ≡ t.rows * t.cols

-- What `matmul` does not compute itself.
pub record Backend (D : Type 0) : Type 0 where
  pub cpu : Bool
  pub gpu : Tensor2D D → Tensor2D D → Option (Tensor2D D)

abbrev pub block : ℕ
block = 64

-- The rounds of `for (x0 = 0; x0 < n; x0 += BS)`.
abbrev pub blocks : ℕ → ℕ
blocks n = (n + 63) / block

module _ {D : Type 0} ⦃d : Double D⦄ where
  abbrev pub zeros : ℕ → ℕ → Tensor2D D
  zeros r c = record { rows = r; cols = c; cells = replicate (r * c) nought }

  abbrev pub at : Tensor2D D → ℕ → ℕ → D
  at t r c = get_or t.cells (r * t.cols + c) nought

  abbrev pub put : Tensor2D D → ℕ → ℕ → D → Tensor2D D
  put t r c v = record t { cells = set t.cells (r * t.cols + c) v }

  -- `for (i < r) for (j < c) t(i,j) = f(i, j, t(i,j))`
  unfoldable pub for_cells : ℕ → ℕ → (ℕ → ℕ → D → D) → Tensor2D D → Tensor2D D
  unfolding for_up
  for_cells r c f = for_up r (λ i. for_up c (λ j t. put t i j (f i j (at t i j))))

  -- The three inner loops of the AVX2 path, over one tile.
  unfoldable pub tile : Tensor2D D → Tensor2D D → (i0 i1 j0 j1 k0 k1 : ℕ) → Tensor2D D → Tensor2D D
  unfolding for_up
  tile A B i0 i1 j0 j1 k0 k1 = for_up (i1 - i0) λ di. for_up (j1 - j0) λ dj C.
      let i = i0 + di in
      let j = j0 + dj in
      put C i j (
        for_up (k1 - k0) (λ dk acc. d.add acc (d.mul (at A i (k0 + dk)) (at B (k0 + dk) j)))
          (at C i j))

  unfoldable pub matmul_avx2 : Tensor2D D → Tensor2D D → Tensor2D D
  unfolding for_up tile
  matmul_avx2 A B =
      for_up (blocks A.rows)
        (λ b0.
          let i0 = b0 * block in
          for_up (blocks B.cols) (λ b1.
            let j0 = b1 * block in
            for_up (blocks A.cols) (λ b2.
              let k0 = b2 * block in
              tile A B i0 (min A.rows (i0 + block)) j0 (min B.cols (j0 + block)) k0
                (min A.cols (k0 + block)))))
        (zeros A.rows B.cols)

  -- The portable path.
  unfoldable pub matmul_loops : Tensor2D D → Tensor2D D → Tensor2D D
  unfolding for_up
  matmul_loops A B =
      for_up A.rows
        (λ i. for_up A.cols (λ k C.
          let a = at A i k in
          for_up B.cols (λ j C'. put C' i j (d.add (at C' i j) (d.mul a (at B k j)))) C))
        (zeros A.rows B.cols)

  -- `matmul`: `cpu` says that the AVX2 path is compiled in and that the processor has AVX2; `gpu` is
  -- the product of the cuBLAS call, where that is compiled in and returns 0.
  unfoldable pub matmul : Backend D → Tensor2D D → Tensor2D D → Tensor2D D
  unfolding matmul_avx2 matmul_loops
  matmul m A B =
      if m.cpu && A.cols == B.rows
      then matmul_avx2 A B
      else if A.cols == B.rows
      then elim (m.gpu A B) [ some C ↦ C | none ↦ matmul_loops A B ]
      else matmul_loops A B

  -- `assert(A.cols == B.rows)`
  abbrev pub matmul_assert : Tensor2D D → Tensor2D D → Bool
  matmul_assert A B = A.cols == B.rows

  -- `assert(A.cols == static_cast<int>(b.size()))`
  abbrev pub add_row_assert : Tensor2D D → List D → Bool
  add_row_assert A b = A.cols == length b

  unfoldable pub add_row : Tensor2D D → List D → Tensor2D D
  unfolding for_cells
  add_row A b = for_cells A.rows A.cols (λ i j v. d.add v (get_or b j nought)) A

  unfoldable pub relu : Tensor2D D → Tensor2D D
  unfolding for_cells
  relu X = for_cells X.rows X.cols (λ i j v. if d.lt v nought then nought else v) X

  unfoldable pub relu_grad : Tensor2D D → Tensor2D D
  unfolding for_cells
  relu_grad X =
      for_cells X.rows X.cols (λ i j _. if d.lt nought (at X i j) then one else nought)
        (zeros X.rows X.cols)

  -- The largest value of a row, from minus infinity up.
  unfoldable pub row_max : Tensor2D D → ℕ → D
  unfolding for_up
  row_max X i = for_up X.cols (λ j m. fmax m (at X i j)) (d.neg d.infinity)

  -- One row of `softmax`: the exponentials and their sum, then the division.
  unfoldable pub softmax_row : Tensor2D D → ℕ → Tensor2D D → Tensor2D D
  unfolding for_up row_max
  softmax_row X i Y =
      let maxv = row_max X i in
      let (Y1, sum) =
        for_up X.cols
          (λ j s.
            let Y' = put s.0 i j (d.exp (d.sub (at X i j) maxv)) in (Y', d.add s.1 (at Y' i j)))
          (Y, nought) in
      for_up X.cols (λ j Y2. put Y2 i j (d.div (at Y2 i j) sum)) Y1

  unfoldable pub softmax : Tensor2D D → Tensor2D D
  unfolding for_up softmax_row
  softmax X = for_up X.rows (softmax_row X) (zeros X.rows X.cols)

  unfoldable pub cross_entropy : Tensor2D D → List ℕ → D
  unfolding for_up
  cross_entropy probs labels =
      d.div
        (for_up probs.rows
          (λ i loss.
            let p = fmax (at probs i (get_or labels i 0)) (d.decimal 1 15) in
            d.add loss (d.neg (d.log p)))
          nought)
        (d.of_int (pos probs.rows))

  -- The scan of a row for its largest value: the column and the value found so far.
  unfoldable pub argmax_scan : Tensor2D D → ℕ → ℕ × D
  unfolding for_up
  argmax_scan probs i =
      for_up (probs.cols - 1)
        (λ k s. let v = at probs i (k + 1) in if d.lt s.1 v then (k + 1, v) else s)
        (0, at probs i 0)

  unfoldable pub argmax : Tensor2D D → ℕ → ℕ
  unfolding argmax_scan
  argmax probs i = (argmax_scan probs i).0

  unfoldable pub correct_count : Tensor2D D → List ℕ → ℕ
  unfolding for_up argmax
  correct_count probs labels =
      for_up probs.rows
        (λ i correct. if argmax probs i == get_or labels i 0 then correct + 1 else correct) 0

  unfoldable pub accuracy : Tensor2D D → List ℕ → D
  unfolding correct_count
  accuracy probs labels =
      d.div (d.of_int (pos (correct_count probs labels))) (d.of_int (pos probs.rows))

  -- `dist(rng)` draws from `[-scale, scale)`.
  unfoldable pub xavier_init : {G : Type 0} → Rng G D → Tensor2D D → G → Tensor2D D × G
  unfolding for_up
  xavier_init r W g =
      let scale = d.sqrt (d.div (d.decimal 6 0) (d.of_int (pos (W.rows + W.cols)))) in
      for_up W.rows
        (λ i.
          for_up W.cols
            (λ j s. let (v, g') = r.uniform (d.neg scale) scale s.1 in (put s.0 i j v, g')))
        (W, g)
