-- ===== src/Gpu/Layout.antt =====
-- Which product the device computes for square matrices.
use neuralware_x.Prelude.{
  ℕ, ◌+◌, ◌*◌, ◌<◌, ◌≡◌, sym, ap, ap₂, ◌∙◌, subst, List, some, get_or, arith,
}
use neuralware_x.Double.{Double, nought}
use neuralware_x.Tensor.{Tensor2D, at}
use neuralware_x.Gpu.{Cuda, multiply, nwx_cublas_dgemm, gpu_product}

module _ {D : Type 0} ⦃d : Double D⦄ where
  -- `cublasDgemm` with both operands transposed, as it is documented: matrices are stored by columns, and the
  -- cell of row `i` and column `j` of an `n` by `m` result is the inner product of row `i` of the first
  -- operand, transposed, and column `j` of the second one, transposed. In which order the products are
  -- added is open.
  abbrev pub IsGemm : (ℕ → (ℕ → D) → (ℕ → D) → D) → Cuda D → Type 0
  IsGemm inner u =
      (n m k : ℕ) (B : List D) (ldb : ℕ) (A : List D) (lda i j : ℕ)
      → i < n
      → j < m
      → get_or (u.gemm_tt n m k B ldb A lda) (i + j * n) nought
        ≡ inner k (λ l. get_or B (l + i * ldb) nought) (λ l. get_or A (j + l * lda) nought)

  -- What comes back with the code 0 is what `cublasDgemm` left.
  gpu_product-cells :
      (u : Cuda D) (A B C : Tensor2D D)
      → gpu_product u A B ≡ some C
      → (C.cols ≡ B.cols) × (C.cells ≡ u.gemm_tt B.cols A.rows A.cols B.cells A.cols A.cells A.rows)
  unfolding gpu_product nwx_cublas_dgemm multiply
  gpu_product-cells u A B C e = ground arith

  same_place : (L : List D) (a b : ℕ) → a ≡ b → get_or L a nought ≡ get_or L b nought
  same_place L a b e k = get_or L (e k) nought

  -- For square matrices of one size, the device gives the transpose of `B` times `A`: the cell in row `j` and column
  -- `i` of what is returned is the inner product of row `i` of `B` and column `j` of `A`. Assumed is what
  -- `cublasDgemm` is documented to compute.
  pub gpu_product-swapped :
      (inner : ℕ → (ℕ → D) → (ℕ → D) → D) (u : Cuda D)
      → IsGemm inner u
      → (n : ℕ) (A B C : Tensor2D D) → A.rows ≡ n
      → A.cols ≡ n
      → B.cols ≡ n
      → gpu_product u A B ≡ some C
      → (i j : ℕ) → i < n
      → j < n
      → at C j i ≡ inner n (λ l. at B i l) (λ l. at A l j)
  gpu_product-swapped inner u gemm n A B C ar ac bc e i j p q =
      let got = gpu_product-cells u A B C e in
      ap₂ (λ L c. get_or L (j * c + i) nought) got.1 got.0
      ∙ same_place (u.gemm_tt B.cols A.rows A.cols B.cells A.cols A.cells A.rows) (j * B.cols + i)
          (i + j * B.cols) (omega arith)
      ∙ gemm B.cols A.rows A.cols B.cells A.cols A.cells A.rows i j (subst (λ k. i < k) (sym bc) p)
          (subst (λ k. j < k) (sym ar) q)
      ∙ (λ k.
          inner (ac k)
            (λ l.
              same_place B.cells (l + i * A.cols) (i * B.cols + l)
                (ap (λ c. l + i * c) (ac ∙ sym bc) ∙ omega arith) k)
            (λ l.
              same_place A.cells (j + l * A.rows) (l * A.cols + j)
                (ap (λ c. j + l * c) (ar ∙ sym ac) ∙ omega arith) k))
