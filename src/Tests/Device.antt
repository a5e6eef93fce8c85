-- ===== src/Tests/Device.antt =====
-- Runs of the product of src/gpu/cuda_backend.cu.
use native.Mathlib.Nat.{le_refl, add_comm}
use neuralware_x.Prelude.{
  ℕ, ◌+◌, ◌*◌, ◌≡◌, ◌↔◌, refl, sym, ap, ◌∙◌, true, false, List, [], ◌∷◌, some, get_or, lt→ltb,
  for_up, arith,
}
use neuralware_x.Prelude.Int.{pos}
use neuralware_x.Tensor.{Tensor2D, at, zeros, for_cells}
use neuralware_x.Tensor.View.{zeros-Fits}
use neuralware_x.Tensor.Cells.{Shows-for_cells, at-for_cells}
use neuralware_x.Gpu.{Cuda, nothing_held, nwx_cublas_dgemm, gpu_product}
use neuralware_x.Gpu.Held.{all_ok, nwx_cublas_dgemm-device}
use neuralware_x.Gpu.Layout.{IsGemm, gpu_product-swapped}
use neuralware_x.Tests.Samples.{halves}

-- The products, added one after the other.
abbrev inner : ℕ → (ℕ → ℕ) → (ℕ → ℕ) → ℕ
inner k f g = for_up k (λ l s. s + f l * g l) 0

abbrev cell : ℕ → List ℕ → ℕ → List ℕ → ℕ → ℕ → ℕ → ℕ → ℕ
cell k B ldb A lda j i v = inner k (λ l. get_or B (l + i * ldb) 0) (λ l. get_or A (j + l * lda) 0)

-- A driver whose calls all succeed.
abbrev driver : Cuda ℕ
driver = record {
  malloc_ok = λ place. true;
  memcpy_ok = λ place. true;
  create_ok = true;
  gemm_ok = true;
  gemm_tt = λ n m k B ldb A lda.
      (for_cells ⦃d = halves⦄ m n (cell k B ldb A lda) (zeros ⦃d = halves⦄ m n)).cells;
}

driver-IsGemm : IsGemm ⦃d = halves⦄ inner driver
driver-IsGemm n m k B ldb A lda i j p q =
    let f = cell k B ldb A lda in
    let t = for_cells ⦃d = halves⦄ m n f (zeros ⦃d = halves⦄ m n) in
    let fits = zeros-Fits ℕ m n in
    let shows =
      Shows-for_cells ⦃d = halves⦄ m n m n f (zeros ⦃d = halves⦄ m n) fits (le_refl _)
        (le_refl _) in
    ap (λ c. get_or t.cells c 0) (add_comm i (j * n) ∙ ap (λ c. j * c + i) (sym shows.0.1))
    ∙ at-for_cells ⦃d = halves⦄ m n m n f (zeros ⦃d = halves⦄ m n) j i fits (le_refl _) (le_refl _)
        q p
    ∙ rw (lt→ltb j m q, lt→ltb i n p) refl

abbrev left : Tensor2D ℕ
left = record { rows = 2; cols = 2; cells = 0 ∷ 1 ∷ 0 ∷ 0 ∷ [] }

abbrev right : Tensor2D ℕ
right = record { rows = 2; cols = 2; cells = 1 ∷ 0 ∷ 0 ∷ 0 ∷ [] }

-- The product of the two is zero, and the device gives another matrix.
abbrev result : Tensor2D ℕ
result = record { rows = 2; cols = 2; cells = 0 ∷ 0 ∷ 1 ∷ 0 ∷ [] }

device_result : gpu_product ⦃d = halves⦄ driver left right ≡ some result
unfolding gpu_product for_cells for_up
device_result = refl

gpu_product-swapped_example :
    at ⦃d = halves⦄ result 1 0
    ≡ inner 2 (λ l. at ⦃d = halves⦄ right 0 l) (λ l. at ⦃d = halves⦄ left l 1)
gpu_product-swapped_example =
    gpu_product-swapped ⦃d = halves⦄ inner driver driver-IsGemm 2 left right result refl refl refl
      device_result 0 1 (omega arith) (omega arith)

nwx_cublas_dgemm-device_example :
    let r = nwx_cublas_dgemm driver 1 1 1 (2 ∷ []) (3 ∷ []) (0 ∷ []) in
    (r.device ≡ nothing_held)
    × ((r.code ≡ pos 0) ↔ (all_ok driver ≡ true))
    × (all_ok driver ≡ false → r.c_host ≡ 0 ∷ [])
nwx_cublas_dgemm-device_example = nwx_cublas_dgemm-device driver 1 1 1 (2 ∷ []) (3 ∷ []) (0 ∷ [])
