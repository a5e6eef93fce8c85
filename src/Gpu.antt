-- ===== src/Gpu.antt =====
-- src/gpu/cuda_backend.cu: the product on a CUDA device, and its call in src/core/tensor.cpp. The calls of CUDA and
-- cuBLAS are parameters: whether each succeeds, and what `cublasDgemm` computes.
pub mod Held
pub mod Layout
use neuralware_x.Prelude.{ℕ, Bool, true, false, not, Option, none, some, List, if◌then◌else◌, ltb}
use neuralware_x.Prelude.Int.{ℤ, pos, negsuc}
use neuralware_x.Double.{Double, nought}
use neuralware_x.Tensor.{Tensor2D, zeros}

-- What the calls answer, by their place in the source. `gemm_tt n m k B ldb A lda` is what the call of
-- `cublasDgemm` with both operands transposed, alpha 1 and beta 0 leaves in `C`.
pub record Cuda (D : Type 0) : Type 0 where
  pub malloc_ok : ℕ → Bool
  pub memcpy_ok : ℕ → Bool
  pub create_ok : Bool
  pub gemm_ok : Bool
  pub gemm_tt : (n m k : ℕ) → (B : List D) → (ldb : ℕ) → (A : List D) → (lda : ℕ) → List D

-- What is held on the device.
pub record Device : Type 0 where
  pub a : Bool
  pub b : Bool
  pub c : Bool
  pub handle : Bool

abbrev pub nothing_held : Device
nothing_held = record { a = false; b = false; c = false; handle = false }

-- The code that is returned, what is held then, and the memory of `C_host`.
pub record Returned (D : Type 0) : Type 0 where
  pub code : ℤ
  pub device : Device
  pub c_host : List D

-- `cudaFree(A); cudaFree(B); cudaFree(C);`
abbrev pub free_all : Device → Device
free_all v = record v { a = false; b = false; c = false }

abbrev pub is_success : ℤ → Bool
is_success (pos n) = if ltb 0 n then false else true
is_success (negsuc n) = false

module _ {D : Type 0} where
  abbrev pub returns : ℤ → Device → List D → Returned D
  returns code device c_host = record { code = code; device = device; c_host = c_host }

  -- From the call of `cublasDgemm` on.
  unfoldable pub multiply :
      Cuda D → (m n k : ℕ) → (A_host B_host C_host : List D) → Device → Returned D
  multiply u m n k A_host B_host C_host v =
      let closed = record v { handle = false } in
      if not u.gemm_ok
      then returns (negsuc 6) (free_all closed) C_host
      else if not (u.memcpy_ok 2)
      then returns (negsuc 7) (free_all closed) C_host
      else returns (pos 0) (free_all closed) (u.gemm_tt n m k B_host k A_host m)

  unfoldable pub nwx_cublas_dgemm :
      Cuda D → (m n k : ℕ) → (A_host B_host C_host : List D) → Returned D
  unfolding multiply
  nwx_cublas_dgemm u m n k A_host B_host C_host =
      let v1 = record nothing_held { a = true } in
      let v2 = record v1 { b = true } in
      let v3 = record v2 { c = true } in
      if not (u.malloc_ok 0)
      then returns (negsuc 0) nothing_held C_host
      else if not (u.malloc_ok 1)
      then returns (negsuc 1) (record v1 { a = false }) C_host
      else if not (u.malloc_ok 2)
      then returns (negsuc 2) (record v2 { a = false; b = false }) C_host
      else if not (u.memcpy_ok 0)
      then returns (negsuc 3) (free_all v3) C_host
      else if not (u.memcpy_ok 1)
      then returns (negsuc 4) (free_all v3) C_host
      else if not u.create_ok
      then returns (negsuc 5) (free_all v3) C_host
      else multiply u m n k A_host B_host C_host (record v3 { handle = true })

module _ {D : Type 0} ⦃d : Double D⦄ where
  -- `if (nwx_cublas_dgemm(…) == 0) return C;`
  unfoldable pub gpu_product : Cuda D → Tensor2D D → Tensor2D D → Option (Tensor2D D)
  unfolding nwx_cublas_dgemm
  gpu_product u A B =
      let C = zeros A.rows B.cols in
      let r = nwx_cublas_dgemm u A.rows B.cols A.cols A.cells B.cells C.cells in
      if is_success r.code then some (record C { cells = r.c_host }) else none
