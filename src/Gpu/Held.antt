-- ===== src/Gpu/Held.antt =====
-- What the product on the device leaves behind.
use neuralware_x.Prelude.{ℕ, ◌≡◌, ◌↔◌, Bool, true, false, ◌&&◌, List, arith}
use neuralware_x.Prelude.Int.{pos}
use neuralware_x.Gpu.{Cuda, nothing_held, nwx_cublas_dgemm}

module _ {D : Type 0} where
  -- All the calls whose result is looked at succeed.
  abbrev pub all_ok : Cuda D → Bool
  all_ok u =
      u.malloc_ok 0
      && (u.malloc_ok 1
          && (u.malloc_ok 2
              && (u.memcpy_ok 0
                  && (u.memcpy_ok 1 && (u.create_ok && (u.gemm_ok && u.memcpy_ok 2))))))

  pub nwx_cublas_dgemm-device :
      (u : Cuda D) (m n k : ℕ) (A_host B_host C_host : List D)
      → let r = nwx_cublas_dgemm u m n k A_host B_host C_host in
        (r.device ≡ nothing_held)
        × ((r.code ≡ pos 0) ↔ (all_ok u ≡ true))
        × (all_ok u ≡ false → r.c_host ≡ C_host)
  unfolding nwx_cublas_dgemm
  nwx_cublas_dgemm-device u m n k A_host B_host C_host = ground arith
