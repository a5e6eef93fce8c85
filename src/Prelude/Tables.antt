-- ===== src/Prelude/Tables.antt =====
-- Facts about small numbers, found by looking at each of them.
use Prim.Native.Nat.{ℕ, zero, suc, ◌<◌}
use mathlib.Core.Path.{◌≡◌}
use mathlib.Core.Logic.{inl, inr}
use mathlib.Core.Bool.{Bool, true, false}
use native.Mathlib.Omega.{arith}
use neuralware_x.Prelude.Tests.{ltb, if◌then◌else◌, Bool-cases}

-- The test passes at the numbers `n - 1`, …, 0.
unfoldable pub passes_up_to : (ℕ → Bool) → ℕ → Bool
passes_up_to test zero = true
passes_up_to test (suc n) = let rest = passes_up_to test n in if test n then rest else false

pub passes_up_to-at :
    (test : ℕ → Bool) (n m : ℕ) → passes_up_to test n ≡ true → m < n → test m ≡ true
unfolding passes_up_to
passes_up_to-at test zero m table below = elim below [ ]
passes_up_to-at test (suc n) m table below = elim (Bool-cases (ltb m n)) [
  | inl earlier ↦ passes_up_to-at test n m (ground (arith, table)) (ground (arith, earlier))
  | inr last ↦ let same : m ≡ n = ground (arith, last) in rw same (ground (arith, table))
]
