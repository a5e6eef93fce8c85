-- ===== src/Tools/Bins.antt =====
-- Where a value falls among the cuts of a histogram.
use neuralware_x.Prelude.{
  ℕ, zero, suc, ◌<◌, ◌≤◌, ◌≡◌, inl, inr, Bool-cases, true, false, List, [], ◌∷◌, arith, length,
  get_or,
}
use neuralware_x.Double.{Double, nought}
use neuralware_x.Tools.{bin}

module _ {D : Type 0} ⦃d : Double D⦄ where
  -- The bin of a value is the number of cuts before the first that is not below it: it is at most the
  -- number of cuts, so that a histogram with one bin more than cuts has it; every cut before it is below
  -- the value; and the cut at it, if there is one, is not.
  pub bin_lem :
      (v : D) (cs : List D)
      → (bin v cs ≤ length cs)
        × ((j : ℕ) → j < bin v cs → d.lt (get_or cs j nought) v ≡ true)
        × (bin v cs < length cs → d.lt (get_or cs (bin v cs) nought) v ≡ false)
  unfolding bin
  bin_lem v [] = (omega arith, (λ j h. absurd (omega arith)), (λ h. absurd (omega arith)))
  bin_lem v (c ∷ cs) = elim (Bool-cases (d.lt c v)) [
    | inl below ↦
        let (small, before, here) = bin_lem v cs in
        rw below (omega arith, (λ j h. earlier j before h below), (λ h. here (omega arith)))
    | inr stop ↦ rw stop (omega arith, (λ j h. absurd (omega arith)), (λ h. stop))
  ]
    where
      earlier :
          (j : ℕ) {n : ℕ}
          → ((i : ℕ) → i < n → d.lt (get_or cs i nought) v ≡ true)
          → j < suc n
          → d.lt c v ≡ true
          → d.lt (get_or (c ∷ cs) j nought) v ≡ true
      earlier zero before h below = below
      earlier (suc j) before h below = before j (omega arith)
