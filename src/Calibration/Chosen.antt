-- ===== src/Calibration/Chosen.antt =====
-- The chosen temperature.
use neuralware_x.Prelude.{
  ℕ, zero, suc, ◌≤◌, ◌≡◌, inl, inr, refl, Bool-cases, true, false, some, List, arith,
}
use neuralware_x.Double.{Double, IsOrdered, one}
use neuralware_x.Tensor.{Tensor2D}
use neuralware_x.Calibration.{
  Best, nll_for, last_temperature, next_temperature, better, search_grid, grid_rounds, calibrate,
}

module _ {D : Type 0} ⦃d : Double D⦄ where
  -- The temperature of round `n`.
  abbrev pub grid : ℕ → D → D
  grid zero T = T
  grid (suc n) T = grid n (next_temperature T)

  -- The grid is left after at most so many rounds.
  abbrev pub EndsWithin : ℕ → D → Type 0
  EndsWithin rounds T = (n : ℕ) × (n ≤ rounds) × (d.le (grid n T) last_temperature ≡ false)

  module _ (laws : IsOrdered d) (nll : D → D) where
    -- No value that was seen is below the best one, which is that of the temperature kept.
    abbrev IsBest : Best D → Type 0
    IsBest b = b.nll ≡ nll b.temperature

    better-IsBest : (T : D) (b : Best D) → IsBest b → IsBest (better nll T b)
    unfolding better
    better-IsBest T b h = elim (Bool-cases (d.lt (nll T) b.nll)) [
      | inl e ↦ rw e refl
      | inr e ↦ rw e h
    ]

    -- A bound from below stays one.
    better-keeps :
        (T : D) (b : Best D) (x : D) → d.lt x b.nll ≡ false → d.lt x (better nll T b).nll ≡ false
    unfolding better
    better-keeps T b x h = elim (Bool-cases (d.lt (nll T) b.nll)) [
      | inl e ↦ rw e (elim (Bool-cases (d.lt x (nll T))) [
        | inr above ↦ above
        | inl below ↦ let k = laws.lt_trans x (nll T) b.nll below e in absurd (cc)
      ])
      | inr e ↦ rw e h
    ]

    better-new : (T : D) (b : Best D) → d.lt (nll T) (better nll T b).nll ≡ false
    unfolding better
    better-new T b = elim (Bool-cases (d.lt (nll T) b.nll)) [
      | inl e ↦ rw e (laws.lt_irrefl (nll T))
      | inr e ↦ rw e e
    ]

    -- What is known of the result `b'` of a search from `T` and `b`.
    abbrev Found : D → Best D → Best D → Type 0
    Found T b b' =
        IsBest b'
        × ((x : D) → d.lt x b.nll ≡ false → d.lt x b'.nll ≡ false)
        × ((n : ℕ)
            → ((k : ℕ) → k ≤ n → d.le (grid k T) last_temperature ≡ true)
            → d.lt (nll (grid n T)) b'.nll ≡ false)

    out_of_grid : (T : D) (b : Best D) → d.le T last_temperature ≡ false → IsBest b → Found T b b
    out_of_grid T b out h = (h, λ x k. k, λ n inside. let k = inside 0 (omega arith) in absurd (cc))

    grid_step :
        (T : D) (b' : Best D)
        → d.lt (nll T) b'.nll ≡ false
        → ((n : ℕ)
            → ((k : ℕ) → k ≤ n → d.le (grid k (next_temperature T)) last_temperature ≡ true)
            → d.lt (nll (grid n (next_temperature T))) b'.nll ≡ false)
        → (n : ℕ) → ((k : ℕ) → k ≤ n → d.le (grid k T) last_temperature ≡ true)
        → d.lt (nll (grid n T)) b'.nll ≡ false
    grid_step T b' now_best later zero inside = now_best
    grid_step T b' now_best later (suc n) inside = later n (λ k le. inside (suc k) (omega arith))

    search_grid-Found :
        (fuel : ℕ) (T : D) (b : Best D)
        → EndsWithin fuel T
        → IsBest b
        → (b' : Best D) × (search_grid fuel nll T b ≡ some b') × Found T b b'
    unfolding search_grid
    search_grid-Found zero T b (zero, _, out) h = (b, rw out refl, out_of_grid T b out h)
    search_grid-Found zero T b (suc n, le, out) h = absurd (omega arith)
    search_grid-Found (suc fuel) T b (zero, _, out) h = (b, rw out refl, out_of_grid T b out h)
    search_grid-Found (suc fuel) T b (suc n, le, out) h =
        elim (Bool-cases (d.le T last_temperature)) [
          | inr here ↦ (b, rw here refl, out_of_grid T b here h)
          | inl inside ↦
              let (b', e, (h', keep, all)) =
                search_grid-Found fuel (next_temperature T) (better nll T b) (n, omega arith, out)
                  (better-IsBest T b h) in
              (
                b',
                rw inside e,
                (
                  h',
                  (λ x k. keep x (better-keeps T b x k)),
                  grid_step T b' (keep (nll T) (better-new T b)) all,
                ),
              )
        ]

-- The calibration ends, with a temperature and its loss on the validation rows, and no
-- temperature of the grid, nor 1.0, has a smaller loss, if `<` is the order of the doubles and the grid is
-- left within its hundred rounds.
pub calibrate_lem :
    {D : Type 0} ⦃d : Double D⦄ (laws : IsOrdered d) (logits_v : Tensor2D D) (yv : List ℕ)
    → EndsWithin grid_rounds (d.decimal 5 1)
    → let nll = nll_for logits_v yv in
      (b : Best D) × (calibrate logits_v yv ≡ some b)
      × (b.nll ≡ nll b.temperature)
      × (d.lt (nll one) b.nll ≡ false)
      × ((n : ℕ)
          → ((k : ℕ) → k ≤ n → d.le (grid k (d.decimal 5 1)) last_temperature ≡ true)
          → d.lt (nll (grid n (d.decimal 5 1))) b.nll ≡ false)
unfolding calibrate
calibrate_lem {D} ⦃d⦄ laws logits_v yv ends =
    let nll = nll_for logits_v yv in
    let first : Best D = record { temperature = one; nll = nll one } in
    let (b, e, (h, keep, all)) =
      search_grid-Found laws nll grid_rounds (d.decimal 5 1) first ends refl in
    (b, e, h, keep (nll one) (laws.lt_irrefl (nll one)), all)
