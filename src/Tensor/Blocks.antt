-- ===== src/Tensor/Blocks.antt =====
-- A loop that runs in blocks of 64 rounds, the last one cut short, runs the rounds of the loop.
use neuralware_x.Prelude.{
  ℕ, zero, suc, ◌+◌, ◌-◌, ◌*◌, ◌≡◌, refl, ap, ◌∙◌, Bool, ◌&&◌, arith, ltb, if◌then◌else◌, for_up,
  min,
}
use native.Mathlib.Decide.{dec_lt}
use neuralware_x.Tensor.{block, blocks}
use neuralware_x.Tensor.View.{Grid}
use neuralware_x.Tensor.Cells.{within}

no_rounds {ℓ} : {S : Type ℓ} (f : ℕ → S → S) (s : S) → for_up 0 f s ≡ s
unfolding for_up
no_rounds f s = refl

-- A loop cut in two.
for_up_add {ℓ} :
    {S : Type ℓ} (a n c : ℕ) (step : ℕ → S → S) (s : S)
    → a + n ≡ c
    → for_up n (λ k. step (a + k)) (for_up a step s) ≡ for_up c step s
unfolding for_up
for_up_add a zero c step s e = ap (λ x. for_up x step s) (omega arith)
for_up_add a (suc n) zero step s e = absurd (omega arith)
for_up_add a (suc n) (suc c) step s e =
    let e' : a + n ≡ c = omega arith in
    ap (λ x. step x (for_up n (λ k. step (a + k)) (for_up a step s))) e'
    ∙ ap (step c) (for_up_add a n c step s e')

for_up-block {ℓ} :
    {S : Type ℓ} (n a : ℕ) (step : ℕ → S → S) (s : S)
    → for_up (min n (a + block) - a) (λ k. step (a + k)) (for_up (min n a) step s)
      ≡ for_up (min n (a + block)) step s
for_up-block n a step s = elim (dec_lt n a) [
  | yes p ↦
      let none_left : min n (a + block) - a ≡ 0 = omega arith in
      let same : min n (a + block) ≡ min n a = omega arith in
      rw (none_left, same) (no_rounds (λ k. step (a + k)) (for_up (min n a) step s))
  | no p ↦
      let all_below : min n a ≡ a = omega arith in
      rw all_below (for_up_add a (min n (a + block) - a) (min n (a + block)) step s (omega arith))
]

-- A loop cut into blocks of 64 rounds is the loop.
blocks_below {ℓ} :
    {S : Type ℓ} (n m : ℕ) (step : ℕ → S → S) (s : S)
    → for_up m
        (λ b s'. for_up (min n (b * block + block) - b * block) (λ dk. step (b * block + dk)) s')
        s
      ≡ for_up (min n (m * block)) step s
unfolding for_up
blocks_below n zero step s = let none : min n (0 * block) ≡ 0 = omega arith in rw none
blocks_below n (suc m) step s =
    let next : suc m * block ≡ m * block + block = omega arith in
    rw (blocks_below n m step s, next) (for_up-block n (m * block) step s)

pub blocks_all {ℓ} :
    {S : Type ℓ} (n : ℕ) (step : ℕ → S → S) (s : S)
    → for_up
        (blocks n)
        (λ b s'. for_up (min n (b * block + block) - b * block) (λ dk. step (b * block + dk)) s')
        s
      ≡ for_up n step s
blocks_all n step s =
    let all : min n (blocks n * block) ≡ n = omega arith in
    blocks_below n (blocks n) step s ∙ ap (λ x. for_up x step s) all

module _ {D : Type 0} (p q : ℕ) where
  -- Rounds that all update one cell, or all leave it.
  pub select_loop :
      (n : ℕ) (body : ℕ → Grid D → Grid D) (here : Bool) (f : ℕ → D → D)
      → ((b : ℕ) (g : Grid D) → body b g p q ≡ (if here then f b (g p q) else g p q))
      → (g : Grid D) → for_up n body g p q ≡ (if here then for_up n f (g p q) else g p q)
  unfolding for_up
  select_loop zero body here f e g = ground arith
  select_loop (suc n) body here f e g =
      ground (arith, e n (for_up n body g), select_loop n body here f e g)

  -- Of blocks of rows or columns at most one holds a given cell.
  stripes_below :
      (n c m : ℕ) (body : ℕ → Grid D → Grid D) (here : Bool) (f : D → D)
      → ((b : ℕ) (g : Grid D)
          → body b g p q ≡ (
              if within (b * block) (b * block + (min n (b * block + block) - b * block)) c && here
              then f (g p q)
              else g p q))
      → (g : Grid D)
      → for_up m body g p q ≡ (if ltb c (min n (m * block)) && here then f (g p q) else g p q)
  unfolding for_up
  stripes_below n c zero body here f e g = ground arith
  stripes_below n c (suc m) body here f e g =
      ground (arith, e m (for_up m body g), stripes_below n c m body here f e g)

  pub stripes_all :
      (n c : ℕ) (body : ℕ → Grid D → Grid D) (here : Bool) (f : D → D)
      → ((b : ℕ) (g : Grid D)
          → body b g p q ≡ (
              if within (b * block) (b * block + (min n (b * block + block) - b * block)) c && here
              then f (g p q)
              else g p q))
      → (g : Grid D) → for_up (blocks n) body g p q ≡ (if ltb c n && here then f (g p q) else g p q)
  stripes_all n c body here f e g =
      let all : min n (blocks n * block) ≡ n = omega arith in
      stripes_below n c (blocks n) body here f e g
      ∙ ap (λ x. if ltb c x && here then f (g p q) else g p q) all
