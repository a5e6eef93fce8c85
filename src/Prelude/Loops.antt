-- ===== src/Prelude/Loops.antt =====
-- The counted loop `for (i = 0; i < n; ++i) body`, and what is true of every such loop.
use Prim.Native.Nat.{ℕ, zero, suc, ◌<◌}
use mathlib.Core.Path.{◌≡◌, refl, ap, ◌∙◌}
use native.Mathlib.Omega.{arith}

-- The last round is the outermost, so round `i` starts from what rounds `0 .. i-1` left.
unfoldable pub for_up {ℓ} : {S : Type ℓ} → ℕ → (ℕ → S → S) → S → S
for_up zero body s = s
for_up (suc n) body s = body n (for_up n body s)

pub for_up_inv {ℓ κ} :
    {S : Type ℓ} (P : ℕ → S → Type κ) (n : ℕ) (body : ℕ → S → S)
    → ((i : ℕ) (s : S) → i < n → P i s → P (suc i) (body i s))
    → (s : S) → P zero s
    → P n (for_up n body s)
unfolding for_up
for_up_inv P zero body keep s h = h
for_up_inv P (suc n) body keep s h =
    keep n (for_up n body s) (omega arith)
      (for_up_inv P n body (λ i s' p q. keep i s' (omega arith) q) s h)

-- A loop seen through a map `view` that each round respects where `P` holds.
pub for_up_hom {ℓ κ μ} :
    {S : Type ℓ} {T : Type κ} (P : S → Type μ) (view : S → T) (n : ℕ) (body : ℕ → S → S)
    (body' : ℕ → T → T)
    → ((i : ℕ) (s : S) → i < n → P s → P (body i s) × (view (body i s) ≡ body' i (view s)))
    → (s : S) → P s
    → P (for_up n body s) × (view (for_up n body s) ≡ for_up n body' (view s))
unfolding for_up
for_up_hom P view zero body body' step s h = (h, refl)
for_up_hom P view (suc n) body body' step s h =
    let before = for_up_hom P view n body body' (λ i s' p q. step i s' (omega arith) q) s h in
    let last = step n (for_up n body s) (omega arith) before.0 in
    (last.0, last.1 ∙ ap (body' n) before.1)

pub for_up_congr {ℓ} :
    {S : Type ℓ} (n : ℕ) (body body' : ℕ → S → S)
    → ((i : ℕ) (s : S) → i < n → body i s ≡ body' i s)
    → (s : S) → for_up n body s ≡ for_up n body' s
unfolding for_up
for_up_congr zero body body' e s = refl
for_up_congr (suc n) body body' e s =
    e n (for_up n body s) (omega arith)
    ∙ ap (body' n) (for_up_congr n body body' (λ i s' p. e i s' (omega arith)) s)
