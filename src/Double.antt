-- ===== src/Double.antt =====
-- What the program does with a `double`. IEEE arithmetic is the machine's: its operations are the
-- fields of an interface, and no algebraic law is assumed unless a theorem names it.
use neuralware_x.Prelude.{ℕ, ◌≡◌, Bool, true, false, List, if◌then◌else◌}
use neuralware_x.Prelude.Int.{ℤ}

pub record Double (D : Type 0) : Type 0 where
  -- The literal `m` times ten to the power `-e`.
  pub decimal : ℕ → ℕ → D
  pub infinity : D
  pub add : D → D → D
  pub sub : D → D → D
  pub mul : D → D → D
  pub div : D → D → D
  pub neg : D → D
  pub lt : D → D → Bool
  pub le : D → D → Bool
  pub eq : D → D → Bool
  pub of_int : ℤ → D
  -- The conversion `(int)x`, towards zero.
  pub to_int : D → ℤ
  -- `std::lround`.
  pub lround : D → ℤ
  pub exp : D → D
  pub log : D → D
  pub sqrt : D → D
  pub tanh : D → D
  pub cos : D → D
  pub abs : D → D
  pub pow : D → D → D

-- `std::mt19937` and what is drawn from it; `G` is the state of the generator.
pub record Rng (G : Type 0) (D : Type 0) : Type 1 where
  pub seed : ℤ → G
  pub uniform : D → D → G → D × G
  pub shuffle : List ℕ → G → List ℕ × G

-- The documented laws of `<` on doubles. Only a NaN is not `==` itself.
pub record IsOrdered {D : Type 0} (d : Double D) : Type 0 where
  pub lt_irrefl : (x : D) → d.lt x x ≡ false
  pub lt_trans : (x y z : D) → d.lt x y ≡ true → d.lt y z ≡ true → d.lt x z ≡ true
  pub lt_weak :
      (x y z : D) → d.eq y y ≡ true → d.lt x y ≡ false → d.lt y z ≡ false → d.lt x z ≡ false

module _ {D : Type 0} ⦃d : Double D⦄ where
  abbrev pub nought : D
  nought = d.decimal 0 0

  abbrev pub one : D
  one = d.decimal 1 0

  -- `std::max(a, b)` and `std::min(a, b)`: the first argument wins a tie.
  abbrev pub fmax : D → D → D
  fmax a b = if d.lt a b then b else a

  abbrev pub fmin : D → D → D
  fmin a b = if d.lt b a then b else a
