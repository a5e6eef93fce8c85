-- ===== src/Tools/Explain/Classes.antt =====
-- The classes that src/app/explain.cpp prints, and those of `MLP::forward`.
use neuralware_x.Prelude.{◌≡◌, refl, ap, ℕ, List, [], ◌∷◌, map}
use neuralware_x.Double.{Double}
use neuralware_x.Tensor.{Tensor2D, Backend, softmax, argmax}
use neuralware_x.Model.{Mlp, forward}
use neuralware_x.Split.{indices}
use neuralware_x.Tools.Explain.{Explanation, explain_row, explain_rows}

map_again :
    {A B C : Type 0} (g : B → C) (f : A → B) (xs : List A)
    → map g (map f xs) ≡ map (λ x. g (f x)) xs
map_again g f [] = refl
map_again g f (x ∷ xs) = ap (λ t. g (f x) ∷ t) (map_again g f xs)

module _ {D : Type 0} ⦃d : Double D⦄ where
  -- The explained class of each row is the one with the largest probability under `MLP::forward`, though
  -- the program computes the layers itself, and whatever columns are shown.
  pub explain_rows-forward :
      (e : Backend D) (sort_down : List (D × ℕ) → List (D × ℕ)) (m : Mlp D) (X : Tensor2D D)
      (in_dim topk : ℕ)
      → map (λ (x : Explanation D). x.class) (explain_rows e sort_down m X in_dim topk)
        ≡ map (argmax (softmax (forward e m X).1)) (indices X.rows)
  unfolding explain_rows explain_row forward
  explain_rows-forward e sort_down m X in_dim topk =
      map_again (λ (x : Explanation D). x.class) _ (indices X.rows)
