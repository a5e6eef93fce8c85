-- ===== src/Tools/Explain.antt =====
-- src/app/explain.cpp: the columns that weigh most in the prediction of each row, by gradient times input.
-- The source reads `b.model.activation`, which `MLP` does not have; the model takes its field `act`.
-- `sort_down` stands for the order that `std::partial_sort` makes with `std::greater<>`.
pub mod Classes
use Prim.Native.String.{String}
use text.Mathlib.Text.{◌==◌ as str_eq}
use neuralware_x.Prelude.{
  ℕ, ◌+◌, Option, List, [], ◌∷◌, map, ◌==◌, ltb, if◌then◌else◌, length, get_or, take, for_up,
}
use neuralware_x.Prelude.Int.{ℤ, pos, negsuc}
use neuralware_x.Double.{Double, nought, one}
use neuralware_x.Tensor.{Tensor2D, Backend, at, matmul, add_row, softmax, argmax}
use neuralware_x.Activation.{activate, activate_grad}
use neuralware_x.Model.{Mlp}
use neuralware_x.Split.{indices}
use neuralware_x.Io.Stream.{Codec}
use neuralware_x.Io.Csv.{Result, ok, err, CsvDataset, dataset_of, read_csv_numeric, comma}
use neuralware_x.Loading.{load_tool}
use neuralware_x.Tools.Run.{
  Run, exits, throws, outside, done, ◌>>=◌, Change, unknown_name, sets, sets_number, scan_args,
}
use neuralware_x.Tools.Scoring.{scale_input, model_of}

pub record ExplainArgs : Type 0 where
  pub dataset : String
  pub model : String
  pub topk : ℤ

abbrev pub explain_arg :
    (stoi : String → Option ℤ) → String → String → ExplainArgs → Change ExplainArgs
explain_arg stoi a v o =
    if str_eq a "--dataset"
    then sets (record o { dataset = v })
    else if str_eq a "--model"
    then sets (record o { model = v })
    else if str_eq a "--topk"
    then sets_number (stoi v) (λ n. record o { topk = n })
    else unknown_name

-- The predicted class of a row, and the columns with their weights.
pub record Explanation (D : Type 0) : Type 0 where
  pub class : ℕ
  pub features : List (D × ℕ)

-- A negative `topk` puts the middle of the sort before its beginning.
abbrev pub count_of : ℤ → Run ℕ
count_of (pos n) = done n
count_of (negsuc n) = outside

module _ {D : Type 0} ⦃d : Double D⦄ where
  -- `dZ2(0,j)`
  abbrev pub chosen : ℕ → ℕ → D
  chosen c j = if j == c then one else nought

  -- `dH(0,k)`, the gradient of the logit of `c` after the activation.
  unfoldable pub hidden_gradient : Mlp D → (out c k : ℕ) → D
  unfolding for_up
  hidden_gradient m out c k =
      for_up out (λ j acc. d.add acc (d.mul (chosen c j) (at m.w2 k j))) nought

  -- `g[k]`, for the row `i`.
  unfoldable pub input_gradient : Mlp D → Tensor2D D → (out c i k : ℕ) → D
  unfolding for_up hidden_gradient
  input_gradient m Z1 out c i k =
      for_up Z1.cols
        (λ j acc.
          let dz1 = d.mul (hidden_gradient m out c j) (at (activate_grad Z1 m.act) i j) in
          d.add acc (d.mul dz1 (at m.w1 k j)))
        nought

  -- The row `i` of `X`, whose columns are `in_dim`.
  unfoldable pub explain_row :
      (sort_down : List (D × ℕ) → List (D × ℕ))
      → Mlp D
      → (X Z1 P : Tensor2D D) → (in_dim topk i : ℕ) → Explanation D
  unfolding input_gradient
  explain_row sort_down m X Z1 P in_dim topk i =
      let c = argmax P i in
      let weight : ℕ → D = λ k. d.abs (d.mul (input_gradient m Z1 P.cols c i k) (at X i k)) in
      record {
        class = c;
        features = take topk (sort_down (map (λ k. (weight k, k)) (indices in_dim)));
      }

  unfoldable pub explain_rows :
      Backend D
      → (sort_down : List (D × ℕ) → List (D × ℕ)) → Mlp D
      → Tensor2D D
      → (in_dim topk : ℕ) → List (Explanation D)
  unfolding explain_row matmul add_row activate softmax
  explain_rows e sort_down m X in_dim topk =
      let Z1 = add_row (matmul e X m.w1) m.b1 in
      let Z2 = add_row (matmul e (activate Z1 m.act) m.w2) m.b2 in
      map (explain_row sort_down m X Z1 (softmax Z2) in_dim topk) (indices X.rows)

  -- Labels are read and not used, so that one below 0 does no harm.
  unfoldable pub instances_of : Result (List (List D)) → Run (Tensor2D D)
  instances_of (err _) = throws
  instances_of (ok []) = exits 3
  instances_of (ok (row ∷ rows)) = elim (dataset_of (row ∷ rows)) [
    | ok set ↦ done set.x
    | err _ ↦ outside
  ]

  unfoldable pub explain_main :
      Backend D
      → Codec D
      → (sort_down : List (D × ℕ) → List (D × ℕ)) → (stoi : String → Option ℤ)
      → (stod : List ℕ → Option D) → (files : String → Option (List ℕ)) → List String
      → Run (List (Explanation D))
  unfolding instances_of explain_rows
  explain_main e c sort_down stoi stod files args =
      if ltb (length args) 4
      then exits 2
      else scan_args (explain_arg stoi) (record { dataset = ""; model = ""; topk = pos 5 }) args
        >>= λ o. instances_of (read_csv_numeric stod (files o.dataset) comma) >>= λ X.
            model_of 4 (load_tool c (files o.model)) >>= λ h. count_of o.topk >>= λ topk.
            done (explain_rows e sort_down h.model (scale_input h X) X.cols topk)
