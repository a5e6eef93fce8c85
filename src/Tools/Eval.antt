-- ===== src/Tools/Eval.antt =====
-- src/app/eval.cpp: the metrics of a model, or of probabilities from a file, on a data set. The calibration
-- error and the areas under ROC curves, whose headers the repository does not have, are parameters.
use Prim.Native.String.{String}
use text.Mathlib.Text.{◌==◌ as str_eq}
use neuralware_x.Prelude.{
  ℕ, not, ◌&&◌, ◌||◌, Option, none, some, List, [], ◌∷◌, map, ◌==◌, if◌then◌else◌, length, get_or,
}
use neuralware_x.Double.{Double, nought}
use neuralware_x.Tensor.{Tensor2D, Backend, zeros, for_cells, softmax, accuracy}
use neuralware_x.Metrics.{f1_macro_micro}
use neuralware_x.Trainer.{Dataset}
use neuralware_x.Capi.{Handle}
use neuralware_x.Io.Stream.{Codec}
use neuralware_x.Io.Csv.{Result, ok, err, read_csv_numeric, comma}
use neuralware_x.Loading.{load_tool}
use neuralware_x.Tools.Run.{Run, exits, throws, done, ◌>>=◌}
use neuralware_x.Tools.Scoring.{scale_input, logits_of, data_of, model_of}

pub record EvalArgs : Type 0 where
  pub dataset : String
  pub model : String
  pub probs_file : String

-- `none`: the argument is no option with a value.
abbrev pub eval_arg : String → String → EvalArgs → Option EvalArgs
eval_arg a v o =
    if str_eq a "--dataset"
    then some (record o { dataset = v })
    else if str_eq a "--model"
    then some (record o { model = v })
    else if str_eq a "--probs"
    then some (record o { probs_file = v })
    else none

unfoldable pub eval_args : EvalArgs → List String → Run EvalArgs
eval_args o [] = done o
eval_args o (a ∷ []) = if str_eq a "--help" then exits 0 else done o
eval_args o (a ∷ v ∷ args) = elim (eval_arg a v o) [
  | some o' ↦ eval_args o' args
  | none ↦ let rest = eval_args o (v ∷ args) in if str_eq a "--help" then exits 0 else rest
]

-- The metrics that the program does not compute itself.
pub record OtherMetrics (D : Type 0) : Type 0 where
  pub expected_calibration_error : Tensor2D D → List ℕ → ℕ → D
  pub roc_auc_binary : Tensor2D D → List ℕ → D
  pub roc_auc_ovr_macro : Tensor2D D → List ℕ → ℕ → D

pub record Scores (D : Type 0) : Type 0 where
  pub acc : D
  pub f1_macro : D
  pub f1_micro : D
  pub ece : D
  pub roc_auc : D

module _ {D : Type 0} ⦃d : Double D⦄ where
  -- `for (double &u : L.data) u /= b.model.temperature;`
  unfoldable pub cooled : D → Tensor2D D → Tensor2D D
  cooled temperature L = record L { cells = map (λ u. d.div u temperature) L.cells }

  -- `P(i,j)=pr[i][j]`
  unfoldable pub probs_from : ℕ → List (List D) → Tensor2D D
  probs_from classes pr =
      for_cells (length pr) classes (λ i j _. get_or (get_or pr i []) j nought)
        (zeros (length pr) classes)

  unfoldable pub file_probs : Dataset D → Result (List (List D)) → Run (Tensor2D D)
  unfolding probs_from
  file_probs set (err _) = throws
  file_probs set (ok pr) =
      if not (length pr == length set.y) || not (length (get_or pr 0 []) == set.n_classes)
      then exits 4
      else done (probs_from set.n_classes pr)

  unfoldable pub model_probs : Backend D → Dataset D → Handle D → Tensor2D D
  unfolding cooled
  model_probs e set h = softmax (cooled h.model.temperature (logits_of e h (scale_input h set.x)))

  unfoldable pub scores : OtherMetrics D → Tensor2D D → Dataset D → Scores D
  scores other P set =
      let (f1_macro, f1_micro) = f1_macro_micro P set.y set.n_classes in
      record {
        acc = accuracy P set.y;
        f1_macro = f1_macro;
        f1_micro = f1_micro;
        ece = other.expected_calibration_error P set.y 10;
        roc_auc =
            if set.n_classes == 2
            then other.roc_auc_binary P set.y
            else other.roc_auc_ovr_macro P set.y set.n_classes;
      }

  unfoldable pub eval_main :
      Backend D
      → Codec D
      → OtherMetrics D
      → (stod : List ℕ → Option D) → (files : String → Option (List ℕ)) → List String
      → Run (Scores D)
  unfolding eval_args file_probs model_probs scores
  eval_main e c other stod files args =
      eval_args (record { dataset = ""; model = ""; probs_file = "" }) args >>= λ o.
      if str_eq o.dataset "" || (str_eq o.model "" && str_eq o.probs_file "")
      then exits 2
      else data_of 3 (read_csv_numeric stod (files o.dataset) comma) >>= λ set.
          (if not (str_eq o.probs_file "")
            then file_probs set (read_csv_numeric stod (files o.probs_file) comma)
            else (model_of 5 (load_tool c (files o.model)) >>= λ h. done (model_probs e set h)))
          >>= λ P. done (scores other P set)
