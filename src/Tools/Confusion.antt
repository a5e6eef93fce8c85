-- ===== src/Tools/Confusion.antt =====
-- src/app/confusion.cpp: the confusion matrix of a model on a data set.
use Prim.Native.String.{String}
use text.Mathlib.Text.{◌==◌ as str_eq}
use neuralware_x.Prelude.{ℕ, not, Option, List, ltb, if◌then◌else◌, length}
use neuralware_x.Prelude.Int.{ℤ, pos, pos_part, ltb_ℤ}
use neuralware_x.Double.{Double}
use neuralware_x.Tensor.{Backend, softmax}
use neuralware_x.Metrics.{Matrix, confusion_matrix}
use neuralware_x.Io.Stream.{Codec}
use neuralware_x.Io.Csv.{read_csv_numeric, comma}
use neuralware_x.Loading.{load_tool}
use neuralware_x.Tools.Run.{
  Run, exits, done, ◌>>=◌, Change, unknown_name, sets, sets_number, scan_args,
}
use neuralware_x.Tools.Scoring.{scale_input, logits_of, data_of, model_of}

pub record ConfusionArgs : Type 0 where
  pub dataset : String
  pub model : String
  pub classes : ℤ

module _ (stoi : String → Option ℤ) where
  unfoldable pub confusion_arg : String → String → ConfusionArgs → Change ConfusionArgs
  confusion_arg a v o =
      if str_eq a "--dataset"
      then sets (record o { dataset = v })
      else if str_eq a "--model"
      then sets (record o { model = v })
      else if str_eq a "--classes"
      then sets_number (stoi v) (λ n. record o { classes = n })
      else unknown_name

  -- The counts that are printed.
  unfoldable pub confusion_main :
      {D : Type 0} ⦃d : Double D⦄
      → Backend D
      → Codec D
      → (stod : List ℕ → Option D) → (files : String → Option (List ℕ)) → List String
      → Run Matrix
  unfolding confusion_arg
  confusion_main e c stod files args =
      if ltb (length args) 4
      then exits 2
      else scan_args confusion_arg (record { dataset = ""; model = ""; classes = pos 0 }) args
        >>= λ o.
            if not (ltb_ℤ (pos 0) o.classes)
            then exits 3
            else data_of 4 (read_csv_numeric stod (files o.dataset) comma) >>= λ set.
                model_of 5 (load_tool c (files o.model)) >>= λ h. done (
                  confusion_matrix (softmax (logits_of e h (scale_input h set.x))) set.y
                    (pos_part o.classes))
