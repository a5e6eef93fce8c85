-- ===== src/Server/Predict/Same.antt =====
-- `POST /predict` and `--predict` of src/app/main.cpp.
use neuralware_x.Prelude.{ℕ, zero, suc, ◌≡◌, refl, ap, ◌∙◌, Bool, List, [], ◌∷◌, ◌++◌, map}
use mathlib.Core.List.{map-append}
use neuralware_x.Double.{Double}
use neuralware_x.Tensor.{Tensor2D, Backend, argmax}
use neuralware_x.Capi.{Handle}
use neuralware_x.Calibration.{labels_below, predict_labels}
use neuralware_x.Server.Predict.{labelled_rows, probabilities, predictions}

module _ {D : Type 0} ⦃d : Double D⦄ where
  labelled_rows-labels :
      (P : Tensor2D D) (n : ℕ)
      → map (λ (x : ℕ × List D). x.0) (labelled_rows P n) ≡ labels_below P n
  labelled_rows-labels P zero = refl
  labelled_rows-labels P (suc n) =
      map-append (λ (x : ℕ × List D). x.0) (labelled_rows P n) _
      ∙ ap (λ l. l ++ (argmax P n ∷ [])) (labelled_rows-labels P n)

  -- From the same rows the server and the command line compute the same labels, with every bundle, quantised
  -- or not.
  pub predictions-predict_labels :
      (e : Backend D) (quantize : Bool) (b : Handle D) (rows : List (List D))
      → map (λ (x : ℕ × List D). x.0) (predictions e quantize b rows)
        ≡ predict_labels e quantize b rows
  unfolding predictions predict_labels
  predictions-predict_labels e quantize b rows =
      labelled_rows-labels (probabilities e quantize b rows) (probabilities e quantize b rows).rows
