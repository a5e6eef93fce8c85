-- ===== src/Tools/Scoring.antt =====
-- What src/app/confusion.cpp, src/app/eval.cpp and src/app/importance.cpp do before they score: they read a
-- data set and load a model. A file is `none` where it does not open.
use neuralware_x.Prelude.{ℕ, List, [], ◌∷◌, ◌++◌, if◌then◌else◌}
use neuralware_x.Prelude.Int.{ℤ, pos, negsuc, pos_part}
use neuralware_x.Double.{Double}
use neuralware_x.Tensor.{Tensor2D, Backend}
use neuralware_x.Scaler.{transform}
use neuralware_x.Model.{forward}
use neuralware_x.Trainer.{Dataset}
use neuralware_x.Capi.{Handle}
use neuralware_x.Io.Csv.{Result, ok, err, CsvDataset, dataset_of}
use neuralware_x.Loading.{Loaded, loaded, missing, throws, unnamed_activation}
use neuralware_x.Tools.Run.{Run, exits, outside, done}

module _ {D : Type 0} ⦃d : Double D⦄ where
  -- `if (b.has_scaler) X = b.scaler.transform(X);`
  abbrev pub scale_input : Handle D → Tensor2D D → Tensor2D D
  scale_input h X = if h.has_scaler then transform h.scaler X else X

  unfoldable pub logits_of : Backend D → Handle D → Tensor2D D → Tensor2D D
  logits_of e h X = (forward e h.model X).1

  -- A label below 0 is no index, and a row that is too short is read past its end.
  unfoldable pub labelled : CsvDataset D → List ℤ → List ℕ → Run (Dataset D)
  labelled set [] y = done (record { x = set.x; y = y; n_classes = pos_part set.n_classes })
  labelled set (pos n ∷ labels) y = labelled set labels (y ++ (n ∷ []))
  labelled set (negsuc n ∷ labels) y = outside

  -- Without rows the code is `empty`.
  unfoldable pub data_of : ℕ → Result (List (List D)) → Run (Dataset D)
  unfolding labelled
  data_of empty (err _) = Run.throws
  data_of empty (ok []) = exits empty
  data_of empty (ok (row ∷ rows)) = elim (dataset_of (row ∷ rows)) [
    | ok set ↦ labelled set set.y []
    | err _ ↦ outside
  ]

  -- The code is `failed` where there is no model to load.
  unfoldable pub model_of : ℕ → Loaded D → Run (Handle D)
  model_of failed (loaded h) = done h
  model_of failed missing = exits failed
  model_of failed throws = Run.throws
  model_of failed unnamed_activation = outside
