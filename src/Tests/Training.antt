-- ===== src/Tests/Training.antt =====
-- A run of src/app/main.cpp that trains and saves, and one that predicts.
use Prim.Native.String.{String}
use text.Mathlib.Text.{◌==◌ as str_eq}
use neuralware_x.Prelude.{
  ℕ, ◌-◌, ◌*◌, ◌≡◌, refl, true, false, none, Option, some, List, [], ◌∷◌, if◌then◌else◌, arith,
}
use neuralware_x.Prelude.Int.{pos, ◌*ℤ◌}
use neuralware_x.Prelude.Text.{codes}
use neuralware_x.Tensor.{softmax, cross_entropy, accuracy}
use neuralware_x.Scaler.{fit}
use neuralware_x.Model.{forward}
use neuralware_x.Metrics.{f1_macro_micro}
use neuralware_x.Trainer.{train_xent, train_epochs}
use neuralware_x.Io.Csv.{ok, read_csv_numeric, fields, rows_of, numbers, comma, ◌>>=◌ as then}
use neuralware_x.Io.Bundle.{save_bundle}
use neuralware_x.Io.RoundTrip.{IsStorable, IsStorableScaler}
use neuralware_x.Calibration.{predict_labels}
use neuralware_x.Args.Config.{config_of}
use neuralware_x.Args.{Options, defaults}
use neuralware_x.Loading.Reloaded.{bundle_of}
use neuralware_x.Tools.Run.{done, ◌>>=◌}
use neuralware_x.Main.{
  World, Trained, save, best_temperature, trained_handle, scaled, train_main, predict_main,
}
use neuralware_x.Main.Kept.{predict_main-train_main}
use neuralware_x.Tests.Samples.{
  halves, still, eight_bytes, eight_bytes-IsCodec, processor, in_order, net, dataset, no_moments,
}

-- A number is one digit, in halves.
abbrev digit : List ℕ → Option ℕ
digit [] = none
digit (c ∷ _) = some (2 * (c - b'0'))

abbrev world : World ℕ ℕ
world = record {
  backend = processor;
  codec = eight_bytes;
  rng = still;
  visit = in_order;
  adam = no_moments;
  stoi = λ s. none;
  stod_arg = λ s. none;
  stod = digit;
  string_of = λ s. "";
  files = λ path. none;
  save_opens = true;
}

abbrev options : Options ℕ
options = record defaults { epochs = pos 0; standardize = true; save_path = "m" }

abbrev bytes : List ℕ
bytes = (save_bundle eight_bytes true (bundle_of (trained_handle world options dataset net))).1

abbrev result : Trained ℕ
result =
    let h = trained_handle world options dataset net in
    let X = dataset.x in
    record {
      handle = h;
      saved = some bytes;
      loss = cross_entropy (softmax (forward processor h.model X).1) dataset.y;
      acc = accuracy (softmax (forward processor h.model X).1) dataset.y;
      f1 =
          f1_macro_micro (softmax (forward processor h.model (scaled world true X)).1) dataset.y
            dataset.n_classes;
      best = none;
    }

result-trained : train_main world options dataset net ≡ done result
unfolding train_main save best_temperature save_bundle ◌>>=◌
result-trained = refl

abbrev written : String → Option (List ℕ)
written path = if str_eq path "m" then some bytes else some (codes "1,2")

table-read : read_csv_numeric digit (some (codes "1,2")) comma ≡ ok ((2 ∷ 4 ∷ []) ∷ [])
unfolding read_csv_numeric rows_of fields numbers then
table-read = refl

result-IsStorable : IsStorable (bundle_of (trained_handle world options dataset net)).model
unfolding train_xent train_epochs config_of ◌*ℤ◌
result-IsStorable = record {
  act_int = omega arith;
  in_int = omega arith;
  hidden_int = omega arith;
  out_int = omega arith;
  w1_mat = record {
    rows_int = omega arith;
    cols_int = omega arith;
    cells_all = refl;
    cells_int = omega arith;
  };
  w2_mat = record {
    rows_int = omega arith;
    cols_int = omega arith;
    cells_all = refl;
    cells_int = omega arith;
  };
  b1_vec = omega arith;
  b2_vec = omega arith;
}

scaler-IsStorableScaler : IsStorableScaler (fit dataset.x)
unfolding fit
scaler-IsStorableScaler = record { mean_vec = omega arith; stdv_vec = refl }

predict_main-train_main_example :
    predict_main
      (record world { files = written })
      (record defaults { load_path = "m"; predict_path = "p" })
    ≡ done (
        predict_labels processor false
          (trained_handle world options dataset net)
          ((2 ∷ 4 ∷ []) ∷ []))
predict_main-train_main_example =
    predict_main-train_main world eight_bytes-IsCodec options dataset net bytes result-trained refl
      (record defaults { load_path = "m"; predict_path = "p" }) written (2 ∷ 4 ∷ []) [] refl
      table-read result-IsStorable scaler-IsStorableScaler
