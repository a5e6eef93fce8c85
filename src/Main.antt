-- ===== src/Main.antt =====
-- src/app/main.cpp: the program from its arguments to what it prints and writes. Printed metrics of headers that
-- the repository does not have are left out, and so are the log lines.
pub mod Config
pub mod Kept
use Prim.Native.String.{String}
use text.Mathlib.Text.{◌==◌ as str_eq}
use neuralware_x.Prelude.{
  ℕ, not, ◌&&◌, Bool, true, false, Option, none, some, List, [], ◌∷◌, ◌==◌, if◌then◌else◌, length,
  get_or,
}
use neuralware_x.Prelude.Int.{ℤ, pos, negsuc}
use neuralware_x.Double.{Double, Rng, nought}
use neuralware_x.Tensor.{Tensor2D, Backend, at, zeros, for_cells, softmax, cross_entropy, accuracy}
use neuralware_x.Activation.{relu_act}
use neuralware_x.Scaler.{StandardScaler, fit, transform}
use neuralware_x.Model.{Mlp, init, forward}
use neuralware_x.Metrics.{f1_macro_micro}
use neuralware_x.Split.{Groups, stratified_split}
use neuralware_x.Optim.{AdamState}
use neuralware_x.Trainer.{Dataset, Training, train_xent}
use neuralware_x.Io.Stream.{Codec}
use neuralware_x.Io.Bundle.{load_bundle, save_bundle}
use neuralware_x.Io.Csv.{Result, ok, err, read_csv_numeric, comma}
use neuralware_x.Capi.{Handle}
use neuralware_x.Calibration.{Best, calibrate, enable_runtime_quantization, predict_labels}
use neuralware_x.Args.{Options, defaults, Parsed, parsed, parse_args}
use neuralware_x.Args.Config.{config_of}
use neuralware_x.Loading.{
  Loaded, loaded, missing, throws, unnamed_activation, fresh, network_of, handle_of,
}
use neuralware_x.Loading.Reloaded.{bundle_of}
use neuralware_x.Tools.Run.{Run, exits, outside, done, ◌>>=◌}
use neuralware_x.Tools.Scoring.{data_of}
use neuralware_x.Main.Config.{configured}

-- What the program asks of its libraries, and the files: `none` where one does not open.
pub record World (D G : Type 0) : Type 1 where
  pub backend : Backend D
  pub codec : Codec D
  pub rng : Rng G D
  pub visit : Groups → Groups
  pub adam : AdamState D
  pub stoi : String → Option ℤ
  pub stod_arg : String → Option D
  pub stod : List ℕ → Option D
  pub string_of : List ℕ → String
  pub files : String → Option (List ℕ)
  pub save_opens : Bool

-- What a training leaves: the model and the scaler, the bytes of the bundle that was written, what is
-- printed, and the calibrated temperature.
pub record Trained (D : Type 0) : Type 0 where
  pub handle : Handle D
  pub saved : Option (List ℕ)
  pub loss : D
  pub acc : D
  pub f1 : D × D
  pub best : Option (Best D)

pub data Report (D : Type 0) : Type 0 where
  trains : Trained D → Report D
  predicts : List ℕ → Report D

module _ {D G : Type 0} ⦃d : Double D⦄ (w : World D G) where
  -- A matrix without columns stays the empty one of the declaration, and is left out.
  abbrev pub with_columns : Dataset D → Run (Dataset D)
  with_columns set = if set.x.cols == 0 then outside else done set

  -- `StandardScaler fitted_scaler; … if (standardize …) fitted_scaler.fit(X);`
  abbrev pub fitted_scaler : Bool → Tensor2D D → StandardScaler D
  fitted_scaler standardize X = if standardize then fit X else (record { mean = []; stdv = [] })

  abbrev pub scaled : Bool → Tensor2D D → Tensor2D D
  scaled standardize X = if standardize then transform (fitted_scaler standardize X) X else X

  unfoldable pub load_model_file : String → Run (Handle D)
  load_model_file path = elim (load_bundle w.codec fresh (w.files path)) [
    | none ↦ Run.throws
    | some (false, _) ↦ exits 5
    | some (true, b) ↦ elim (handle_of b) [ loaded h ↦ done h | _ ↦ outside ]
  ]

  -- `model.init(X.cols, cfg.hidden, out_classes, rng)`: the activation is the one of the declaration. A negative
  -- size is an exception.
  unfoldable pub new_model : Options D → Dataset D → Run (Mlp D)
  new_model o set = elim o.hidden [
    | pos hidden ↦
        done
          (init w.rng (network_of (fresh {D = D}).model relu_act) set.x.cols hidden set.n_classes
            (w.rng.seed o.seed) relu_act).0
    | negsuc _ ↦ Run.throws
  ]

  unfoldable pub starting_model : Options D → Dataset D → Run (Mlp D)
  unfolding new_model load_model_file
  starting_model o set =
      if str_eq o.load_path ""
      then new_model o set
      else load_model_file o.load_path >>= λ h. done h.model

  unfoldable pub save : Options D → Handle D → Run (Option (List ℕ))
  save o h =
      if str_eq o.save_path ""
      then done none
      else let (written, bytes) = save_bundle w.codec w.save_opens (bundle_of h) in
        if written then done (some bytes) else exits 6

  -- The rows of the validation part, drawn again.
  abbrev pub picked : Tensor2D D → List ℕ → Tensor2D D
  picked X idx =
      for_cells (length idx) X.cols (λ i j _. at X (get_or idx i 0) j) (zeros (length idx) X.cols)

  abbrev pub picked_labels : List ℕ → List ℕ → List ℕ
  picked_labels y [] = []
  picked_labels y (r ∷ idx) = get_or y r 0 ∷ picked_labels y idx

  unfoldable pub best_temperature : Options D → Dataset D → Mlp D → Run (Option (Best D))
  best_temperature o set m =
      let va_idx = (stratified_split w.rng o.val_split w.visit set.y (w.rng.seed o.seed)).0.1 in
      let Xv = picked (scaled o.standardize set.x) va_idx in
      if o.calibrate_temp && d.lt nought o.val_split
      then (elim (calibrate (forward w.backend m Xv).1 (picked_labels set.y va_idx)) [
        | none ↦ outside
        | some b ↦ done (some b)
      ])
      else done none

  abbrev pub with_temperature : Option (Best D) → Mlp D → Mlp D
  with_temperature none m = m
  with_temperature (some b) m = record m { temperature = b.temperature }

  -- What is saved: the model before the temperature, with the scaler.
  abbrev pub trained_handle : Options D → Dataset D → Mlp D → Handle D
  trained_handle o set m0 = record {
    model = (train_xent w.backend w.rng w.visit w.adam m0 set (config_of o)).model;
    has_scaler = o.standardize;
    scaler = fitted_scaler o.standardize set.x;
  }

  -- Training, saving, the printed numbers and the temperature, in this order.
  unfoldable pub train_main : Options D → Dataset D → Mlp D → Run (Trained D)
  train_main o set m0 =
      let h = trained_handle o set m0 in
      let m = h.model in
      save o h >>= λ saved.
      let probs = softmax (forward w.backend m set.x).1 in
      let probs_full = softmax (forward w.backend m (scaled o.standardize set.x)).1 in
      let m1 = if o.quantize_runtime then enable_runtime_quantization m else m in
      best_temperature o set m1 >>= λ best. done (record {
        handle = record h { model = with_temperature best m1 };
        saved = saved;
        loss = cross_entropy probs set.y;
        acc = accuracy probs set.y;
        f1 = f1_macro_micro probs_full set.y set.n_classes;
        best = best;
      })

  -- Without rows the first one is read past the end.
  unfoldable pub predict_main : Options D → Run (List ℕ)
  unfolding load_model_file
  predict_main o = load_model_file o.load_path >>= λ h.
      elim (read_csv_numeric w.stod (w.files o.predict_path) comma) [
        | err _ ↦ Run.throws
        | ok [] ↦ outside
        | ok (row ∷ rows) ↦ done (predict_labels w.backend o.quantize_runtime h (row ∷ rows))
      ]

  unfoldable pub run_options : Options D → Run (Report D)
  unfolding train_main predict_main starting_model
  run_options o =
      if not (str_eq o.predict_path "")
      then if str_eq o.load_path ""
        then exits 2
        else (predict_main o >>= λ pred. done (predicts pred))
      else data_of 4 (read_csv_numeric w.stod (w.files o.dataset_path) comma) >>= λ read.
          with_columns read >>= λ set.
          starting_model o set >>= λ m. train_main o set m >>= λ t. done (trains t)

  unfoldable pub main : List String → Run (Report D)
  unfolding run_options configured
  main args = elim (parse_args w.stoi w.stod_arg defaults args) [
    | parsed o ↦ configured w.stod w.string_of w.files o >>= run_options
    | Parsed.exits n ↦ exits n
    | Parsed.throws ↦ Run.throws
  ]
