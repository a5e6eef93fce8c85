-- ===== src/Args.antt =====
-- src/app/main.cpp: the options of the command line. `std::stoi` and `std::stod` are parameters, `none`
-- where they throw.
pub mod Append
pub mod Config
use Prim.Native.String.{String}
use text.Mathlib.Text.{◌==◌}
use neuralware_x.Prelude.{
  ℕ, ◌≡◌, refl, Bool, true, false, ◌||◌, Option, none, some, List, [], ◌∷◌, ◌++◌, arith,
  if◌then◌else◌,
}
use neuralware_x.Prelude.Int.{ℤ, pos}
use neuralware_x.Double.{Double, nought}

pub record Options (D : Type 0) : Type 0 where
  pub config_path : String
  pub dataset_path : String
  pub epochs : ℤ
  pub lr : D
  pub hidden : ℤ
  pub seed : ℤ
  pub save_path : String
  pub load_path : String
  pub eval_only : Bool
  pub optimizer : String
  pub wd : D
  pub batch : ℤ
  pub val_split : D
  pub patience : ℤ
  pub standardize : Bool
  pub predict_path : String
  pub predict_out : String
  pub history_path : String
  pub activation : String
  pub calibrate_temp : Bool
  pub calib_metric : String
  pub lr_schedule : String
  pub warmup_steps : ℤ
  pub clip_norm : D
  pub quantize_runtime : Bool

-- How the loop over the arguments ends: with the options, with an exit code, or with an exception.
pub data Parsed (D : Type 0) : Type 0 where
  parsed : Options D → Parsed D
  exits : ℕ → Parsed D
  throws : Parsed D

-- What a value does to an option: the name is unknown, the number is none, or it is set.
pub data Setting (D : Type 0) : Type 0 where
  unknown_name : Setting D
  bad_number : Setting D
  now : Options D → Setting D

module _ {D : Type 0} ⦃d : Double D⦄ where
  abbrev pub defaults : Options D
  defaults = record {
    config_path = "";
    dataset_path = "./examples/xor.csv";
    epochs = pos 1000;
    lr = d.decimal 1 1;
    hidden = pos 8;
    seed = pos 42;
    save_path = "";
    load_path = "";
    eval_only = false;
    optimizer = "sgd";
    wd = nought;
    batch = pos 0;
    val_split = nought;
    patience = pos 0;
    standardize = false;
    predict_path = "";
    predict_out = "";
    history_path = "";
    activation = "relu";
    calibrate_temp = false;
    calib_metric = "nll";
    lr_schedule = "none";
    warmup_steps = pos 0;
    clip_norm = nought;
    quantize_runtime = false;
  }

abbrev pub number : {D A : Type 0} → Option A → (A → Options D) → Setting D
number none f = bad_number
number (some x) f = now (f x)

abbrev pub is_help : String → Bool
is_help a = (a == "--help") || (a == "-h")

-- The options without a value.
unfoldable pub set_flag : {D : Type 0} → String → Options D → Option (Options D)
set_flag a o =
    if a == "--eval"
    then some (record o { eval_only = true })
    else if a == "--standardize"
    then some (record o { standardize = true })
    else if a == "--calibrate_temp"
    then some (record o { calibrate_temp = true })
    else if a == "--quantize_runtime"
    then some (record o { quantize_runtime = true })
    else none

module _ {D : Type 0} (stoi : String → Option ℤ) (stod : String → Option D) where
  -- The options with a value, in the order of the source.
  unfoldable pub set_value : String → String → Options D → Setting D
  set_value a v o =
      if a == "--config"
      then now (record o { config_path = v })
      else if a == "--dataset"
      then now (record o { dataset_path = v })
      else if a == "--epochs"
      then number (stoi v) (λ n. record o { epochs = n })
      else if a == "--lr"
      then number (stod v) (λ x. record o { lr = x })
      else if a == "--hidden"
      then number (stoi v) (λ n. record o { hidden = n })
      else if a == "--seed"
      then number (stoi v) (λ n. record o { seed = n })
      else if a == "--save"
      then now (record o { save_path = v })
      else if a == "--load"
      then now (record o { load_path = v })
      else if a == "--optimizer"
      then now (record o { optimizer = v })
      else if a == "--wd"
      then number (stod v) (λ x. record o { wd = x })
      else if a == "--batch"
      then number (stoi v) (λ n. record o { batch = n })
      else if a == "--val_split"
      then number (stod v) (λ x. record o { val_split = x })
      else if a == "--patience"
      then number (stoi v) (λ n. record o { patience = n })
      else if a == "--predict"
      then now (record o { predict_path = v })
      else if a == "--predict_out"
      then now (record o { predict_out = v })
      else if a == "--history"
      then now (record o { history_path = v })
      else if a == "--calibration_metric"
      then now (record o { calib_metric = v })
      else if a == "--lr_schedule"
      then now (record o { lr_schedule = v })
      else if a == "--warmup_steps"
      then number (stoi v) (λ n. record o { warmup_steps = n })
      else if a == "--clip_norm"
      then number (stod v) (λ x. record o { clip_norm = x })
      else if a == "--activation"
      then now (record o { activation = v })
      else unknown_name

  -- `a` is the argument and `v` the one after it, read only if there is one.
  unfoldable pub parse_args : Options D → List String → Parsed D
  parse_args o [] = parsed o
  parse_args o (a ∷ []) =
      if is_help a then exits 0 else (elim (set_flag a o) [ some o' ↦ parsed o' | none ↦ exits 2 ])
  parse_args o (a ∷ v ∷ args) = if is_help a then exits 0 else (elim (set_flag a o) [
    | some o' ↦ parse_args o' (v ∷ args)
    | none ↦ elim (set_value a v o) [
      | now o' ↦ parse_args o' args
      | bad_number ↦ throws
      | unknown_name ↦ exits 2
    ]
  ])
