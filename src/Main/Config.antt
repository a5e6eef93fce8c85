-- ===== src/Main/Config.antt =====
-- src/app/main.cpp: the configuration file, whose values replace those of the arguments. The two lines that
-- call `get_int` and `get_double`, which `JsonFlat` does not have, are left out.
use Prim.Native.String.{String}
use text.Mathlib.Text.{◌==◌}
use neuralware_x.Prelude.{ℕ, Bool, true, false, Option, none, some, List, if◌then◌else◌}
use neuralware_x.Prelude.Int.{ℤ}
use neuralware_x.Prelude.Text.{codes}
use neuralware_x.Double.{Double}
use neuralware_x.Json.{Entries, parse, get_string, get_number, get_bool}
use neuralware_x.Args.{Options}
use neuralware_x.Tools.Run.{Run, exits, throws, done}

-- `if (auto v = …) x = *v;`
abbrev pub value_or {ℓ} : {A : Type ℓ} → A → Option A → A
value_or old none = old
value_or old (some v) = v

module _ {D : Type 0} ⦃d : Double D⦄ (string_of : List ℕ → String) (jf : Entries D) where
  abbrev pub text_for : String → String → String
  text_for old key = elim (get_string jf (codes key)) [ none ↦ old | some v ↦ string_of v ]

  abbrev pub number_for : D → String → D
  number_for old key = value_or old (get_number jf (codes key))

  -- `(int)*v`
  abbrev pub int_for : ℤ → String → ℤ
  int_for old key = elim (get_number jf (codes key)) [ none ↦ old | some v ↦ d.to_int v ]

  abbrev pub flag_for : Bool → String → Bool
  flag_for old key = value_or old (get_bool jf (codes key))

  unfoldable pub override : Options D → Options D
  unfolding get_string get_number get_bool
  override o = record o {
    dataset_path = text_for o.dataset_path "dataset";
    epochs = int_for o.epochs "epochs";
    lr = number_for o.lr "learning_rate";
    hidden = int_for o.hidden "hidden";
    seed = int_for o.seed "seed";
    optimizer = text_for o.optimizer "optimizer";
    wd = number_for o.wd "weight_decay";
    batch = int_for o.batch "batch";
    val_split = number_for o.val_split "val_split";
    patience = int_for o.patience "patience";
    standardize = flag_for o.standardize "standardize";
    activation = text_for o.activation "activation";
    lr_schedule = text_for o.lr_schedule "lr_schedule";
    calibrate_temp = flag_for o.calibrate_temp "calibrate_temp";
    calib_metric = text_for o.calib_metric "calibration_metric";
  }

-- A file that does not open or is refused ends the program.
unfoldable pub configured :
    {D : Type 0}
    → ⦃d : Double D⦄ → (stod : List ℕ → Option D) → (string_of : List ℕ → String)
    → (files : String → Option (List ℕ)) → Options D
    → Run (Options D)
unfolding override parse
configured stod string_of files o =
    if o.config_path == "" then done o else (elim (files o.config_path) [
      | none ↦ exits 3
      | some text ↦ elim (parse stod text) [
        | none ↦ throws
        | some (false, _) ↦ exits 3
        | some (true, jf) ↦ done (override string_of jf o)
      ]
    ])
