-- ===== src/Tools/Fairness.antt =====
-- src/app/fairness.cpp: the rates of positive predictions in the groups of a column.
pub mod Totals
use Prim.Native.String.{String}
use text.Mathlib.Text.{◌==◌ as str_eq}
use neuralware_x.Prelude.{
  ℕ, zero, suc, ◌+◌, Bool, true, false, not, ◌&&◌, Option, none, some, List, [], ◌∷◌, ◌++◌, ◌==◌,
  ltb, if◌then◌else◌, length, get_or,
}
use neuralware_x.Prelude.Int.{ℤ, pos, negsuc, pos_part, ltb_ℤ}
use neuralware_x.Double.{Double, nought}
use neuralware_x.Tensor.{Tensor2D, Backend, at, softmax, argmax}
use neuralware_x.Trainer.{Dataset}
use neuralware_x.Capi.{Handle}
use neuralware_x.Io.Stream.{Codec}
use neuralware_x.Io.Csv.{Result, ok, err, read_csv_numeric, comma}
use neuralware_x.Loading.{load_tool}
use neuralware_x.Tools.Run.{
  Run, exits, done, ◌>>=◌, Change, unknown_name, sets, sets_number, scan_args,
}
use neuralware_x.Tools.Scoring.{scale_input, logits_of, data_of, model_of}

pub record FairnessArgs : Type 0 where
  pub dataset : String
  pub model : String
  pub group_col : ℤ
  pub pos_label : ℤ

abbrev pub fairness_arg : (String → Option ℤ) → String → String → FairnessArgs → Change FairnessArgs
fairness_arg stoi a v o =
    if str_eq a "--dataset"
    then sets (record o { dataset = v })
    else if str_eq a "--model"
    then sets (record o { model = v })
    else if str_eq a "--group_col"
    then sets_number (stoi v) (λ n. record o { group_col = n })
    else if str_eq a "--positive_label"
    then sets_number (stoi v) (λ n. record o { pos_label = n })
    else unknown_name

-- The entries of the four maps for one group.
pub record Group : Type 0 where
  pub key : ℤ
  pub cnt : ℕ
  pub positive : ℕ
  pub tp : ℕ
  pub pos_true : ℕ

abbrev pub one_if : Bool → ℕ
one_if true = 1
one_if false = 0

unfoldable pub count_in : Bool → Bool → Group → Group
count_in predicted actual t = record t {
  cnt = t.cnt + 1;
  positive = t.positive + one_if predicted;
  tp = t.tp + one_if (predicted && actual);
  pos_true = t.pos_true + one_if actual;
}

abbrev pub new_group : ℤ → Group
new_group key = record { key = key; cnt = 0; positive = 0; tp = 0; pos_true = 0 }

abbrev pub is_label : ℤ → ℕ → Bool
is_label (pos n) y = n == y
is_label (negsuc n) y = false

-- One row, into the maps, which are sorted by their keys.
unfoldable pub count_row : ℤ → Bool → Bool → List Group → List Group
unfolding count_in
count_row key predicted actual [] = count_in predicted actual (new_group key) ∷ []
count_row key predicted actual (t ∷ groups) =
    let rest = count_row key predicted actual groups in
    if ltb_ℤ key t.key
    then count_in predicted actual (new_group key) ∷ t ∷ groups
    else if ltb_ℤ t.key key
    then t ∷ rest
    else count_in predicted actual t ∷ groups

-- What is printed for a group, and the two gaps.
pub record GroupRate (D : Type 0) : Type 0 where
  pub key : ℤ
  pub rate : D
  pub tpr : D

pub record FairnessReport (D : Type 0) : Type 0 where
  pub disparate_impact : D
  pub opportunity_gap : D
  pub groups : List (GroupRate D)

module _ {D : Type 0} ⦃d : Double D⦄ where
  -- The group of each row: the value of the column, or -1 where the column is the label's or none.
  unfoldable pub groups_from : ℕ → ℕ → List (List D) → List ℤ
  groups_from in_dim col [] = []
  groups_from in_dim col (row ∷ rows) =
      (if ltb col in_dim then d.to_int (get_or row col nought) else negsuc 0)
      ∷ groups_from in_dim col rows

  -- The loop over the rows from `i` on.
  unfoldable pub count_groups : Tensor2D D → List ℕ → ℤ → ℕ → List ℤ → List Group → List Group
  unfolding count_row
  count_groups P y pos_label i [] groups = groups
  count_groups P y pos_label i (g ∷ gs) groups =
      count_groups P y pos_label (i + 1) gs
        (count_row g (is_label pos_label (argmax P i)) (is_label pos_label (get_or y i 0)) groups)

  abbrev int_ratio : ℕ → ℕ → D
  int_ratio a b = d.div (d.of_int (pos a)) (d.of_int (pos b))

  unfoldable pub rates_of : Group → GroupRate D
  rates_of t = record {
    key = t.key;
    rate = int_ratio t.positive t.cnt;
    tpr = if t.pos_true == 0 then nought else int_ratio t.tp t.pos_true;
  }

  abbrev rates : List Group → List (GroupRate D)
  rates [] = []
  rates (t ∷ groups) = rates_of t ∷ rates groups

  -- From 1e9 down and from 0.0 up.
  abbrev lowest : (GroupRate D → D) → List (GroupRate D) → D → D
  lowest value [] m = m
  lowest value (t ∷ ts) m = lowest value ts (if d.lt (value t) m then value t else m)

  abbrev highest : (GroupRate D → D) → List (GroupRate D) → D → D
  highest value [] m = m
  highest value (t ∷ ts) m = highest value ts (if d.lt m (value t) then value t else m)

  unfoldable pub report_of : List Group → FairnessReport D
  unfolding rates_of
  report_of groups =
      let ts = rates groups in
      let huge = d.decimal 1000000000 0 in
      let min_rate = lowest (λ t. t.rate) ts huge in
      let max_rate = highest (λ t. t.rate) ts nought in
      record {
        disparate_impact = if d.lt nought max_rate then d.div min_rate max_rate else nought;
        opportunity_gap = d.sub (highest (λ t. t.tpr) ts nought) (lowest (λ t. t.tpr) ts huge);
        groups = ts;
      }

  abbrev rows_or_none : Result (List (List D)) → List (List D)
  rows_or_none (ok rows) = rows
  rows_or_none (err _) = []

  unfoldable pub fairness_main :
      Backend D
      → Codec D
      → (stoi : String → Option ℤ) → (stod : List ℕ → Option D) → (files : String → Option (List ℕ))
      → List String
      → Run (FairnessReport D)
  unfolding count_groups groups_from report_of
  fairness_main e c stoi stod files args =
      if ltb (length args) 4
      then exits 2
      else scan_args (fairness_arg stoi)
          (record { dataset = ""; model = ""; group_col = negsuc 0; pos_label = pos 1 }) args
        >>= λ o.
            if ltb_ℤ o.group_col (pos 0)
            then exits 3
            else let rows = read_csv_numeric stod (files o.dataset) comma in
              data_of 4 rows >>= λ set. model_of 5 (load_tool c (files o.model)) >>= λ h.
              let P = softmax (logits_of e h (scale_input h set.x)) in
              let g = groups_from set.x.cols (pos_part o.group_col) (rows_or_none rows) in
              done (report_of (count_groups P set.y o.pos_label 0 g []))
