-- ===== src/Tests.antt =====
-- Runs of the modelled parts of the program on small inputs.
mod Samples
mod Device
mod Tokens
mod Serving
mod Programs
mod Choices
mod Requests
mod Life
mod Training
use mathlib.Core.List.{Perm}
use mathlib.Core.List.Perm
use neuralware_x.Prelude.{
  ℕ, zero, suc, ◌+◌, ◌-◌, Option, ◌<◌, ◌≤◌, ◌≡◌, refl, ◌⊎◌, inl, inr, Bool, true, false, ◌&&◌, none,
  some, List, [], ◌∷◌, ◌==◌, arith, ltb, if◌then◌else◌, length, get_or,
}
use neuralware_x.Prelude.Int.{ℤ, ◌+ℤ◌, ◌*ℤ◌, pos, pos_part}
use neuralware_x.Prelude.Sums.{count_if}
use neuralware_x.Double.{nought}
use neuralware_x.Tensor.{at, Fits, matmul_avx2, matmul_loops, softmax, argmax, correct_count}
use neuralware_x.Tensor.Matmul.{dot, matmul_avx2-eq-loops, at-matmul_loops}
use neuralware_x.Tensor.Rows.{scaled_exp, exp_sum, at-softmax}
use neuralware_x.Tensor.Argmax.{IsFirstMax, argmax-IsFirstMax}
use neuralware_x.Split.{
  split_classes, by_class, push_index, indices, split_size, train_val_split, stratified_split,
}
use neuralware_x.Split.Partition.{IsShuffle, stratified_split_partition, train_val_split_partition}
use neuralware_x.Split.Classes.{stratified_split_share}
use neuralware_x.Metrics.{
  cell, confusion_matrix, precision_recall, ratio, sum_below, f1_macro_micro, harmonic,
}
use neuralware_x.Metrics.Counts.{cell-confusion_matrix, precision_recall-confusion_matrix}
use neuralware_x.Metrics.Micro.{f1_macro_micro-accuracy}
use neuralware_x.Activation.{relu_act}
use neuralware_x.Model.{forward, forward_asserts}
use neuralware_x.Model.Forward.{Agrees, act_value, forward_lem}
use neuralware_x.Trainer.{train_xent}
use neuralware_x.Trainer.Stopping.{TinyGrows, NoneBelow, val_loss_of, Outcome, train_xent_stopping}
use neuralware_x.Trainer.Batch.{batch_size, slices, concat, AllSized, slices_cover}
use neuralware_x.Json.{Entries, number_value, text_value, bool_value, parse, find}
use neuralware_x.Json.Entries.{last_value}
use neuralware_x.Json.Printed.{AllPrintable, print_object, parse-print_object}
use neuralware_x.Server.{Windows}
use neuralware_x.Server.Windows.{passed, passed-window}
use Prim.Native.String.{String}
use neuralware_x.Args.{defaults, parsed, set_flag, set_value, parse_args}
use neuralware_x.Args.Append.{parse_args-append}
use neuralware_x.Capi.{Handle, nwx_predict}
use neuralware_x.Capi.Written.{scaled_input, nwx_predict_lem}
use neuralware_x.Tools.{bin}
use neuralware_x.Tools.Bins.{bin_lem}
use neuralware_x.Io.Csv.{
  CsvDataset, ok, ◌>>=◌, fields, numbers, rows_of, read_csv_numeric, fill_row, fill_rows,
  dataset_of, load_csv_classification,
}
use neuralware_x.Io.CsvText.{
  IsCell, print_rows, AllBelow, read_csv_numeric-print_rows, load_csv_classification-AllBelow,
}
use neuralware_x.Io.Serialize.{save_model}
use neuralware_x.Io.Bundle.{save_bundle, load_bundle}
use neuralware_x.Io.RoundTrip.{
  IsStorable, load_bundle-save_bundle, load_bundle-save_model, scaler_after,
}
use Samples.{
  halves, halves-IsOrdered, still, eight_bytes, eight_bytes-IsCodec, processor, in_order, tensor,
  points, labels, weights, net, file_model, empty_bundle, full_bundle, config, dataset, no_moments,
}

matmul_avx2-eq-loops_example : matmul_avx2 points weights ≡ matmul_loops points weights
matmul_avx2-eq-loops_example = matmul_avx2-eq-loops points weights

argmax-IsFirstMax_example : IsFirstMax (at points 1) 2 (argmax points 1)
argmax-IsFirstMax_example =
    argmax-IsFirstMax halves-IsOrdered points 1 (omega arith) (λ j h. ground arith)

still-IsShuffle : IsShuffle still
still-IsShuffle xs g = Perm.refl xs

in_order-Perm : (m : List (ℕ × List ℕ)) → Perm (in_order m) m
in_order-Perm m = Perm.refl m

stratified_split_partition_example :
    count_if (λ j. j == 1) (stratified_split still 1 in_order labels 7).0.0
      + count_if (λ j. j == 1) (stratified_split still 1 in_order labels 7).0.1
    ≡ 1
stratified_split_partition_example =
    stratified_split_partition still still-IsShuffle 1 in_order labels 7 in_order-Perm 1

stratified_split_share_example :
    count_if (λ i. get_or labels i 0 == 1) (stratified_split still 1 in_order labels 7).0.1
    ≡ split_size {D = ℕ} 1 (count_if (λ i. get_or labels i 0 == 1) (indices 3))
stratified_split_share_example =
    stratified_split_share still still-IsShuffle 1 in_order labels 7 in_order-Perm 1

train_val_split_partition_example :
    let s = train_val_split still 1 4 7 in
    (count_if (λ j. j == 2) s.0.0 + count_if (λ j. j == 2) s.0.1 ≡ 1)
    × (length s.0.1 ≡ split_size {D = ℕ} 1 4)
    × (length s.0.0 + split_size {D = ℕ} 1 4 ≡ 4)
train_val_split_partition_example = train_val_split_partition still still-IsShuffle 1 4 7 2

labels_below : (i : ℕ) → i < 3 → get_or labels i 0 < 2
labels_below zero h = omega arith
labels_below (suc zero) h = omega arith
labels_below (suc (suc zero)) h = omega arith
labels_below (suc (suc (suc i))) h = absurd (omega arith)

argmax_below : (i : ℕ) → i < 3 → argmax points i < 2
unfolding argmax
argmax_below zero h = omega arith
argmax_below (suc zero) h = omega arith
argmax_below (suc (suc zero)) h = omega arith
argmax_below (suc (suc (suc i))) h = absurd (omega arith)

precision_recall-confusion_matrix_example :
    let cm = confusion_matrix points labels 2 in
    precision_recall points labels 1 ≡ (
      ratio (cell cm 1 1) (sum_below 2 (λ y. cell cm y 1)),
      ratio (cell cm 1 1) (sum_below 2 (λ p. cell cm 1 p)),
    )
precision_recall-confusion_matrix_example =
    precision_recall-confusion_matrix points labels 2 1 labels_below argmax_below (omega arith)

f1_macro_micro-accuracy_example :
    (f1_macro_micro points labels 2).1
    ≡ harmonic (ratio (correct_count points labels) 3) (ratio (correct_count points labels) 3)
f1_macro_micro-accuracy_example =
    f1_macro_micro-accuracy points labels 2 (omega arith) (omega arith) labels_below

slices_cover_example :
    (concat (slices 3 2 0 (4 ∷ 0 ∷ 2 ∷ [])) ≡ 4 ∷ 0 ∷ 2 ∷ [])
    × AllSized 2 (slices 3 2 0 (4 ∷ 0 ∷ 2 ∷ []))
slices_cover_example = slices_cover (pos 2) (4 ∷ 0 ∷ 2 ∷ [])

file_model-IsStorable : IsStorable file_model
unfolding ◌*ℤ◌
file_model-IsStorable = record {
  act_int = omega arith;
  in_int = omega arith;
  hidden_int = omega arith;
  out_int = omega arith;
  w1_mat = record {
    rows_int = omega arith;
    cols_int = omega arith;
    cells_all = refl;
    cells_int = omega arith;
  };
  w2_mat = record {
    rows_int = omega arith;
    cols_int = omega arith;
    cells_all = refl;
    cells_int = omega arith;
  };
  b1_vec = omega arith;
  b2_vec = omega arith;
}

load_bundle-save_bundle_example :
    load_bundle eight_bytes empty_bundle (some (save_bundle eight_bytes true full_bundle).1)
    ≡ some (true, full_bundle)
load_bundle-save_bundle_example =
    load_bundle-save_bundle eight_bytes eight_bytes-IsCodec empty_bundle full_bundle
      file_model-IsStorable (record { mean_vec = omega arith; stdv_vec = refl })

load_bundle-save_model_example :
    load_bundle eight_bytes full_bundle (some (save_model eight_bytes true file_model).1)
    ≡ some (true, record full_bundle { has_scaler = false })
load_bundle-save_model_example =
    load_bundle-save_model eight_bytes eight_bytes-IsCodec full_bundle file_model
      file_model-IsStorable (λ e. ground arith)

net-Agrees : Agrees net 2
net-Agrees = record { inputs = refl; first_bias = refl; layers = refl; second_bias = refl }

forward_lem_example :
    let m' = (forward processor net points).0 in
    let logits = (forward processor net points).1 in
    (forward_asserts processor net points ≡ true)
    × Fits 3 2 logits
    × Fits 3 2 m'.a1
    × ((p j : ℕ)
        → p < 3
        → j < 2
        → at m'.a1 p j ≡ act_value relu_act (dot points weights p j + get_or (1 ∷ 0 ∷ []) j 0))
    × ((p q : ℕ) → p < 3 → q < 2 → at logits p q ≡ dot m'.a1 weights p q + get_or (0 ∷ 2 ∷ []) q 0)
    × (m'.a2 ≡ logits)
    × (m'.w1 ≡ weights)
    × (m'.w2 ≡ weights)
forward_lem_example = forward_lem processor net points (λ A B. refl) net-Agrees

halves-TinyGrows : TinyGrows halves
halves-TinyGrows x y h = ground arith

stratified_part : (stratified_split still 1 in_order (1 ∷ 0 ∷ 1 ∷ []) 7).0.1 ≡ 0 ∷ []
unfolding stratified_split split_classes by_class push_index
stratified_part = refl

train_xent_stopping_example :
    let s = train_xent processor still in_order no_moments net dataset config in
    (((s.best_val ≡ 1000000) × (s.best ≡ net))
      ⊎ (val_loss_of processor points labels (0 ∷ []) s.best ≡ s.best_val))
    × NoneBelow s.best_val s.history
    × Outcome (pos 2) 3 s
train_xent_stopping_example =
    train_xent_stopping halves-IsOrdered halves-TinyGrows processor still in_order no_moments net
      dataset config 0 [] refl refl refl stratified_part

-- A number is printed as one character.
abbrev letter_of : ℕ → List ℕ
letter_of v = (100 + v) ∷ []

abbrev letter_value : List ℕ → Option ℕ
letter_value [] = none
letter_value (c ∷ []) = some (c - 100)
letter_value (_ ∷ _ ∷ _) = none

letter_of-IsCell : (v : ℕ) → IsCell 44 (letter_of v)
letter_of-IsCell v = (((λ e. omega arith), tt), ((λ e. omega arith), tt))

letter_value-letter_of : (v : ℕ) → letter_value (letter_of v) ≡ some v
letter_value-letter_of v = ground arith

read_csv_numeric-print_rows_example :
    read_csv_numeric letter_value
      (some (print_rows letter_value letter_of 44 ((1, 2 ∷ []) ∷ (3, 0 ∷ []) ∷ [])))
      44
    ≡ ok ((1 ∷ 2 ∷ []) ∷ (3 ∷ 0 ∷ []) ∷ [])
read_csv_numeric-print_rows_example =
    read_csv_numeric-print_rows letter_value letter_of 44 letter_of-IsCell letter_value-letter_of
      (λ e. omega arith) ((1, 2 ∷ []) ∷ (3, 0 ∷ []) ∷ [])

-- {"a":5,"b":"hi","a":true}
abbrev members : Entries ℕ
members =
    (97 ∷ [], number_value 5)
    ∷ (98 ∷ [], text_value (104 ∷ 105 ∷ []))
    ∷ (97 ∷ [], bool_value true)
    ∷ []

abbrev digit_of : ℕ → ℕ × List ℕ
digit_of x = (48 + x, [])

abbrev digit_value : List ℕ → Option ℕ
digit_value [] = none
digit_value (c ∷ []) = some (c - 48)
digit_value (_ ∷ _ ∷ _) = none

members-AllPrintable : AllPrintable digit_value digit_of members
members-AllPrintable = (
  ((λ e. omega arith), tt),
  record { starts = refl; goes = tt; read_back = refl },
  (
    ((λ e. omega arith), tt),
    ((λ e. omega arith), ((λ e. omega arith), tt)),
    (((λ e. omega arith), tt), tt, tt),
  ),
)

parse-print_object_example :
    (kv : Entries ℕ) × (parse digit_value (print_object digit_value digit_of members)
      ≡ some (true, kv))
    × ((k : List ℕ) → find kv k ≡ last_value members k)
parse-print_object_example = parse-print_object digit_value digit_of members members-AllPrintable

abbrev no_windows : Windows
no_windows t = record { count = 0; ends = 60 }

passed-window_example :
    passed 2 60 no_windows (65 ∷ []) ((65 ∷ [], 10) ∷ (66 ∷ [], 11) ∷ (65 ∷ [], 12) ∷ []) ≡ 1
passed-window_example =
    passed-window 2 60 no_windows (65 ∷ []) ((65 ∷ [], 10) ∷ (66 ∷ [], 11) ∷ (65 ∷ [], 12) ∷ [])
      (omega arith) ((λ _. omega arith), ((λ _. omega arith), ((λ _. omega arith), tt)))

abbrev some_int : String → Option ℤ
some_int s = some (pos 5)

abbrev some_double : String → Option ℕ
some_double s = some 3

first_args :
    parse_args some_int some_double (defaults {D = ℕ}) ("--epochs" ∷ "5" ∷ "--standardize" ∷ [])
    ≡ parsed (record defaults { epochs = pos 5; standardize = true })
unfolding parse_args set_flag set_value
first_args = refl

parse_args-append_example :
    parse_args some_int some_double defaults
      ("--epochs" ∷ "5" ∷ "--standardize" ∷ "--lr" ∷ "1.5" ∷ [])
    ≡ parse_args some_int some_double
        (record defaults { epochs = pos 5; standardize = true })
        ("--lr" ∷ "1.5" ∷ [])
parse_args-append_example =
    parse_args-append some_int some_double defaults
      (record defaults { epochs = pos 5; standardize = true })
      ("--epochs" ∷ "5" ∷ "--standardize" ∷ []) ("--lr" ∷ "1.5" ∷ []) first_args

abbrev handle : Handle ℕ
handle = record { model = net; has_scaler = false; scaler = record { mean = []; stdv = [] } }

nwx_predict_lem_example :
    let f = forward processor net (scaled_input handle 3 2 (1 ∷ 2 ∷ 4 ∷ 3 ∷ 0 ∷ 5 ∷ [])) in
    (forward_asserts processor net (scaled_input handle 3 2 (1 ∷ 2 ∷ 4 ∷ 3 ∷ 0 ∷ 5 ∷ [])) ≡ true)
    × (nwx_predict processor
          (some handle)
          (some (1 ∷ 2 ∷ 4 ∷ 3 ∷ 0 ∷ 5 ∷ []))
          (pos 3)
          (pos 2)
          (some (0 ∷ 0 ∷ 0 ∷ 0 ∷ 0 ∷ 0 ∷ []))
        ≡ (pos 0, some (record handle { model = f.0 }), some (softmax f.1).cells))
    × (f.0.w1 ≡ weights)
    × (f.0.w2 ≡ weights)
nwx_predict_lem_example =
    nwx_predict_lem processor handle (1 ∷ 2 ∷ 4 ∷ 3 ∷ 0 ∷ 5 ∷ []) (0 ∷ 0 ∷ 0 ∷ 0 ∷ 0 ∷ 0 ∷ []) 3 2
      (λ A B. refl) (omega arith) (omega arith) refl net-Agrees
