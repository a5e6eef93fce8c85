-- ===== src/Tests/Programs.antt =====
-- Runs of the programs of src/app and of the loading of models.
use Prim.Native.String.{String}
use mathlib.Core.List.{Perm}
use neuralware_x.Prelude.{
  ℕ, ◌≤◌, ◌<◌, ◌≡◌, refl, Bool, true, ◌&&◌, Option, none, some, List, [], ◌∷◌, ◌++◌, length, ltb,
  arith,
}
use neuralware_x.Prelude.Int.{ℤ, pos, negsuc, ◌*ℤ◌}
use neuralware_x.Io.Csv.{Result, ok}
use neuralware_x.Io.Bundle.{save_bundle}
use neuralware_x.Io.RoundTrip.{IsStorable}
use neuralware_x.Capi.{Handle, nwx_predict}
use neuralware_x.Loading.{loaded, missing, load_tool, nwx_load_bundle}
use neuralware_x.Loading.Reloaded.{bundle_of, load_tool_missing_iff, nwx_load_bundle-save_bundle}
use neuralware_x.Tools.Run.{done}
use neuralware_x.Tools.Check.{check_main, check_main_iff}
use neuralware_x.Tools.Cv.{fold, split_fold}
use neuralware_x.Tools.Cv.Folds.{tests_of, folds_cover}
use neuralware_x.Tools.Encrypt.{Cipher, encrypt_main, sealed, served_bundle}
use neuralware_x.Tools.Encrypt.Sealed.{IsCipher, run_args, encrypt_main-round_trip}
use neuralware_x.Tools.Fairness.{count_groups}
use neuralware_x.Tools.Fairness.Totals.{
  entry, rows_with, AreSorted, predicted_positive, is_positive, count_groups-entry,
}
use neuralware_x.Tensor.{Backend}
use neuralware_x.Tests.Samples.{halves, net, points, labels, eight_bytes, eight_bytes-IsCodec}

-- The text is not changed, and the tag is sixteen zeros.
abbrev zeros16 : List ℕ
zeros16 = 0 ∷ 0 ∷ 0 ∷ 0 ∷ 0 ∷ 0 ∷ 0 ∷ 0 ∷ 0 ∷ 0 ∷ 0 ∷ 0 ∷ 0 ∷ 0 ∷ 0 ∷ 0 ∷ []

abbrev toy_cipher : Cipher
toy_cipher = record {
  encrypt = λ key iv plain. (plain, zeros16);
  decrypt = λ key iv text tag. some text;
}

toy_cipher-IsCipher : IsCipher toy_cipher
toy_cipher-IsCipher = record {
  tag_length = λ key iv plain. refl;
  decrypt-encrypt = λ key iv plain. refl;
}

abbrev nonce : List ℕ
nonce = 1 ∷ 2 ∷ 3 ∷ 4 ∷ 5 ∷ 6 ∷ 7 ∷ 8 ∷ 9 ∷ 10 ∷ 11 ∷ 12 ∷ []

abbrev hex_key : String
hex_key = "00112233445566778899aabbccddeeff00112233445566778899aabbccddeeff"

abbrev no_key : String → List ℕ
no_key h = []

abbrev every_file : List ℕ → String → Option (List ℕ)
every_file bytes path = some bytes

encrypt_main-round_trip_example :
    let out = sealed toy_cipher [] nonce (7 ∷ 8 ∷ []) in
    (encrypt_main toy_cipher no_key
        (every_file (7 ∷ 8 ∷ []))
        nonce
        (run_args "m" "--encrypt" hex_key)
      ≡ done out)
    × (encrypt_main toy_cipher no_key (every_file out) nonce (run_args "m.enc" "--decrypt" hex_key)
        ≡ done (7 ∷ 8 ∷ []))
    × (served_bundle toy_cipher [] out ≡ some (7 ∷ 8 ∷ []))
encrypt_main-round_trip_example =
    encrypt_main-round_trip toy_cipher no_key (every_file (7 ∷ 8 ∷ []))
      (every_file (sealed toy_cipher [] nonce (7 ∷ 8 ∷ []))) nonce (7 ∷ 8 ∷ []) "m" "m.enc" hex_key
      toy_cipher-IsCipher refl (omega arith) refl refl

abbrev small : ℕ → Bool
small v = ltb v 100

abbrev table : String → Result (List (List ℕ))
table path = ok ((1 ∷ 2 ∷ []) ∷ (3 ∷ 4 ∷ []) ∷ [])

check_main_iff_example : check_main small table ("t.csv" ∷ []) ≡ done (2, 2)
check_main_iff_example = (check_main_iff small table "t.csv" [] 2 2).1 (
  1 ∷ 2 ∷ [],
  (3 ∷ 4 ∷ []) ∷ [],
  refl,
  refl,
  refl,
  ((refl, (refl, (refl, tt))), ((refl, (refl, (refl, tt))), tt)),
)

folds_cover_example :
    let idx : List ℕ = 4 ∷ 2 ∷ 0 ∷ 1 ∷ 3 ∷ [] in
    (tests_of 2 idx 2 ≡ idx)
    × ((f : ℕ)
        → f < 2
        → Perm ((fold 2 idx f).train ++ (fold 2 idx f).test) idx
          × (2 ≤ length (fold 2 idx f).test)
          × (length (fold 2 idx f).test ≤ 3))
folds_cover_example = folds_cover 2 (4 ∷ 2 ∷ 0 ∷ 1 ∷ 3 ∷ []) (omega arith) (omega arith)

second_fold : (fold 2 (4 ∷ 2 ∷ 0 ∷ 1 ∷ 3 ∷ []) 1).test ≡ 0 ∷ 1 ∷ 3 ∷ []
unfolding fold split_fold
second_fold = refl

abbrev keys : List ℤ
keys = pos 5 ∷ negsuc 0 ∷ pos 5 ∷ []

count_groups-entry_example :
    AreSorted (count_groups points labels (pos 1) 0 keys [])
    × ((k : ℤ)
        → entry k (count_groups points labels (pos 1) 0 keys []) ≡ record {
          key = k;
          cnt = rows_with (λ i. true) k 0 keys;
          positive = rows_with (predicted_positive points labels (pos 1)) k 0 keys;
          tp =
              rows_with
                (λ i.
                  predicted_positive points labels (pos 1) i && is_positive points labels (pos 1) i)
                k
                0
                keys;
          pos_true = rows_with (is_positive points labels (pos 1)) k 0 keys;
        })
count_groups-entry_example = count_groups-entry points labels (pos 1) keys

load_tool_missing_iff_example : load_tool eight_bytes none ≡ missing
load_tool_missing_iff_example = (load_tool_missing_iff eight_bytes none).1 refl

abbrev saved : Handle ℕ
saved = record {
  model = net;
  has_scaler = true;
  scaler = record { mean = 1 ∷ 0 ∷ []; stdv = 2 ∷ 2 ∷ [] };
}

saved-IsStorable : IsStorable (bundle_of saved).model
unfolding ◌*ℤ◌
saved-IsStorable = record {
  act_int = omega arith;
  in_int = omega arith;
  hidden_int = omega arith;
  out_int = omega arith;
  w1_mat = record {
    rows_int = omega arith;
    cols_int = omega arith;
    cells_all = refl;
    cells_int = omega arith;
  };
  w2_mat = record {
    rows_int = omega arith;
    cols_int = omega arith;
    cells_all = refl;
    cells_int = omega arith;
  };
  b1_vec = omega arith;
  b2_vec = omega arith;
}

nwx_load_bundle-save_bundle_example :
    (h' : Handle ℕ) × (nwx_load_bundle eight_bytes
        (λ (_ : String). some (save_bundle eight_bytes true (bundle_of saved)).1)
        (some "m")
      ≡ loaded h')
    × ((e : Backend ℕ) (data_in out : Option (List ℕ)) (rows cols : ℤ)
        → let after = nwx_predict e (some h') data_in rows cols out in
          let before = nwx_predict e (some saved) data_in rows cols out in
          (after.0 ≡ before.0) × (after.2 ≡ before.2))
nwx_load_bundle-save_bundle_example =
    nwx_load_bundle-save_bundle eight_bytes eight_bytes-IsCodec "m" saved saved-IsStorable
      (record { mean_vec = omega arith; stdv_vec = refl })
