-- ===== src/Main/Kept.antt =====
-- A model that is trained and saved by one run, and used for predictions by another.
use neuralware_x.Prelude.{
  ℕ, ◌≡◌, refl, ap, ap₂, ◌∙◌, Bool, true, false, Bool-cases, inl, inr, Option, none, some, arith,
  List, [], ◌∷◌, if◌then◌else◌,
}
use Prim.Native.String.{String}
use text.Mathlib.Text.{◌==◌ as str_eq}
use mathlib.Core.Option.{some_inj}
use neuralware_x.Double.{Double}
use neuralware_x.Tensor.{Tensor2D, Backend}
use neuralware_x.Scaler.{StandardScaler, transform}
use neuralware_x.Model.{Mlp, forward}
use neuralware_x.Trainer.{Dataset}
use neuralware_x.Io.Stream.{Codec, IsCodec}
use neuralware_x.Io.Bundle.{load_bundle, save_bundle}
use neuralware_x.Io.Csv.{ok, read_csv_numeric, comma}
use neuralware_x.Io.RoundTrip.{
  IsStorable, MaybeStorableScaler, scaler_after, load_bundle-save_bundle,
}
use neuralware_x.Capi.{Handle}
use neuralware_x.Calibration.{rows_matrix, enable_runtime_quantization, labels_from, predict_labels}
use neuralware_x.Args.{Options}
use neuralware_x.Loading.{loaded, fresh, network_of, handle_of}
use neuralware_x.Loading.Reloaded.{bundle_of, activation_of-act_number}
use neuralware_x.Tools.Run.{Run, done, exits, ◌>>=◌}
use neuralware_x.Main.{
  World, Trained, save, load_model_file, trained_handle, train_main, predict_main,
}

module _ {D : Type 0} ⦃d : Double D⦄ (c : Codec D) (laws : IsCodec c) where
  -- What a run has in memory of a bundle that another one saved.
  read_again : Handle D → Handle D
  read_again h = record {
    model = network_of (bundle_of h).model h.model.act;
    has_scaler = h.has_scaler;
    scaler = scaler_after c laws h.has_scaler h.scaler (record { mean = []; stdv = [] });
  }

  handle_of-read_again :
      (h : Handle D)
      → handle_of (record {
        model = (bundle_of h).model;
        has_scaler = h.has_scaler;
        scaler = (read_again h).scaler;
      })
        ≡ loaded (read_again h)
  unfolding read_again handle_of
  handle_of-read_again h = rw (handle_of, activation_of-act_number h.model.act) refl

  scaled_again :
      (flag : Bool) (s old : StandardScaler D) (X : Tensor2D D)
      → (if flag then transform (scaler_after c laws flag s old) X else X)
        ≡ (if flag then transform s X else X)
  scaled_again true s old X = refl
  scaled_again false s old X = refl

  logits_again :
      (e : Backend D) (quantize : Bool) (h : Handle D) (X : Tensor2D D)
      → (forward e
          (if quantize
            then enable_runtime_quantization (read_again h).model
            else (read_again h).model)
          X).1
        ≡ (forward e (if quantize then enable_runtime_quantization h.model else h.model) X).1
  unfolding forward read_again enable_runtime_quantization
  logits_again e true h X = refl
  logits_again e false h X = refl

  temperature_again :
      (quantize : Bool) (h : Handle D)
      → (if quantize
          then enable_runtime_quantization (read_again h).model
          else (read_again h).model).temperature
        ≡ (if quantize then enable_runtime_quantization h.model else h.model).temperature
  unfolding read_again enable_runtime_quantization
  temperature_again true h = refl
  temperature_again false h = refl

  predict_labels-read_again :
      (e : Backend D) (quantize : Bool) (h : Handle D) (rows : List (List D))
      → predict_labels e quantize (read_again h) rows ≡ predict_labels e quantize h rows
  predict_labels-read_again e quantize h rows =
      unfold predict_labels read_again in
      ap₂ labels_from (temperature_again quantize h) (
        logits_again e quantize h _
        ∙ ap
            (λ X.
              (forward e (if quantize then enable_runtime_quantization h.model else h.model) X).1)
            (scaled_again h.has_scaler h.scaler _ (rows_matrix rows)))

  load_bundle-again :
      (h : Handle D)
      → IsStorable (bundle_of h).model
      → MaybeStorableScaler c laws h.has_scaler h.scaler
      → load_bundle c fresh (some (save_bundle c true (bundle_of h)).1)
        ≡ some (
          true,
          record {
            model = (bundle_of h).model;
            has_scaler = h.has_scaler;
            scaler = (read_again h).scaler;
          },
        )
  unfolding read_again
  load_bundle-again h fits fits_scaler =
      load_bundle-save_bundle c laws fresh (bundle_of h) fits fits_scaler

-- The parts of a chain that ends well.
>>=-eq-done :
    {A B : Type 0} (m : Run A) (f : A → Run B) {b : B}
    → (m >>= f) ≡ done b
    → (a : A) × (m ≡ done a) × (f a ≡ done b)
unfolding ◌>>=◌
>>=-eq-done (done a) f h = (a, refl, h)
>>=-eq-done (exits n) f h = cc
>>=-eq-done Run.throws f h = cc
>>=-eq-done Run.outside f h = cc

saved_of : {D : Type 0} → Run (Trained D) → Option (List ℕ)
saved_of (done t) = t.saved
saved_of _ = none

module _ {D G : Type 0} ⦃d : Double D⦄ (w : World D G) (laws : IsCodec w.codec)
    (o : Options D) where
  -- What is written is the bundle of the handle.
  save-bytes :
      (h : Handle D) {bytes : List ℕ}
      → save w o h ≡ done (some bytes)
      → (save_bundle w.codec true (bundle_of h)).1 ≡ bytes
  unfolding save save_bundle
  save-bytes h e = elim (Bool-cases (str_eq o.save_path "")) [
    | inl unnamed ↦ absurd (ground (arith, rw unnamed at e))
    | inr named ↦ elim (Bool-cases w.save_opens) [
      | inl opens ↦ some_inj.0 (ap saved_bytes (rw (named, opens) at e))
      | inr stuck ↦ absurd (ground (arith, rw (named, stuck) at e))
    ]
  ]
    where
      saved_bytes : Run (Option (List ℕ)) → Option (List ℕ)
      saved_bytes (done b) = b
      saved_bytes _ = none

  train_main-saved :
      (set : Dataset D) (m0 : Mlp D) {t : Trained D}
      → train_main w o set m0 ≡ done t
      → save w o (trained_handle w o set m0) ≡ done t.saved
  unfolding train_main saved_of
  train_main-saved set m0 e =
      let (saved, writes, e1) = >>=-eq-done (save w o (trained_handle w o set m0)) _ e in
      let (best, chosen, e2) = >>=-eq-done _ _ e1 in writes ∙ ap done (ap saved_of e2)

  load_model_file-again :
      (h : Handle D) (bytes : List ℕ) (files : String → Option (List ℕ)) (path : String)
      → files path ≡ some bytes
      → (save_bundle w.codec true (bundle_of h)).1 ≡ bytes
      → IsStorable (bundle_of h).model
      → MaybeStorableScaler w.codec laws h.has_scaler h.scaler
      → load_model_file (record w { files = files }) path ≡ done (read_again w.codec laws h)
  unfolding load_model_file
  load_model_file-again h bytes files path there same fits fits_scaler =
      rw
        (
          there,
          ← same,
          load_bundle-again w.codec laws h fits fits_scaler,
          load_model_file,
          handle_of-read_again w.codec laws h,
        )
        refl

  -- A run that trains and saves, and a later one that loads the file and predicts: the labels that the second one
  -- prints are those of the network and the scaler that the first one trained, on the rows of the table, if the
  -- file is as it was written, the dimensions are `int`s and agree with the cells, and the scaler has as
  -- many deviations as means. They are computed before the temperature is calibrated.
  pub predict_main-train_main :
      (set : Dataset D) (m0 : Mlp D) {t : Trained D} (bytes : List ℕ)
      → train_main w o set m0 ≡ done t
      → t.saved ≡ some bytes
      → (o' : Options D) (files : String → Option (List ℕ)) (row : List D) (rows : List (List D))
      → files o'.load_path ≡ some bytes
      → read_csv_numeric w.stod (files o'.predict_path) comma ≡ ok (row ∷ rows)
      → IsStorable (bundle_of (trained_handle w o set m0)).model
      → MaybeStorableScaler w.codec laws o.standardize (trained_handle w o set m0).scaler
      → predict_main (record w { files = files }) o'
        ≡ done
            (predict_labels w.backend o'.quantize_runtime (trained_handle w o set m0) (row ∷ rows))
  unfolding predict_main ◌>>=◌
  predict_main-train_main set m0 bytes trained saved o' files row rows there table fits
        fits_scaler =
      let h = trained_handle w o set m0 in
      let same = save-bytes h (train_main-saved set m0 trained ∙ ap done saved) in
      rw
        (load_model_file-again h bytes files o'.load_path there same fits fits_scaler, table, ◌>>=◌)
        (ap done
          (predict_labels-read_again w.codec laws w.backend o'.quantize_runtime h (row ∷ rows)))
