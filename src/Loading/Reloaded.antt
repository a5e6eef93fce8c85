-- ===== src/Loading/Reloaded.antt =====
-- A bundle that is saved and loaded again.
use neuralware_x.Prelude.{
  ℕ, ◌≡◌, ◌↔◌, refl, ap, ◌∙◌, inl, inr, Bool, Bool-cases, true, false, ◌&&◌, Option, Option-cases,
  none, some, List, [], if◌then◌else◌,
}
use neuralware_x.Prelude.Int.{ℤ, pos, pos_part, ltb_ℤ}
use neuralware_x.Double.{Double, one}
use neuralware_x.Tensor.{Tensor2D, Backend, softmax}
use neuralware_x.Activation.{Activation, relu_act, tanh_act}
use neuralware_x.Scaler.{StandardScaler, transform}
use neuralware_x.Model.{forward}
use neuralware_x.Io.Stream.{Codec, IsCodec}
use neuralware_x.Io.Serialize.{FileMat, load_model, read_tensors, ok}
use neuralware_x.Io.Bundle.{ModelBundle, save_bundle, load_bundle}
use neuralware_x.Io.RoundTrip.{
  IsStorable, MaybeStorableScaler, scaler_after, load_bundle-save_bundle,
}
use neuralware_x.Capi.{Handle, matrix_of, write_probs, predict, nwx_predict}
use neuralware_x.Loading.{
  activation_of, Loaded, loaded, missing, fresh, plain_bundle, network_of, handle_of, fall_back,
  load_tool, nwx_load_bundle,
}

abbrev pub act_number : Activation → ℤ
act_number relu_act = pos 0
act_number tanh_act = pos 1

module _ {D : Type 0} where
  abbrev mat_of : Tensor2D D → FileMat D
  mat_of t = record { rows = pos t.rows; cols = pos t.cols; cells = t.cells }

  -- What `save_bundle` writes of a bundle in memory.
  abbrev pub bundle_of : Handle D → ModelBundle D
  bundle_of h = record {
    model = record {
      act = act_number h.model.act;
      temperature = h.model.temperature;
      in_dim = pos h.model.in_dim;
      hidden = pos h.model.hidden;
      out = pos h.model.out;
      w1 = mat_of h.model.w1;
      b1 = h.model.b1;
      w2 = mat_of h.model.w2;
      b2 = h.model.b2;
    };
    has_scaler = h.has_scaler;
    scaler = h.scaler;
  }

pub activation_of-act_number : (a : Activation) → activation_of (act_number a) ≡ some a
unfolding activation_of
activation_of-act_number relu_act = refl
activation_of-act_number tanh_act = refl

-- A loading that does not end in `missing`.
Found : {D : Type 0} → Loaded D → Type 0
Found l = ¬ (l ≡ missing)

module _ {D : Type 0} ⦃d : Double D⦄ where
  handle_of-Found : (b : ModelBundle D) → Found (handle_of b)
  unfolding Found handle_of
  handle_of-Found b e = elim (Option-cases (activation_of b.model.act)) [
    | inl o ↦ let e' = rw (o, handle_of) at e in cc
    | inr (a, o) ↦ let e' = rw (o, handle_of) at e in cc
  ]

  fall_back-Found :
      (c : Codec D) (file : List ℕ) (b : ModelBundle D) → Found (fall_back c (some file) b)
  unfolding Found fall_back load_model
  fall_back-Found c file b e = elim (Option-cases (read_tensors c b.model (ok file))) [
    | inl o ↦ let e' = rw (o, fall_back) at e in cc
    | inr ((m, s), o) ↦ let e' = rw (o, fall_back) at e in handle_of-Found (plain_bundle b m) e'
  ]

  load_tool-none : (c : Codec D) → load_tool c none ≡ missing
  unfolding load_tool load_bundle fall_back load_model
  load_tool-none c = refl

  load_tool-Found : (c : Codec D) (file : List ℕ) → Found (load_tool c (some file))
  unfolding load_tool Found
  load_tool-Found c file e = elim (Option-cases (load_bundle c fresh (some file))) [
    | inl o ↦ let e' = rw (o, load_tool) at e in cc
    | inr ((false, b), o) ↦ let e' = rw (o, load_tool) at e in fall_back-Found c file b e'
    | inr ((true, b), o) ↦ let e' = rw (o, load_tool) at e in handle_of-Found b e'
  ]

  -- The tools report a model as missing exactly when its file does not open: a file that opens, however
  -- short or damaged, is taken for a model or ends in an exception.
  pub load_tool_missing_iff :
      (c : Codec D) (file : Option (List ℕ)) → (load_tool c file ≡ missing) ↔ (file ≡ none)
  unfolding load_tool Found
  load_tool_missing_iff c none = ((λ _. refl), (λ _. load_tool-none c))
  load_tool_missing_iff c (some file) = ((λ e. absurd (load_tool-Found c file e)), (λ e. cc))

module _ {D : Type 0} ⦃d : Double D⦄ (c : Codec D) (laws : IsCodec c) where
  -- What `nwx_load_bundle` makes of a bundle that was saved.
  reloaded : Handle D → Handle D
  reloaded h = record {
    model = network_of (record (bundle_of h).model { temperature = one }) h.model.act;
    has_scaler = h.has_scaler;
    scaler = scaler_after c laws h.has_scaler h.scaler (record { mean = []; stdv = [] });
  }

  handle_of-reloaded :
      (h : Handle D)
      → handle_of (record {
        model = record (bundle_of h).model { temperature = one };
        has_scaler = h.has_scaler;
        scaler = scaler_after c laws h.has_scaler h.scaler (record { mean = []; stdv = [] });
      })
        ≡ loaded (reloaded h)
  unfolding reloaded handle_of
  handle_of-reloaded h = rw (handle_of, activation_of-act_number h.model.act) refl

  same_input :
      (flag : Bool) (s old : StandardScaler D) (X : Tensor2D D)
      → (if flag then transform (scaler_after c laws flag s old) X else X)
        ≡ (if flag then transform s X else X)
  same_input true s old X = refl
  same_input false s old X = refl

  same_logits :
      (e : Backend D) (h : Handle D) (X : Tensor2D D)
      → (forward e (reloaded h).model X).1 ≡ (forward e h.model X).1
  unfolding forward reloaded
  same_logits e h X = refl

  predict-reloaded :
      (e : Backend D) (h : Handle D) (rows cols : ℕ) (xs buffer : List D)
      → (predict e (reloaded h) rows cols xs buffer).1 ≡ (predict e h rows cols xs buffer).1
  unfolding reloaded predict
  predict-reloaded e h rows cols xs buffer =
      ap (λ t. write_probs (softmax t) buffer)
        (same_logits e h _
          ∙ ap (λ X. (forward e h.model X).1)
              (same_input h.has_scaler h.scaler _ (matrix_of rows cols xs)))

  nwx_predict-reloaded :
      (e : Backend D) (h : Handle D) (data_in out : Option (List D)) (rows cols : ℤ)
      → let after = nwx_predict e (some (reloaded h)) data_in rows cols out in
        let before = nwx_predict e (some h) data_in rows cols out in
        (after.0 ≡ before.0) × (after.2 ≡ before.2)
  unfolding nwx_predict
  nwx_predict-reloaded e h none out rows cols = (refl, refl)
  nwx_predict-reloaded e h (some xs) none rows cols = (refl, refl)
  nwx_predict-reloaded e h (some xs) (some buffer) rows cols =
      elim (Bool-cases (ltb_ℤ (pos 0) rows && ltb_ℤ (pos 0) cols)) [
        | inl valid ↦
            rw valid
              (refl, ap some (predict-reloaded e h (pos_part rows) (pos_part cols) xs buffer))
        | inr invalid ↦ rw invalid (refl, refl)
      ]

  -- A bundle that `save_bundle` writes and `nwx_load_bundle` reads again answers every call of
  -- `nwx_predict`, valid or not, with the same result and the same buffer as the bundle that was saved,
  -- if its dimensions are `int`s, its matrices have as many cells as their dimensions say, and its
  -- scaler, if it has one, has as many deviations as means.
  pub nwx_load_bundle-save_bundle :
      {Path' : Type 0} (path : Path') (h : Handle D)
      → IsStorable (bundle_of h).model
      → MaybeStorableScaler c laws h.has_scaler h.scaler
      → (h' : Handle D) × (nwx_load_bundle c
            (λ (_ : Path'). some (save_bundle c true (bundle_of h)).1)
            (some path)
          ≡ loaded h')
        × ((e : Backend D) (data_in out : Option (List D)) (rows cols : ℤ)
            → let after = nwx_predict e (some h') data_in rows cols out in
              let before = nwx_predict e (some h) data_in rows cols out in
              (after.0 ≡ before.0) × (after.2 ≡ before.2))
  unfolding nwx_load_bundle
  nwx_load_bundle-save_bundle path h fits fits_scaler = (
    reloaded h,
    rw (load_bundle-save_bundle c laws fresh (bundle_of h) fits fits_scaler, nwx_load_bundle)
        (handle_of-reloaded h),
    λ e data_in out rows cols. nwx_predict-reloaded e h data_in out rows cols,
  )
