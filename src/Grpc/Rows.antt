-- ===== src/Grpc/Rows.antt =====
-- The stream against the unary call.
use native.Mathlib.Nat.{le_refl}
use neuralware_x.Prelude.{
  ℕ, zero, suc, ◌<◌, ◌≡◌, refl, sym, ap, ap₂, ◌∙◌, fun_ext, inl, inr, Bool-cases, List, [], ◌∷◌,
  ◌++◌, map, arith, lt→ltb, if◌then◌else◌, length, get_or,
}
use neuralware_x.Double.{Double, nought}
use neuralware_x.Tensor.{Tensor2D, Fits, Backend, at, zeros}
use neuralware_x.Tensor.View.{zeros-Fits}
use neuralware_x.Tensor.Cells.{Shows-for_cells, at-for_cells}
use neuralware_x.Tensor.Rows.{softmax-Fits}
use neuralware_x.Scaler.{transform}
use neuralware_x.Scaler.Cells.{scaled_value, transform-Fits, at-transform}
use neuralware_x.Model.{forward}
use neuralware_x.Model.Forward.{IsCpu, forward_cells}
use neuralware_x.Model.Alone.{hidden_of, logit_of, share_of, forward_alone}
use neuralware_x.Capi.{Handle}
use neuralware_x.Grpc.{
  request_matrix, row_values, reply_rows, infer, rpc_predict, stream_row, predict_stream,
}

abbrev pub AllLength : {D : Type 0} → ℕ → List (List D) → Type 0
AllLength n [] = Unit
AllLength n (row ∷ rows) = (length row ≡ n) × AllLength n rows

-- The values of a function at `0 .. n-1`.
abbrev pub up_to {ℓ} : {A : Type ℓ} → ℕ → (ℕ → A) → List A
up_to zero f = []
up_to (suc n) f = up_to n f ++ (f n ∷ [])

up_to-cons {ℓ} : {A : Type ℓ} (n : ℕ) (f : ℕ → A) → up_to (suc n) f ≡ f 0 ∷ up_to n (λ k. f (suc k))
up_to-cons zero f = refl
up_to-cons (suc n) f = ap (λ xs. xs ++ (f (suc n) ∷ [])) (up_to-cons n f)

up_to-map {ℓ κ} :
    {A : Type ℓ} {B : Type κ} (g : A → B) (a : A) (xs : List A)
    → up_to (length xs) (λ p. g (get_or xs p a)) ≡ map g xs
up_to-map g a [] = refl
up_to-map g a (x ∷ xs) = up_to-cons (length xs) _ ∙ ap (◌∷◌ (g x)) (up_to-map g a xs)

module _ {D : Type 0} ⦃d : Double D⦄ where
  request_matrix-Fits :
      (cols : ℕ) (rows : List (List D)) → Fits (length rows) cols (request_matrix cols rows)
  unfolding request_matrix
  request_matrix-Fits cols rows =
      (Shows-for_cells (length rows) cols (length rows) cols
        (λ i j _. get_or (get_or rows i []) j nought) (zeros (length rows) cols)
        (zeros-Fits D (length rows) cols) (le_refl _) (le_refl _)).0

  at-request_matrix :
      (cols : ℕ) (rows : List (List D)) (p q : ℕ)
      → p < length rows
      → q < cols
      → at (request_matrix cols rows) p q ≡ get_or (get_or rows p []) q nought
  unfolding request_matrix
  at-request_matrix cols rows p q hp hq =
      at-for_cells (length rows) cols (length rows) cols
        (λ i j _. get_or (get_or rows i []) j nought) (zeros (length rows) cols) p q
        (zeros-Fits D (length rows) cols) (le_refl _) (le_refl _) hp hq
      ∙ rw (lt→ltb p (length rows) hp, lt→ltb q cols hq)

  -- The values of a row that go into the network, and the probabilities of the row.
  abbrev input_of : Handle D → List D → ℕ → D
  input_of h xs k =
      if h.has_scaler then scaled_value h.scaler k (get_or xs k nought) else get_or xs k nought

  pub row_prob : Handle D → List D → ℕ → D
  unfolding logit_of share_of
  row_prob h xs = share_of h.model.w2.cols (logit_of h.model (length xs) (input_of h xs))

  abbrev network_input : Handle D → Tensor2D D → Tensor2D D
  network_input h X = if h.has_scaler then transform h.scaler X else X

  network_input-row :
      (h : Handle D) (rows : List (List D)) (cols : ℕ)
      → let X = network_input h (request_matrix cols rows) in
        (X.rows ≡ length rows)
        × (X.cols ≡ cols)
        × ((p k : ℕ) → p < length rows → k < cols → at X p k ≡ input_of h (get_or rows p []) k)
  network_input-row h rows cols =
      let fit = request_matrix-Fits cols rows in
      let X = request_matrix cols rows in
      elim (Bool-cases h.has_scaler) [
        | inl on ↦
            let t = transform-Fits h.scaler X in
            rw on (
              t.0 ∙ fit.0,
              t.1 ∙ fit.1,
              λ p k hp hk.
                  at-transform h.scaler X p k (omega (arith, fit.0)) (omega (arith, fit.1))
                  ∙ ap (scaled_value h.scaler k) (at-request_matrix cols rows p k hp hk),
            )
        | inr off ↦ rw off (fit.0, fit.1, at-request_matrix cols rows)
      ]

  length-row :
      (cols : ℕ) (rows : List (List D)) (p : ℕ)
      → AllLength cols rows
      → p < length rows
      → length (get_or rows p []) ≡ cols
  length-row cols [] p all h = elim h [ ]
  length-row cols (row ∷ rows) zero (e, all) h = e
  length-row cols (row ∷ rows) (suc p) (e, all) h = length-row cols rows p all (omega arith)

  -- What `infer` makes of a batch of rows of one length.
  infer_lem :
      (e : Backend D) (h : Handle D) (rows : List (List D)) (cols : ℕ)
      → IsCpu e
      → AllLength cols rows
      → let P = (infer e h (request_matrix cols rows)).1 in
        (P.rows ≡ length rows)
        × (P.cols ≡ h.model.w2.cols)
        × ((p q : ℕ)
            → p < length rows
            → q < h.model.w2.cols
            → at P p q ≡ row_prob h (get_or rows p []) q)
  unfolding infer row_prob
  infer_lem e h rows cols cpu all =
      let X = network_input h (request_matrix cols rows) in
      let row = network_input-row h rows cols in
      let f = forward_cells e h.model X cpu in
      let fit = softmax-Fits (forward e h.model X).1 in
      (
        fit.0 ∙ f.0.0 ∙ row.0,
        fit.1 ∙ f.0.1,
        λ p q hp hq.
            let x = input_of h (get_or rows p []) in
            forward_alone e h.model X p q x cpu (λ k hk. row.2 p k hp (omega (arith, row.1)))
              (omega (arith, row.0)) hq
            ∙ ap (λ n. share_of h.model.w2.cols (logit_of h.model n x) q)
                (row.1 ∙ sym (length-row cols rows p all hp)),
      )

  row_values-up_to :
      (P : Tensor2D D) (i n : ℕ) (f : ℕ → D)
      → ((q : ℕ) → q < n → at P i q ≡ f q)
      → row_values P i n ≡ up_to n f
  row_values-up_to P i zero f e = refl
  row_values-up_to P i (suc n) f e =
      ap₂ (λ xs v. xs ++ (v ∷ [])) (row_values-up_to P i n f (λ q hq. e q (omega arith)))
        (e n (omega arith))

  reply_rows-up_to :
      (P : Tensor2D D) (n : ℕ) (f : ℕ → List D)
      → ((p : ℕ) → p < n → row_values P p P.cols ≡ f p)
      → reply_rows P n ≡ up_to n f
  reply_rows-up_to P zero f e = refl
  reply_rows-up_to P (suc n) f e =
      ap₂ (λ xs v. xs ++ (v ∷ [])) (reply_rows-up_to P n f (λ p hp. e p (omega arith)))
        (e n (omega arith))

  -- The probabilities that answer a row of values; an empty row gets an empty answer.
  abbrev pub answer_row : Handle D → List D → List D
  answer_row h [] = []
  answer_row h (v ∷ vs) = up_to h.model.w2.cols (row_prob h (v ∷ vs))

  full_row :
      (h : Handle D) (row : List D) (cols : ℕ)
      → length row ≡ suc cols
      → up_to h.model.w2.cols (row_prob h row) ≡ answer_row h row
  full_row h [] cols e = absurd (omega arith)
  full_row h (v ∷ vs) cols e = refl

  module _ (e : Backend D) (cpu : IsCpu e) where
    -- A reply to rows of one length that is not 0.
    infer-rows :
        (h : Handle D) (rows : List (List D)) (cols : ℕ)
        → AllLength (suc cols) rows
        → let P = (infer e h (request_matrix (suc cols) rows)).1 in
          ((p : ℕ) → p < length rows → row_values P p P.cols ≡ answer_row h (get_or rows p []))
    infer-rows h rows cols all p hp =
        let i = infer_lem e h rows (suc cols) cpu all in
        let P = (infer e h (request_matrix (suc cols) rows)).1 in
        ap (row_values P p) i.1
        ∙ row_values-up_to P p h.model.w2.cols (row_prob h (get_or rows p []))
            (λ q hq. i.2 p q hp hq)
        ∙ full_row h (get_or rows p []) cols (length-row (suc cols) rows p all hp)

    rpc_predict-map :
        (h : Handle D) (rows : List (List D)) (cols : ℕ)
        → AllLength (suc cols) rows
        → (rpc_predict e h rows).1 ≡ map (answer_row h) rows
    unfolding rpc_predict
    rpc_predict-map h [] cols all = refl
    rpc_predict-map h (row ∷ rows) cols (one, all) =
        let P = (infer e h (request_matrix (suc cols) (row ∷ rows))).1 in
        let i = infer_lem e h (row ∷ rows) (suc cols) cpu (one, all) in
        rw one (
          ap (reply_rows P) i.0
          ∙ reply_rows-up_to P (length (row ∷ rows)) (λ p. answer_row h (get_or (row ∷ rows) p []))
              (infer-rows h (row ∷ rows) cols (one, all))
          ∙ up_to-map (answer_row h) [] (row ∷ rows))

    stream_row_lem : (h : Handle D) (row : List D) → (stream_row e h row).1 ≡ answer_row h row
    unfolding stream_row
    stream_row_lem h [] = refl
    stream_row_lem h (v ∷ vs) = infer-rows h ((v ∷ vs) ∷ []) (length vs) (refl, tt) 0 (omega arith)

    -- What a message leaves in the bundle does not change what the next one gets.
    stream_row-answer :
        (h : Handle D) (row other : List D)
        → answer_row (stream_row e h row).0 other ≡ answer_row h other
    unfolding stream_row infer forward row_prob logit_of hidden_of
    stream_row-answer h [] other = refl
    stream_row-answer h (v ∷ vs) [] = refl
    stream_row-answer h (v ∷ vs) (w ∷ ws) = refl

    predict_stream-map :
        (h : Handle D) (rows : List (List D))
        → (predict_stream e h rows).1 ≡ map (answer_row h) rows
    unfolding predict_stream
    predict_stream-map h [] = refl
    predict_stream-map h (row ∷ rows) = ap₂ ◌∷◌ (stream_row_lem h row) (
        predict_stream-map (stream_row e h row).0 rows
        ∙ ap (λ f. map f rows) (fun_ext (stream_row-answer h row)))

    -- On a processor, for rows of one length that is not 0, the stream and the unary call give the same
    -- rows of probabilities, and each of them depends on its own row and the bundle only, whatever rows
    -- come with it.
    pub predict_stream-eq-predict :
        (h : Handle D) (rows : List (List D)) (cols : ℕ)
        → AllLength (suc cols) rows
        → ((predict_stream e h rows).1 ≡ (rpc_predict e h rows).1)
          × ((predict_stream e h rows).1 ≡ map (answer_row h) rows)
    predict_stream-eq-predict h rows cols all = (
      predict_stream-map h rows ∙ sym (rpc_predict-map h rows cols all),
      predict_stream-map h rows,
    )
