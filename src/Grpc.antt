-- ===== src/Grpc.antt =====
-- src/grpc/serve_grpc.cpp: the inference service. A message is a list of rows, the order of the stream
-- is that of the list, and the network runs once for each call of `forward`.
pub mod Rows
use neuralware_x.Prelude.{
  ℕ, zero, suc, ◌+◌, ◌*◌, Bool, true, false, Option, none, some, List, [], ◌∷◌, ◌++◌, if◌then◌else◌,
  ◌==◌, length, get_or, map,
}
use neuralware_x.Double.{Double, nought, one}
use neuralware_x.Tensor.{Tensor2D, Backend, at, zeros, for_cells, softmax}
use neuralware_x.Scaler.{StandardScaler, transform}
use neuralware_x.Model.{Mlp, forward}
use neuralware_x.Capi.{Handle}

-- What a handler leaves: the bundle, with the activations of its last forward pass, and the reply.
abbrev pub Reply : Type 0 → Type 0
Reply D = Handle D × List (List D)

module _ {D : Type 0} ⦃d : Double D⦄ where
  -- The constructor: `none` where `load_bundle` returned false and an exception is thrown.
  unfoldable pub serve_bundle : Option (Handle D) → Option (Handle D)
  serve_bundle none = none
  serve_bundle (some h) = some (record h { model = record h.model { temperature = one } })

  -- `X(i,j) = req->rows(i).values(j)`
  unfoldable pub request_matrix : ℕ → List (List D) → Tensor2D D
  request_matrix cols rows =
      for_cells (length rows) cols (λ i j _. get_or (get_or rows i []) j nought)
        (zeros (length rows) cols)

  abbrev pub row_values : Tensor2D D → ℕ → ℕ → List D
  row_values P i zero = []
  row_values P i (suc n) = row_values P i n ++ (at P i n ∷ [])

  abbrev pub reply_rows : Tensor2D D → ℕ → List (List D)
  reply_rows P zero = []
  reply_rows P (suc n) = reply_rows P n ++ (row_values P n P.cols ∷ [])

  -- The probabilities of a matrix, and the model that computed them.
  unfoldable pub infer : Backend D → Handle D → Tensor2D D → Handle D × Tensor2D D
  infer e h X =
      let X' = if h.has_scaler then transform h.scaler X else X in
      let (m, logits) = forward e h.model X' in (record h { model = m }, softmax logits)

  unfoldable pub rpc_predict : Backend D → Handle D → List (List D) → Reply D
  rpc_predict e h [] = (h, [])
  rpc_predict e h (row ∷ rows) =
      let (h', P) = infer e h (request_matrix (length row) (row ∷ rows)) in
      (h', reply_rows P P.rows)

  unfoldable pub batch_predict : Backend D → Handle D → List (List D) → Reply D
  batch_predict e h rows = rpc_predict e h rows

  -- One message of the stream.
  unfoldable pub stream_row : Backend D → Handle D → List D → Handle D × List D
  stream_row e h [] = (h, [])
  stream_row e h (v ∷ vs) =
      let (h', P) = infer e h (request_matrix (length (v ∷ vs)) ((v ∷ vs) ∷ [])) in
      (h', row_values P 0 P.cols)

  unfoldable pub predict_stream : Backend D → Handle D → List (List D) → Reply D
  predict_stream e h [] = (h, [])
  predict_stream e h (row ∷ rows) =
      let (h1, out) = stream_row e h row in
      let (h2, outs) = predict_stream e h1 rows in (h2, out ∷ outs)
