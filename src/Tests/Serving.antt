-- ===== src/Tests/Serving.antt =====
-- Runs of src/grpc/serve_grpc.cpp.
use neuralware_x.Prelude.{ℕ, ◌≡◌, refl, true, List, [], ◌∷◌, map}
use neuralware_x.Capi.{Handle}
use neuralware_x.Grpc.{rpc_predict, predict_stream}
use neuralware_x.Grpc.Rows.{answer_row, predict_stream-eq-predict}
use neuralware_x.Tests.Samples.{halves, processor, net}

-- A bundle with statistics of two columns.
abbrev handle : Handle ℕ
handle = record {
  model = net;
  has_scaler = true;
  scaler = record { mean = 1 ∷ 0 ∷ []; stdv = 2 ∷ 2 ∷ [] };
}

predict_stream-eq-predict_example :
    let rows : List (List ℕ) = (3 ∷ 4 ∷ []) ∷ (8 ∷ 1 ∷ []) ∷ [] in
    ((predict_stream processor handle rows).1 ≡ (rpc_predict processor handle rows).1)
    × ((predict_stream processor handle rows).1 ≡ map (answer_row handle) rows)
predict_stream-eq-predict_example =
    predict_stream-eq-predict processor (λ A B. refl) handle ((3 ∷ 4 ∷ []) ∷ (8 ∷ 1 ∷ []) ∷ []) 1
      (refl, (refl, tt))
