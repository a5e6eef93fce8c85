-- ===== src/Tests/Requests.antt =====
-- Runs of the requests of src/app/serve.cpp.
use neuralware_x.Prelude.{◌≡◌, refl, ◌↔◌, ◌⊎◌, true, false, List, [], ◌∷◌, ℕ}
use neuralware_x.Prelude.Text.{codes}
use neuralware_x.Capi.{Handle}
use neuralware_x.Token.{is_authorized}
use neuralware_x.Server.{Windows, rate_limit}
use neuralware_x.Server.Requests.{scan}
use neuralware_x.Server.Stream.{problem, sends, stream_body, refused, predict_stream_request}
use neuralware_x.Server.Refusals.{predict_stream_request-refusals}
use neuralware_x.Server.Routes.{validate_request}
use neuralware_x.Server.Agreed.{validate_request-stream_body}
use neuralware_x.Server.Columns.{table_text, scan-table_text}
use neuralware_x.Tests.Samples.{halves, processor, net}

abbrev handle : Handle ℕ
handle = record { model = net; has_scaler = false; scaler = record { mean = []; stdv = [] } }

-- The third request of the window.
abbrev twice_used : Windows
twice_used token = record { count = 2; ends = 100 }

abbrev allowed : List (List ℕ)
allowed = codes "key" ∷ []

abbrev posted : List ℕ
posted = codes "{\"instances\":[[1,2],[3,4]]}"

predict_stream_request-refusals_example :
    let authv = codes "Bearer key" in
    let reply =
      (predict_stream_request processor false handle 3 60 twice_used allowed 90 authv posted).1 in
    ((reply ≡ problem 401) ↔ (is_authorized authv allowed ≡ false))
    × ((reply ≡ problem 429) ↔ (
        (is_authorized authv allowed ≡ true)
        × (refused (rate_limit 3 60 twice_used authv 90).1 ≡ true)))
predict_stream_request-refusals_example =
    predict_stream_request-refusals processor false handle 3 60 twice_used allowed 90
      (codes "Bearer key") posted

validate_request-stream_body_example :
    ((validate_request posted ≡ 400)
      × (stream_body ⦃d = halves⦄ processor false handle posted ≡ problem 400))
    ⊎ ((validate_request posted ≡ 204)
        × ((rows : List (List ℕ)) × (stream_body ⦃d = halves⦄ processor false handle posted
              ≡ sends rows)))
validate_request-stream_body_example =
    validate_request-stream_body ⦃d = halves⦄ processor false handle posted

scan-table_text_example :
    scan
      (table_text (codes "1", codes "2" ∷ codes "5.5" ∷ []) ((codes "-3", codes "4" ∷ []) ∷ []))
      (record { rows = 0; cols = 0; cur = 0 })
    ≡ record { rows = 2; cols = 2; cur = 0 }
scan-table_text_example =
    scan-table_text (codes "1") (codes "2") (codes "5.5" ∷ []) ((codes "-3", codes "4" ∷ []) ∷ [])
      (refl, tt) ((refl, tt), ((refl, (refl, (refl, tt))), tt))
      (((refl, (refl, tt)), ((refl, tt), tt)), tt)
