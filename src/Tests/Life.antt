-- ===== src/Tests/Life.antt =====
-- Runs of the server of src/app/serve.cpp.
use neuralware_x.Prelude.{
  ℕ, ◌-◌, ◌*◌, ◌≡◌, refl, true, false, not, ◌&&◌, Option, none, some, List, [], ◌∷◌, ◌++◌, map, leb,
  if◌then◌else◌,
}
use neuralware_x.Prelude.Int.{pos, ◌-ℤ◌}
use neuralware_x.Prelude.Text.{codes}
use neuralware_x.Capi.{Handle}
use neuralware_x.Token.{is_authorized}
use neuralware_x.Calibration.{predict_labels}
use neuralware_x.Server.{answer as limit_answer, count_request, rate_limit}
use neuralware_x.Server.Requests.{take_token}
use neuralware_x.Server.Http.{head_of, body_of, get_header}
use neuralware_x.Server.Stream.{refused}
use neuralware_x.Server.Body.{first_reading}
use neuralware_x.Server.Predict.{
  status, Shared, Settings, Moment, bears, bucket_key, announced_length, predictions,
  predict_request, answer_body, count_below, done,
}
use neuralware_x.Server.Predict.Answered.{is_answerable, fits, predicts, predict_request-predicts}
use neuralware_x.Server.Predict.Posted.{Answers, comma_row, predict_request-table_text}
use neuralware_x.Server.Predict.Same.{predictions-predict_labels}
use neuralware_x.Server.Routes.{Ended, Setup, Files, State, serve_request}
use neuralware_x.Server.Life.{
  Phase, Connection, Program, Reach, start, next, hup, test, accept, answer, IsFresh,
  accept_connection, test_loop,
}
use neuralware_x.Server.Life.Safety.{disks_on, IsSound, Reach-IsSound}
use neuralware_x.Io.Bundle.{load_bundle}
use neuralware_x.Io.Csv.{fields}
use neuralware_x.Tests.Samples.{halves, processor, eight_bytes, net}

abbrev handle : Handle ℕ
handle = record { model = net; has_scaler = false; scaler = record { mean = []; stdv = [] } }

-- A number is its first digit, in halves, and a text that does not begin with one is no number.
abbrev digit : List ℕ → Option ℕ
digit [] = none
digit (c ∷ _) = if leb b'0' c && leb c b'9' then some (2 * (c - b'0')) else none

abbrev settings : Settings ℕ
settings = record {
  token = [];
  allowed = codes "Bearer key" ∷ [];
  limit = 3;
  window = 60;
  rate = pos 50;
  burst = pos 100;
  max_body = 1000;
  quantize_env = false;
}

abbrev setup : Setup ℕ
setup = record {
  backend = processor;
  codec = eight_bytes;
  stod = digit;
  stoll = λ s. some (pos 20);
  atoll = λ s. pos 20;
  settings = settings;
  largest = some (pos 500);
}

abbrev files : Files
files = record { disk = none; card = true; openapi = none }

abbrev moment : Moment ℕ
moment = record { ip = codes "127.0.0.1"; seconds = 7; now_ms = 9000; elapsed = 1 }

-- The bucket of every client has a token.
abbrev shared : Shared ℕ
shared = record {
  windows = λ token. record { count = 0; ends = 60 };
  buckets = λ key. record { tokens = 4; last_ms = 8000 };
  pred_requests = 0;
  size_buckets = (128, 0) ∷ [];
  lat_buckets = (1, 0) ∷ (2, 0) ∷ [];
}

abbrev first_state : State ℕ
first_state = record { bundle = handle; total_requests = 0; shared = shared }

abbrev server : Program ℕ
server = record {
  state = first_state;
  g_reload = false;
  g_stop = false;
  active_conns = 0;
  waiting = [];
  phase = Phase.at_test;
}

abbrev visit : Connection ℕ
visit = record { moment = moment; received = some (codes "GET /healthz HTTP/1.1") }

server-IsFresh : IsFresh server
server-IsFresh = record {
  no_requests = refl;
  no_predictions = refl;
  no_connections = refl;
  no_waiting = refl;
}

-- After a signal to reload while the file does not open, and one request.
abbrev later : Program ℕ
later = record server { state = record first_state { total_requests = 1 }; active_conns = 1 }

answered :
    serve_request setup files first_state moment visit.received
    ≡ Ended.goes_on (record first_state { total_requests = 1 }) (status 200 ∷ [])
unfolding serve_request
answered = refl

later-Reach : Reach setup (pos 1) server later
unfolding test_loop accept_connection load_bundle
later-Reach =
    next (next (next (next start hup) (test none refl refl)) (accept visit refl))
      (answer files [] [] visit refl answered)

Reach-IsSound_example : IsSound setup (pos 1) handle (disks_on later-Reach) later
Reach-IsSound_example = Reach-IsSound setup (pos 1) server server-IsFresh later-Reach

abbrev request : List ℕ
request =
    codes "POST /predict HTTP/1.1"
    ++ (13
        ∷ 10
        ∷ (codes "Authorization: Bearer key"
            ++ (13 ∷ 10 ∷ 13 ∷ 10 ∷ codes "{\"instances\":[[1,2],[3,4]]}")))

predict_request-predicts_example :
    let head = head_of request in
    let authv = get_header (codes "Authorization: ") head in
    predicts (predict_request processor digit setup.stoll settings handle moment shared request) ≡ (
      is_authorized authv settings.allowed
      && (not (refused (rate_limit 3 60 shared.windows authv 7).1)
          && (bears [] head
              && ((take_token 200 100 9000 (shared.buckets (bucket_key [] moment.ip head))).1
                  && (fits 1000 (announced_length setup.stoll head)
                      && is_answerable (body_of request))))))
predict_request-predicts_example =
    predict_request-predicts processor digit setup.stoll settings handle moment shared request

-- Lines of cells are counted by their size, and get no prediction.
lines_of_cells :
    answer_body processor digit settings handle moment shared (codes "0,1")
    ≡ done (record shared { size_buckets = (128, 1) ∷ [] }) (status 200 ∷ [])
unfolding answer_body count_below
lines_of_cells = refl

-- An empty table is read as one row.
empty_table : comma_row digit (codes "{\"instances\":[]}") ≡ 0 ∷ []
unfolding fields
empty_table = refl

predict_request-table_text_example :
    (first_reading digit (codes "{\"instances\":[[1,2],[3,4]]}")
      ≡ ((2 ∷ 4 ∷ []) ∷ (6 ∷ 8 ∷ []) ∷ [], 0))
    × Answers processor digit setup.stoll settings handle moment shared
        (comma_row digit (codes "{\"instances\":[[1,2],[3,4]]}") ∷ [])
        (predict_request processor digit setup.stoll settings handle moment shared request)
unfolding is_authorized get_header head_of rate_limit bears take_token bucket_key announced_length
    body_of limit_answer count_request ◌-ℤ◌
predict_request-table_text_example =
    predict_request-table_text processor digit setup.stoll settings handle moment shared request
      (codes "1", codes "2" ∷ []) ((codes "3", codes "4" ∷ []) ∷ []) 0 refl refl refl refl refl refl
      refl
      (
        ((λ e. cc), (refl, tt), ((λ e. cc), (refl, tt), tt)),
        (((λ e. cc), (refl, tt), ((λ e. cc), (refl, tt), tt)), tt),
      )
      refl

predictions-predict_labels_example :
    map (λ (x : ℕ × List ℕ). x.0) (predictions processor true handle ((2 ∷ 4 ∷ []) ∷ []))
    ≡ predict_labels processor true handle ((2 ∷ 4 ∷ []) ∷ [])
predictions-predict_labels_example =
    predictions-predict_labels processor true handle ((2 ∷ 4 ∷ []) ∷ [])
