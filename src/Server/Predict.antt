-- ===== src/Server/Predict.antt =====
-- src/app/serve.cpp: `POST /predict`, from the authorization to the answer and the counters, with the
-- blocks as their braces close them.
pub mod Answered
pub mod Same
pub mod Posted
use neuralware_x.Prelude.{
  ℕ, zero, suc, ◌+◌, ◌-◌, ◌^◌, Bool, true, false, not, ◌&&◌, ◌||◌, Option, none, some, List, [],
  ◌∷◌, ◌++◌, ◌==◌, ltb, leb, if◌then◌else◌, length, drop, replicate,
}
use neuralware_x.Prelude.Int.{ℤ, pos, negsuc}
use neuralware_x.Prelude.Text.{codes}
use neuralware_x.Double.{Double, nought, one}
use neuralware_x.Tensor.{Tensor2D, Backend, softmax, argmax}
use neuralware_x.Scaler.{transform}
use neuralware_x.Model.{forward}
use neuralware_x.Json.{same_text}
use neuralware_x.Capi.{Handle}
use neuralware_x.Calibration.{divided, rows_matrix, enable_runtime_quantization}
use neuralware_x.Grpc.{row_values}
use neuralware_x.Token.{at_word, is_authorized, bearer}
use neuralware_x.Server.{Windows, rate_limit}
use neuralware_x.Server.Requests.{Bucket, take_token}
use neuralware_x.Server.Http.{has, up_to, line_end, head_of, body_of, get_header, value_of}
use neuralware_x.Io.Csv.{fields, newline}
use neuralware_x.Server.Body.{first_reading, line_rows, is_json}
use neuralware_x.Server.Stream.{refused}

-- What is sent: a status with a fixed text, the label and the probabilities of each row, the rows of a
-- stream, the dimensions that `GET /signature` names, the requests that `GET /stats` counts, or the counts of
-- `GET /metrics`: of the latencies and the sizes in the buckets, of requests and of predictions.
pub data Sent (D : Type 0) : Type 0 where
  status : ℕ → Sent D
  labels : List (ℕ × List D) → Sent D
  stream : List (List D) → Sent D
  dimensions : (input hidden output : ℕ) → Sent D
  counts : (requests : ℕ) → Sent D
  figures : (latencies sizes requests predictions : ℕ) → Sent D

-- What the handlers share and change: the windows of the tokens, the buckets of the clients, and the
-- counters of `GET /metrics`.
pub record Shared (D : Type 0) : Type 0 where
  pub windows : Windows
  pub buckets : List ℕ → Bucket D
  pub pred_requests : ℕ
  pub size_buckets : List (ℕ × ℕ)
  pub lat_buckets : List (D × ℕ)

-- How a handler ends: an exception that no one catches ends the program.
pub data Handled (D : Type 0) : Type 0 where
  crashed : Handled D
  done : Shared D → List (Sent D) → Handled D

-- The options of the program and its environment.
pub record Settings (D : Type 0) : Type 0 where
  pub token : List ℕ
  pub allowed : List (List ℕ)
  pub limit : ℕ
  pub window : ℕ
  pub rate : ℤ
  pub burst : ℤ
  pub max_body : ℕ
  pub quantize_env : Bool

-- What a handler finds in the world: the client's address and the clocks.
pub record Moment (D : Type 0) : Type 0 where
  pub ip : List ℕ
  pub seconds : ℕ
  pub now_ms : ℕ
  pub elapsed : D

-- `for (auto &kv: buckets) if (… <= kv.first) { kv.second++; break; }`
unfoldable pub count_below : {K : Type 0} → (K → Bool) → List (K × ℕ) → List (K × ℕ)
count_below fits [] = []
count_below fits ((k, n) ∷ more) =
    let rest = count_below fits more in if fits k then (k, n + 1) ∷ more else (k, n) ∷ rest

-- `for(auto &kv: buckets){ … count += kv.second; … }`
abbrev pub count_all : {K : Type 0} → List (K × ℕ) → ℕ
count_all [] = 0
count_all ((k, n) ∷ more) = n + count_all more

abbrev pub authorization : List ℕ
authorization = codes "Authorization: Bearer "

-- Whether the head bears the token of the command line, if there is one.
unfoldable pub bears : List ℕ → List ℕ → Bool
unfolding has
bears [] head = true
bears (c ∷ token) head = has authorization head && has (authorization ++ (c ∷ token)) head

-- The token where one is asked for and the head has one, and else the address.
unfoldable pub bucket_key : List ℕ → List ℕ → List ℕ → List ℕ
unfolding value_of
bucket_key [] ip head = ip
bucket_key (c ∷ token) ip head = elim (value_of authorization head) [ none ↦ ip | some v ↦ v ]

-- `(size_t)`
abbrev pub size_of : ℤ → ℕ
size_of (pos n) = n
size_of (negsuc n) = 2 ^ 64 - 1 - n

-- The announced length, `none` where the number is none; `stoll` reads a number and what follows it.
unfoldable pub announced_length : (stoll : List ℕ → Option ℤ) → List ℕ → Option ℕ
unfolding at_word
announced_length stoll head = elim (at_word (codes "Content-Length:") head) [
  | none ↦ some 0
  | some rest ↦ elim (stoll (drop 15 rest)) [ none ↦ none | some n ↦ some (size_of n) ]
]

module _ {D : Type 0} ⦃d : Double D⦄ where
  abbrev pub labelled_row : Tensor2D D → ℕ → ℕ × List D
  labelled_row P i = (argmax P i, row_values P i P.cols)

  abbrev pub labelled_rows : Tensor2D D → ℕ → List (ℕ × List D)
  labelled_rows P zero = []
  labelled_rows P (suc n) = labelled_rows P n ++ (labelled_row P n ∷ [])

  -- `probs`. The bundle is copied and stays.
  abbrev pub probabilities : Backend D → Bool → Handle D → List (List D) → Tensor2D D
  probabilities e quantize_env b rows =
      let m = if quantize_env then enable_runtime_quantization b.model else b.model in
      let X = if b.has_scaler then transform b.scaler (rows_matrix rows) else rows_matrix rows in
      softmax (divided m.temperature (forward e m X).1)

  -- The answer to some rows.
  unfoldable pub predictions : Backend D → Bool → Handle D → List (List D) → List (ℕ × List D)
  predictions e quantize_env b rows =
      labelled_rows (probabilities e quantize_env b rows) (probabilities e quantize_env b rows).rows

  -- The handler from the body on: what is sent, and the shared state. The block of the bodies that begin
  -- with `{` ends behind the answer, so that another body is only answered `{"ok":true}`.
  unfoldable pub answer_body :
      Backend D
      → (stod : List ℕ → Option D) → Settings D
      → Handle D
      → Moment D
      → Shared D
      → List ℕ
      → Handled D
  answer_body e stod o b t s body =
      let s1 = record s { size_buckets = count_below (λ k. leb (length body) k) s.size_buckets } in
      let second = line_rows stod (fields newline [] body) in
      let too_long = (first_reading stod body).1 + second.1 in
      if not (is_json body) then done s1 (status 200 ∷ []) else (elim second.0 [
        | [] ↦ done s1 (replicate (too_long + 1) (status 400))
        | row ∷ more ↦
            done
              (record s1 {
                pred_requests = s1.pred_requests + 1;
                lat_buckets = count_below (λ k. d.le t.elapsed k) s1.lat_buckets;
              })
              (replicate too_long (status 400)
                ++ (labels (predictions e o.quantize_env b (row ∷ more)) ∷ []))
      ])

  -- From the bucket of the client on.
  unfoldable pub answer_client :
      Backend D
      → (stod : List ℕ → Option D) → (stoll : List ℕ → Option ℤ) → Settings D
      → Handle D
      → Moment D
      → Shared D
      → (head body : List ℕ) → Handled D
  answer_client e stod stoll o b t s head body =
      let key = bucket_key o.token t.ip head in
      let (bkt, has_token) =
        take_token (d.of_int o.burst) (d.of_int o.rate) t.now_ms (s.buckets key) in
      let s1 = record s { buckets = λ k. if same_text k key then bkt else s.buckets k } in
      if not has_token then done s1 (status 429 ∷ []) else (elim (announced_length stoll head) [
        | none ↦ crashed
        | some clen ↦
            if ltb o.max_body clen
            then done s1 (status 400 ∷ [])
            else answer_body e stod o b t s1 body
      ])

  -- An authorized request without the token of the command line gets no answer.
  unfoldable pub predict_request :
      Backend D
      → (stod : List ℕ → Option D) → (stoll : List ℕ → Option ℤ) → Settings D
      → Handle D
      → Moment D
      → Shared D
      → (req : List ℕ) → Handled D
  predict_request e stod stoll o b t s req =
      let head = head_of req in
      let authv = get_header (codes "Authorization: ") head in
      if not (is_authorized authv o.allowed)
      then done s (status 401 ∷ [])
      else let (windows, a) = rate_limit o.limit o.window s.windows authv t.seconds in
        let s1 = record s { windows = windows } in
        if refused a
        then done s1 (status 429 ∷ [])
        else if not (bears o.token head)
        then done s1 []
        else answer_client e stod stoll o b t s1 head (body_of req)
