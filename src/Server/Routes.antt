-- ===== src/Server/Routes.antt =====
-- src/app/serve.cpp: one request, from its bytes to what is sent. `disk` is the model file, `card`
-- says whether the model card opens, and `openapi` is the text of the specification. The count of the
-- errors stands outside of every function of the source, and is left out too. The block of `GET /metrics`
-- is not closed before the routes behind it, which are read as alternatives to it.
use neuralware_x.Prelude.{
  ℕ, ◌+◌, Bool, true, false, not, Option, none, some, List, [], ◌∷◌, if◌then◌else◌,
}
use neuralware_x.Prelude.Int.{ℤ, ltb_ℤ}
use neuralware_x.Prelude.Text.{codes}
use neuralware_x.Double.{Double}
use neuralware_x.Tensor.{Backend}
use neuralware_x.Json.{same_text}
use neuralware_x.Capi.{Handle}
use neuralware_x.Io.Stream.{Codec}
use neuralware_x.Io.Bundle.{load_bundle}
use neuralware_x.Loading.{Loaded, loaded, missing, throws, unnamed_activation, fresh, handle_of}
use neuralware_x.Token.{is_authorized}
use neuralware_x.Server.Requests.{shape_status}
use neuralware_x.Server.Stream.{StreamReply, problem, sends, predict_stream_request}
use neuralware_x.Server.Http.{
  Route, route_of, rewritten, has, head_of, body_of, get_header, value_of, weak_etag_from,
}
use neuralware_x.Server.Predict.{
  Sent, status, stream, dimensions, counts, figures, count_all, Shared, Handled, crashed, done,
  Settings, Moment, bears, predict_request,
}

-- What the program asks of its libraries, and what it was started with.
pub record Setup (D : Type 0) : Type 0 where
  pub backend : Backend D
  pub codec : Codec D
  pub stod : List ℕ → Option D
  pub stoll : List ℕ → Option ℤ
  pub atoll : List ℕ → ℤ
  pub settings : Settings D
  pub largest : Option ℤ

-- The files as a request finds them.
pub record Files : Type 0 where
  pub disk : Option (List ℕ)
  pub card : Bool
  pub openapi : Option (List ℕ)

-- The bundle, the counters of all requests and the rest.
pub record State (D : Type 0) : Type 0 where
  pub bundle : Handle D
  pub total_requests : ℕ
  pub shared : Shared D

-- How a request ends: the program with it, or with the state and what is sent.
pub data Ended (D : Type 0) : Type 0 where
  ends : Ended D
  goes_on : State D → List (Sent D) → Ended D

-- 304 to a request that has the entity tag already.
unfoldable pub openapi_status : Option (List ℕ) → List ℕ → ℕ
unfolding value_of weak_etag_from
openapi_status none head = 404
openapi_status (some body) head = elim (value_of (codes "If-None-Match: ") head) [
  | none ↦ 200
  | some inm ↦ if same_text inm (weak_etag_from body) then 304 else 200
]

unfoldable pub validate_request : List ℕ → ℕ
unfolding has shape_status
validate_request body = if has (codes "instances") body then shape_status body else 400

module _ {D : Type 0} ⦃d : Double D⦄ where
  -- `ModelBundle nb; load_bundle(nb, model_on_disk)`
  unfoldable pub read_bundle : Codec D → Option (List ℕ) → Loaded D
  unfolding load_bundle handle_of
  read_bundle c disk = elim (load_bundle c fresh disk) [
    | none ↦ throws
    | some (false, _) ↦ missing
    | some (true, b) ↦ handle_of b
  ]

  -- An activation without a name is left out, as an end.
  unfoldable pub after_reload : Loaded D → State D → Ended D
  after_reload (loaded h) s = goes_on (record s { bundle = h }) (status 200 ∷ [])
  after_reload missing s = goes_on s (status 500 ∷ [])
  after_reload throws s = ends
  after_reload unnamed_activation s = ends

  -- The token of the command line is looked for in the whole request.
  unfoldable pub reload_request : Setup D → Files → State D → List ℕ → (authv : List ℕ) → Ended D
  unfolding bears read_bundle after_reload is_authorized
  reload_request u f s req authv =
      if bears u.settings.token req
      then after_reload (read_bundle u.codec f.disk) s
      else if not (is_authorized authv u.settings.allowed)
      then goes_on s (status 401 ∷ [])
      else goes_on s []

  abbrev pub sent_stream : StreamReply D → Sent D
  sent_stream (problem n) = status n
  sent_stream (sends rows) = stream rows

  -- `Content-Length` above `NWX_MAX_BODY`, where that is set.
  unfoldable pub too_large : Setup D → List ℕ → Bool
  unfolding value_of
  too_large u head = elim u.largest [
    | none ↦ false
    | some maxb ↦ elim (value_of (codes "Content-Length: ") head) [
      | none ↦ false
      | some v ↦ ltb_ℤ maxb (u.atoll v)
    ]
  ]

  abbrev pub with_shared : State D → Handled D → Ended D
  with_shared s crashed = ends
  with_shared s (done shared sent) = goes_on (record s { shared = shared }) sent

  abbrev pub stream_answer : Setup D → State D → Moment D → (authv body : List ℕ) → Ended D
  stream_answer u s t authv body =
      let o = u.settings in
      let (windows, reply) =
        predict_stream_request u.backend o.quantize_env s.bundle o.limit o.window s.shared.windows
          o.allowed t.seconds authv body in
      goes_on (record s { shared = record s.shared { windows = windows } }) (sent_stream reply ∷ [])

  unfoldable pub dispatch : Setup D → Files → State D → Moment D → (req : List ℕ) → Route → Ended D
  unfolding get_header head_of body_of predict_stream_request reload_request predict_request
      validate_request openapi_status
  dispatch u f s t req Route.healthz = goes_on s (status 200 ∷ [])
  dispatch u f s t req Route.readyz = goes_on s (status 200 ∷ [])
  dispatch u f s t req Route.options = goes_on s (status 204 ∷ [])
  dispatch u f s t req Route.stats = goes_on s (counts s.total_requests ∷ [])
  dispatch u f s t req Route.signature =
      let m = s.bundle.model in goes_on s (dimensions m.w1.cols m.w1.rows m.w2.cols ∷ [])
  dispatch u f s t req Route.modelcard = goes_on s (status (if f.card then 200 else 404) ∷ [])
  dispatch u f s t req Route.buildinfo = goes_on s (status 200 ∷ [])
  dispatch u f s t req Route.openapi =
      goes_on s (status (openapi_status f.openapi (head_of req)) ∷ [])
  dispatch u f s t req Route.metrics =
      let m = s.shared in
      goes_on s (
        figures (count_all m.lat_buckets) (count_all m.size_buckets) s.total_requests
          m.pred_requests
        ∷ [])
  dispatch u f s t req Route.reload =
      reload_request u f s req (get_header (codes "Authorization: ") (head_of req))
  dispatch u f s t req Route.validate = goes_on s (status (validate_request (body_of req)) ∷ [])
  dispatch u f s t req Route.predict_stream =
      stream_answer u s t (get_header (codes "Authorization: ") (head_of req)) (body_of req)
  dispatch u f s t req Route.predict =
      with_shared s (predict_request u.backend u.stod u.stoll u.settings s.bundle t s.shared req)
  dispatch u f s t req Route.other = goes_on s (status 200 ∷ [])

  -- One connection: a request that cannot be read is `none`.
  unfoldable pub serve_request : Setup D → Files → State D → Moment D → Option (List ℕ) → Ended D
  unfolding rewritten route_of too_large dispatch
  serve_request u f s t none =
      goes_on (record s { total_requests = s.total_requests + 1 }) (status 400 ∷ [])
  serve_request u f s t (some received) =
      let s1 = record s { total_requests = s.total_requests + 1 } in
      let req = rewritten received in
      if too_large u (head_of req)
      then goes_on s1 (status 413 ∷ [])
      else dispatch u f s1 t req (route_of req)
