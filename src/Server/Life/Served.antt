-- ===== src/Server/Life/Served.antt =====
-- What one request does to the counters and the bundle.
use neuralware_x.Prelude.{
  ℕ, ◌+◌, ◌≤◌, ◌≡◌, ◌⊎◌, inl, inr, refl, List, Option, none, some, Bool-cases, arith,
}
use neuralware_x.Prelude.Int.{ℤ}
use neuralware_x.Double.{Double}
use neuralware_x.Tensor.{Backend}
use neuralware_x.Capi.{Handle}
use neuralware_x.Loading.{Loaded, loaded, missing, throws, unnamed_activation}
use neuralware_x.Server.{rate_limit}
use neuralware_x.Server.Http.{Route, route_of, rewritten, head_of, body_of, get_header}
use neuralware_x.Server.Stream.{refused}
use neuralware_x.Token.{is_authorized}
use neuralware_x.Prelude.Text.{codes}
use neuralware_x.Server.Predict.{
  Moment, Shared, Handled, crashed, done, Settings, bears, answer_body, answer_client,
  predict_request,
}
use neuralware_x.Server.Routes.{
  Setup, Files, State, Ended, ends, goes_on, read_bundle, after_reload, reload_request, with_shared,
  dispatch, too_large, serve_request,
}

module _ {D : Type 0} ⦃d : Double D⦄ where
  -- A handler that ends well counts one prediction at most.
  abbrev CountsOne : ℕ → Handled D → Type 0
  CountsOne n crashed = Unit
  CountsOne n (done s sent) = s.pred_requests ≤ n + 1

  module _ (e : Backend D) (stod : List ℕ → Option D) (stoll : List ℕ → Option ℤ) (o : Settings D)
      (b : Handle D) (t : Moment D) where
    answer_body-CountsOne :
        (s : Shared D) (body : List ℕ) → CountsOne s.pred_requests (answer_body e stod o b t s body)
    unfolding answer_body
    answer_body-CountsOne s body = ground arith

    answer_client-CountsOne :
        (s : Shared D) (head body : List ℕ)
        → CountsOne s.pred_requests (answer_client e stod stoll o b t s head body)
    unfolding answer_client
    answer_client-CountsOne s head body = grind (arith, answer_body-CountsOne)

    predict_request-CountsOne :
        (s : Shared D) (req : List ℕ)
        → CountsOne s.pred_requests (predict_request e stod stoll o b t s req)
    unfolding predict_request
    predict_request-CountsOne s req =
        let head = head_of req in
        let authv = get_header (codes "Authorization: ") head in
        let limited = rate_limit o.limit o.window s.windows authv t.seconds in
        elim (Bool-cases (is_authorized authv o.allowed)) [
          | inr out ↦ rw out (omega arith)
          | inl inside ↦ elim (Bool-cases (refused limited.1)) [
            | inl full ↦ rw (inside, full) (omega arith)
            | inr free ↦ elim (Bool-cases (bears o.token head)) [
              | inr no_token ↦ rw (inside, free, no_token) (omega arith)
              | inl has_token ↦
                  rw (inside, free, has_token)
                    (answer_client-CountsOne (record s { windows = limited.0 }) head (body_of req))
            ]
          ]
        ]

  -- What a request does to the counters and to the bundle.
  pub record IsServed (u : Setup D) (f : Files) (s s' : State D) : Type 0 where
    pub total_same : s'.total_requests ≡ s.total_requests
    pub pred_le : s'.shared.pred_requests ≤ s.shared.pred_requests + 1
    pub bundle_from : (s'.bundle ≡ s.bundle) ⊎ (read_bundle u.codec f.disk ≡ loaded s'.bundle)

  abbrev pub Serves : Setup D → Files → State D → Ended D → Type 0
  Serves u f s ends = Unit
  Serves u f s (goes_on s' sent) = IsServed u f s s'

  IsServed-same : (u : Setup D) (f : Files) (s : State D) → IsServed u f s s
  IsServed-same u f s = record { total_same = refl; pred_le = omega arith; bundle_from = inl refl }

  after_reload-Serves :
      (u : Setup D) (f : Files) (s : State D) (l : Loaded D)
      → read_bundle u.codec f.disk ≡ l
      → Serves u f s (after_reload l s)
  unfolding after_reload
  after_reload-Serves u f s (loaded h) e = record {
    total_same = refl;
    pred_le = omega arith;
    bundle_from = inr e;
  }
  after_reload-Serves u f s missing e = IsServed-same u f s
  after_reload-Serves u f s throws e = tt
  after_reload-Serves u f s unnamed_activation e = tt

  reload_request-Serves :
      (u : Setup D) (f : Files) (s : State D) (req authv : List ℕ)
      → Serves u f s (reload_request u f s req authv)
  unfolding reload_request
  reload_request-Serves u f s req authv = elim (Bool-cases (bears u.settings.token req)) [
    | inl has_token ↦ rw has_token (after_reload-Serves u f s (read_bundle u.codec f.disk) refl)
    | inr no_token ↦ elim (Bool-cases (is_authorized authv u.settings.allowed)) [
      | inl inside ↦ rw (no_token, inside) (IsServed-same u f s)
      | inr out ↦ rw (no_token, out) (IsServed-same u f s)
    ]
  ]

  with_shared-Serves :
      (u : Setup D) (f : Files) (s : State D) (h : Handled D)
      → CountsOne s.shared.pred_requests h
      → Serves u f s (with_shared s h)
  with_shared-Serves u f s crashed c = tt
  with_shared-Serves u f s (done shared sent) c = record {
    total_same = refl;
    pred_le = c;
    bundle_from = inl refl;
  }

  dispatch-Serves :
      (u : Setup D) (f : Files) (s : State D) (t : Moment D) (req : List ℕ) (r : Route)
      → Serves u f s (dispatch u f s t req r)
  unfolding dispatch
  dispatch-Serves u f s t req Route.reload = reload_request-Serves u f s req _
  dispatch-Serves u f s t req Route.predict =
      with_shared-Serves u f s _
        (predict_request-CountsOne u.backend u.stod u.stoll u.settings s.bundle t s.shared req)
  dispatch-Serves u f s t req Route.predict_stream = record {
    total_same = refl;
    pred_le = omega arith;
    bundle_from = inl refl;
  }
  dispatch-Serves u f s t req Route.healthz = IsServed-same u f s
  dispatch-Serves u f s t req _ = IsServed-same u f s

  abbrev pub counted : State D → State D
  counted s = record s { total_requests = s.total_requests + 1 }

  pub serve_request-Serves :
      (u : Setup D) (f : Files) (s : State D) (t : Moment D) (received : Option (List ℕ))
      → Serves u f (counted s) (serve_request u f s t received)
  unfolding serve_request
  serve_request-Serves u f s t none = IsServed-same u f (counted s)
  serve_request-Serves u f s t (some received) =
      let req = rewritten received in
      elim (Bool-cases (too_large u (head_of req))) [
        | inl large ↦ rw large (IsServed-same u f (counted s))
        | inr small ↦ rw small (dispatch-Serves u f (counted s) t req (route_of req))
      ]
