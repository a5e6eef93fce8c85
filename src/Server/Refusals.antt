-- ===== src/Server/Refusals.antt =====
-- Who is refused by `POST /predict/stream`.
use neuralware_x.Prelude.{
  ℕ, ◌≡◌, ◌≢◌, ◌↔◌, refl, ap, inl, inr, Bool, Bool-cases, true, false, Option-cases, List, ◌==◌,
  arith,
}
use neuralware_x.Prelude.Text.{codes}
use neuralware_x.Double.{Double}
use neuralware_x.Tensor.{Backend}
use neuralware_x.Capi.{Handle}
use neuralware_x.Token.{at_word, is_authorized}
use neuralware_x.Server.{Windows, rate_limit}
use neuralware_x.Server.Stream.{
  StreamReply, problem, sends, read_chars, no_reading, refused, stream_body, predict_stream_request,
}

status_of : {D : Type 0} → StreamReply D → ℕ
status_of (problem n) = n
status_of (sends rows) = 200

module _ {D : Type 0} ⦃d : Double D⦄ (e : Backend D) (quantize_env : Bool) (b : Handle D) where
  -- The body is the reason for 400 only.
  stream_body-status :
      (body : List ℕ)
      → (status_of (stream_body e quantize_env b body) ≢ 401)
        × (status_of (stream_body e quantize_env b body) ≢ 429)
  unfolding stream_body status_of
  stream_body-status body = elim (Option-cases (at_word (codes "instances") body)) [
    | inl o ↦ rw (o, stream_body) (ground arith)
    | inr (t, o) ↦ elim (Bool-cases ((read_chars body (no_reading ⦃d = d⦄)).shape.cols == 0)) [
      | inl z ↦ rw (o, stream_body, z) (ground arith)
      | inr z ↦ rw (o, stream_body, z) (ground arith)
    ]
  ]

  -- The answer is 401 exactly to a request that is not authorized, and 429 exactly to one that is authorized
  -- and that the limiter refuses, whatever is in the body.
  pub predict_stream_request-refusals :
      (limit window : ℕ) (counts : Windows) (allowed : List (List ℕ)) (now : ℕ)
      (authv body : List ℕ)
      → let reply =
          (predict_stream_request e quantize_env b limit window counts allowed now authv body).1 in
        ((reply ≡ problem 401) ↔ (is_authorized authv allowed ≡ false))
        × ((reply ≡ problem 429) ↔ (
            (is_authorized authv allowed ≡ true)
            × (refused (rate_limit limit window counts authv now).1 ≡ true)))
  unfolding predict_stream_request status_of
  predict_stream_request-refusals limit window counts allowed now authv body =
      let other = stream_body-status body in
      let not401 : stream_body e quantize_env b body ≢ problem 401 =
        λ q. other.0 (ap status_of q) in
      let not429 : stream_body e quantize_env b body ≢ problem 429 =
        λ q. other.1 (ap status_of q) in
      elim (Bool-cases (is_authorized authv allowed)) [
        | inr out ↦
            rw out (((λ _. refl), (λ _. refl)), ((λ q. absurd (ground arith)), (λ h. absurd (cc))))
        | inl inside ↦ elim (Bool-cases (refused (rate_limit limit window counts authv now).1)) [
          | inl full ↦
              rw (inside, full)
                (
                  ((λ q. absurd (ground arith)), (λ h. absurd (cc))),
                  ((λ _. (refl, refl)), (λ _. refl)),
                )
          | inr free ↦
              rw (inside, free)
                (
                  ((λ q. absurd (not401 q)), (λ h. absurd (cc))),
                  ((λ q. absurd (not429 q)), (λ h. absurd (cc))),
                )
        ]
      ]
