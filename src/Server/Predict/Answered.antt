-- ===== src/Server/Predict/Answered.antt =====
-- Who gets predictions from `POST /predict`.
use neuralware_x.Prelude.{
  ℕ, zero, suc, ◌+◌, ◌≡◌, refl, sym, ap, ◌∙◌, inl, inr, Bool, Bool-cases, Option-cases, true, false,
  not, ◌&&◌, ◌||◌, length, Option, none, some, List, [], ◌∷◌, ◌++◌, ltb, replicate,
}
use neuralware_x.Prelude.Int.{ℤ}
use neuralware_x.Prelude.Text.{codes}
use neuralware_x.Double.{Double}
use neuralware_x.Tensor.{Backend}
use neuralware_x.Capi.{Handle}
use neuralware_x.Token.{is_authorized}
use neuralware_x.Server.{rate_limit}
use neuralware_x.Server.Requests.{take_token}
use neuralware_x.Server.Stream.{refused}
use neuralware_x.Server.Http.{head_of, body_of, get_header}
use neuralware_x.Io.Csv.{fields, newline}
use neuralware_x.Server.Body.{first_reading, line_rows, is_json}
use neuralware_x.Server.Predict.{
  Sent, status, labels, Shared, Handled, crashed, done, Settings, Moment, bears, bucket_key,
  announced_length, answer_body, answer_client, predict_request,
}

abbrev pub has_labels : {D : Type 0} → List (Sent D) → Bool
has_labels [] = false
has_labels (labels rows ∷ sent) = true
has_labels (_ ∷ sent) = has_labels sent

-- Some predictions are sent.
abbrev pub predicts : {D : Type 0} → Handled D → Bool
predicts crashed = false
predicts (done s sent) = has_labels sent

abbrev pub has_rows : {A : Type 0} → List A → Bool
has_rows [] = false
has_rows (_ ∷ _) = true

-- A line that is not empty and not too long.
abbrev pub has_short_line : List (List ℕ) → Bool
has_short_line [] = false
has_short_line ([] ∷ lines) = has_short_line lines
has_short_line ((c ∷ line) ∷ lines) = not (ltb 4096 (length (c ∷ line))) || has_short_line lines

-- A body that is read, and has something to read.
abbrev pub is_answerable : List ℕ → Bool
is_answerable body = is_json body && has_short_line (fields newline [] body)

abbrev pub fits : ℕ → Option ℕ → Bool
fits max_body none = false
fits max_body (some clen) = not (ltb max_body clen)

has_labels-replicate :
    {D : Type 0} (n : ℕ) (sent : List (Sent D))
    → has_labels (replicate n (status 400) ++ sent) ≡ has_labels sent
has_labels-replicate zero sent = refl
has_labels-replicate (suc n) sent = has_labels-replicate n sent

has_labels-refused : (D : Type 0) (n : ℕ) → has_labels {D = D} (replicate n (status 400)) ≡ false
has_labels-refused D zero = refl
has_labels-refused D (suc n) = has_labels-refused D n

module _ {D : Type 0} ⦃d : Double D⦄ (e : Backend D) (stod : List ℕ → Option D)
    (stoll : List ℕ → Option ℤ) (o : Settings D) (b : Handle D) (t : Moment D) where
  line_rows-has_rows :
      (lines : List (List ℕ)) → has_rows (line_rows stod lines).0 ≡ has_short_line lines
  unfolding line_rows
  line_rows-has_rows [] = refl
  line_rows-has_rows ([] ∷ lines) = line_rows-has_rows lines
  line_rows-has_rows ((c ∷ line) ∷ lines) = elim (Bool-cases (ltb 4096 (length (c ∷ line)))) [
    | inl long ↦ rw long (line_rows-has_rows lines)
    | inr short ↦ rw short refl
  ]

  answer_body-object :
      (s : Shared D) (body : List ℕ) (rows : List (List D))
      → is_json body ≡ true
      → (line_rows stod (fields newline [] body)).0 ≡ rows
      → predicts (answer_body e stod o b t s body) ≡ has_rows rows
  unfolding answer_body
  answer_body-object s body [] object r =
      rw (object, r, answer_body)
        (has_labels-refused D
          ((first_reading stod body).1 + (line_rows stod (fields newline [] body)).1 + 1))
  answer_body-object s body (row ∷ more) object r =
      rw (object, r, answer_body) (has_labels-replicate ((first_reading stod body).1 + _) _)

  answer_body-other :
      (s : Shared D) (body : List ℕ)
      → is_json body ≡ false
      → predicts (answer_body e stod o b t s body) ≡ false
  unfolding answer_body
  answer_body-other s body other = rw (other, answer_body) refl

  answer_body-predicts :
      (s : Shared D) (body : List ℕ)
      → predicts (answer_body e stod o b t s body) ≡ is_answerable body
  answer_body-predicts s body =
      let short = has_short_line (fields newline [] body) in
      elim (Bool-cases (is_json body)) [
        | inr other ↦ answer_body-other s body other ∙ sym (ap (λ c. c && short) other)
        | inl object ↦
            answer_body-object s body _ object refl
            ∙ line_rows-has_rows (fields newline [] body)
            ∙ sym (ap (λ c. c && short) object)
      ]

  answer_client-predicts :
      (s : Shared D) (head body : List ℕ)
      → predicts (answer_client e stod stoll o b t s head body) ≡ (
          (take_token
            (d.of_int o.burst)
            (d.of_int o.rate)
            t.now_ms
            (s.buckets (bucket_key o.token t.ip head))).1
          && (fits o.max_body (announced_length stoll head) && is_answerable body))
  unfolding answer_client
  answer_client-predicts s head body =
      let took =
        take_token (d.of_int o.burst) (d.of_int o.rate) t.now_ms
          (s.buckets (bucket_key o.token t.ip head)) in
      elim (Bool-cases took.1) [
        | inr empty ↦ rw (empty, answer_client) refl
        | inl token ↦ elim (Option-cases (announced_length stoll head)) [
          | inl no_number ↦ rw (token, no_number, answer_client) refl
          | inr (clen, announced) ↦ elim (Bool-cases (ltb o.max_body clen)) [
            | inl large ↦ rw (token, announced, large, answer_client) refl
            | inr small ↦ rw (token, announced, small, answer_client) (answer_body-predicts _ body)
          ]
        ]
      ]

  pub predict_request-predicts :
      (s : Shared D) (req : List ℕ)
      → let head = head_of req in
        let authv = get_header (codes "Authorization: ") head in
        predicts (predict_request e stod stoll o b t s req) ≡ (
          is_authorized authv o.allowed
          && (not (refused (rate_limit o.limit o.window s.windows authv t.seconds).1)
              && (bears o.token head
                  && ((take_token
                        (d.of_int o.burst)
                        (d.of_int o.rate)
                        t.now_ms
                        (s.buckets (bucket_key o.token t.ip head))).1
                      && (fits o.max_body (announced_length stoll head)
                          && is_answerable (body_of req))))))
  unfolding predict_request
  predict_request-predicts s req =
      let head = head_of req in
      let authv = get_header (codes "Authorization: ") head in
      elim (Bool-cases (is_authorized authv o.allowed)) [
        | inr out ↦ rw (out, predict_request) refl
        | inl inside ↦
            elim (Bool-cases (refused (rate_limit o.limit o.window s.windows authv t.seconds).1)) [
              | inl full ↦ rw (inside, full, predict_request) refl
              | inr free ↦ elim (Bool-cases (bears o.token head)) [
                | inr other ↦ rw (inside, free, other, predict_request) refl
                | inl same ↦
                    rw (inside, free, same, predict_request)
                      (answer_client-predicts _ head (body_of req))
              ]
            ]
      ]
