-- ===== src/Server/Agreed.antt =====
-- The two places that find the shape of a posted table, `POST /validate` and `POST /predict/stream`.
use neuralware_x.Prelude.{
  ◌≡◌, ◌<◌, refl, ap, ◌∙◌, ◌⊎◌, inl, inr, ℕ, ◌+◌, Bool, Bool-cases, Option-cases, not, true, false,
  none, some, List, [], ◌∷◌, ◌==◌, if◌then◌else◌, arith,
}
use neuralware_x.Prelude.Text.{codes}
use neuralware_x.Double.{Double}
use neuralware_x.Tensor.{Backend}
use neuralware_x.Json.{is_digit}
use neuralware_x.Capi.{Handle}
use neuralware_x.Token.{at_word}
use neuralware_x.Server.Http.{has}
use neuralware_x.Server.Requests.{Shape, in_number, close_row, scan_char, scan, shape_status}
use neuralware_x.Server.Stream.{
  Reading, problem, sends, number_character, finish_row, flush_number, number_char, begin_number,
  read_char, read_chars, no_reading, stream_body,
}
use neuralware_x.Server.Routes.{validate_request}

number_character-eq-in_number : (c : ℕ) → number_character c ≡ in_number c
number_character-eq-in_number c = ground arith

finish_row-eq-close_row : (s : Shape) → finish_row s ≡ close_row s
finish_row-eq-close_row s = ground arith

-- Columns are found with the first row.
HasRow : Shape → Type 0
HasRow s = (s.cols ≡ 0) ⊎ (0 < s.rows)

scan_char-HasRow : (c : ℕ) (s : Shape) → HasRow s → HasRow (scan_char c s)
unfolding scan_char HasRow
scan_char-HasRow c s h = ground arith

scan-HasRow : (body : List ℕ) (s : Shape) → HasRow s → HasRow (scan body s)
unfolding scan
scan-HasRow [] s h = h
scan-HasRow (c ∷ body) s h = scan-HasRow body (scan_char c s) (scan_char-HasRow c s h)

-- The shape that `POST /validate` finds.
found : List ℕ → Shape
found body = scan body (record { rows = 0; cols = 0; cur = 0 })

found-HasRow : (body : List ℕ) → HasRow (found body)
unfolding found HasRow
found-HasRow body = scan-HasRow body (record { rows = 0; cols = 0; cur = 0 }) (inl refl)

validate_request-without :
    (body : List ℕ) → at_word (codes "instances") body ≡ none → validate_request body ≡ 400
unfolding validate_request has
validate_request-without body h = rw (h, validate_request, has) refl

validate_request-400 :
    (body rest : List ℕ)
    → at_word (codes "instances") body ≡ some rest
    → ((found body).cols == 0) ≡ true
    → validate_request body ≡ 400
unfolding validate_request has shape_status found
validate_request-400 body rest h no_cols = rw (h, no_cols, validate_request, has, shape_status) refl

validate_request-204 :
    (body rest : List ℕ)
    → at_word (codes "instances") body ≡ some rest
    → ((found body).cols == 0) ≡ false
    → validate_request body ≡ 204
unfolding validate_request has shape_status found HasRow
validate_request-204 body rest h some_cols =
    let row : ((found body).rows == 0) ≡ false = ground (arith, found-HasRow body) in
    rw (h, some_cols, row, validate_request, has, shape_status) refl

module _ {D : Type 0} ⦃d : Double D⦄ where
  if_shape :
      (b : Bool) (x y : Reading D) {z w : Shape}
      → x.shape ≡ z
      → y.shape ≡ w
      → (if b then x else y).shape ≡ (if b then z else w)
  if_shape true x y h g = h
  if_shape false x y h g = g

  either_shape :
      (b : Bool) (x y : Reading D) {z : Shape}
      → x.shape ≡ z
      → y.shape ≡ z
      → (if b then x else y).shape ≡ z
  either_shape true x y h g = h
  either_shape false x y h g = g

  number_char-shape : (c : ℕ) (s : Reading D) → (number_char c s).shape ≡ s.shape
  unfolding number_char
  number_char-shape c s =
      either_shape (c == b'.') _ _ refl
        (either_shape (not (is_digit c)) _ _ refl (either_shape s.fracm _ _ refl refl))

  read_char-shape : (c : ℕ) (s : Reading D) → (read_char c s).shape ≡ scan_char c s.shape
  unfolding read_char scan_char flush_number
  read_char-shape c s =
      let flushed : (if s.innum then flush_number s else s).shape ≡ s.shape =
        either_shape s.innum _ _ refl refl in
      let s1 = if s.innum then flush_number s else s in
      let ended = if c == b']' then close_row s.shape else s.shape in
      let closed =
        if_shape (c == b']') (record s1 { shape = finish_row s1.shape }) s1
          (finish_row-eq-close_row s1.shape ∙ ap close_row flushed) flushed in
      if_shape (number_character c) _ _
        (either_shape s.innum _ _ (number_char-shape c s)
          (either_shape (c == b'-') _ _ refl (number_char-shape c (begin_number s))))
        (if_shape (c == b',') _ _ (ap {A = Shape} (λ t. record t { cur = t.cur + 1 }) closed)
          closed)
      ∙ ap
          (λ b.
            if b
            then s.shape
            else if c == b','
            then record ended { cur = ended.cur + 1 }
            else ended)
          (number_character-eq-in_number c)

  -- The two scans find the same shape.
  read_chars-eq-scan :
      (body : List ℕ) (s : Reading D) → (read_chars body s).shape ≡ scan body s.shape
  unfolding read_chars scan
  read_chars-eq-scan [] s = refl
  read_chars-eq-scan (c ∷ body) s =
      read_chars-eq-scan body (read_char c s) ∙ ap (scan body) (read_char-shape c s)

  read_chars-found :
      (body : List ℕ) (s : Reading D)
      → s.shape ≡ record { rows = 0; cols = 0; cur = 0 }
      → (read_chars body s).shape ≡ found body
  unfolding found
  read_chars-found body s fresh = read_chars-eq-scan body s ∙ ap (scan body) fresh

  pub validate_request-stream_body :
      (e : Backend D) (quantize_env : Bool) (b : Handle D) (body : List ℕ)
      → ((validate_request body ≡ 400) × (stream_body e quantize_env b body ≡ problem 400))
        ⊎ ((validate_request body ≡ 204)
            × ((rows : List (List D)) × (stream_body e quantize_env b body ≡ sends rows)))
  unfolding stream_body
  validate_request-stream_body e quantize_env b body =
      let same = read_chars-found body (no_reading ⦃d = d⦄) refl in
      elim (Option-cases (at_word (codes "instances") body)) [
        | inl no_word ↦ inl (validate_request-without body no_word, rw (no_word, stream_body) refl)
        | inr (rest, word) ↦ elim (Bool-cases ((found body).cols == 0)) [
          | inl no_cols ↦ inl (
            validate_request-400 body rest word no_cols,
            rw (word, stream_body, same, no_cols) refl,
          )
          | inr some_cols ↦ inr (
            validate_request-204 body rest word some_cols,
            rw (word, stream_body, same, some_cols) (_, refl),
          )
        ]
      ]
