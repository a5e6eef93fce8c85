-- ===== src/Server/Predict/Posted.antt =====
-- An accepted request whose body is a table: the first reading finds the rows, the second one is used.
use neuralware_x.Prelude.{
  ℕ, ◌+◌, ◌≡◌, ◌≢◌, refl, ap, true, false, Option, some, List, [], ◌∷◌, ◌++◌, ltb, length, map,
  arith,
}
use neuralware_x.Prelude.Int.{ℤ}
use neuralware_x.Prelude.Text.{codes}
use neuralware_x.Double.{Double}
use neuralware_x.Tensor.{Backend}
use neuralware_x.Capi.{Handle}
use neuralware_x.Io.Csv.{fields, newline, comma}
use neuralware_x.Io.CsvText.{Without, fields-Without}
use neuralware_x.Token.{is_authorized}
use neuralware_x.Server.{rate_limit}
use neuralware_x.Server.Requests.{take_token}
use neuralware_x.Server.Stream.{refused}
use neuralware_x.Server.Columns.{more_numbers, row_text, more_rows, table_text}
use neuralware_x.Server.Http.{head_of, body_of, get_header}
use neuralware_x.Server.Body.{number_part, number_or_nought, first_reading, line_rows, is_json}
use neuralware_x.Server.Body.Table.{
  IsNumberText, AreNumberTexts, AreTableRows, values_of, first_reading-table_text,
}
use neuralware_x.Server.Predict.{
  labels, Shared, Handled, done, Settings, Moment, bears, bucket_key, announced_length, predictions,
  answer_body, answer_client, predict_request,
}

Without-append : (c : ℕ) (xs ys : List ℕ) → Without c xs → Without c ys → Without c (xs ++ ys)
Without-append c [] ys h k = k
Without-append c (x ∷ xs) ys (h, hs) k = (h, Without-append c xs ys hs k)

number_part-ne-newline : (c : ℕ) → number_part c ≡ true → c ≢ newline
number_part-ne-newline c h e = ground arith

number-Without : (w : List ℕ) → IsNumberText w → Without newline w
number-Without [] h = tt
number-Without (c ∷ w) (h, hs) = (number_part-ne-newline c h, number-Without w hs)

more_numbers-Without : (ws : List (List ℕ)) → AreNumberTexts ws → Without newline (more_numbers ws)
more_numbers-Without [] h = ((λ e. omega arith), tt)
more_numbers-Without (w ∷ ws) (ne, h, hs) = (
  λ e. omega arith,
  Without-append newline w (more_numbers ws) (number-Without w h) (more_numbers-Without ws hs),
)

row_text-Without :
    (r : List ℕ × List (List ℕ)) → AreNumberTexts (r.0 ∷ r.1) → Without newline (row_text r)
row_text-Without (w, ws) (ne, h, hs) = (
  λ e. omega arith,
  Without-append newline w (more_numbers ws) (number-Without w h) (more_numbers-Without ws hs),
)

more_rows-Without :
    (rs : List (List ℕ × List (List ℕ))) → AreTableRows rs → Without newline (more_rows rs)
more_rows-Without [] h = ((λ e. omega arith), ((λ e. omega arith), tt))
more_rows-Without (r ∷ rs) (h, hs) = (
  λ e. omega arith,
  Without-append newline (row_text r) (more_rows rs) (row_text-Without r h)
      (more_rows-Without rs hs),
)

opening-Without : Without newline (codes "{\"instances\":[")
opening-Without = omega arith

-- A posted table is one line.
table_text-line :
    (r : List ℕ × List (List ℕ)) (rs : List (List ℕ × List (List ℕ)))
    → AreTableRows (r ∷ rs)
    → fields newline [] (table_text r rs) ≡ table_text r rs ∷ []
table_text-line r rs (h, hs) = fields-Without newline b'{' _ (
    Without-append newline (codes "{\"instances\":[") (row_text r ++ more_rows rs) opening-Without (
      Without-append newline (row_text r) (more_rows rs) (row_text-Without r h)
        (more_rows-Without rs hs)))

module _ {D : Type 0} ⦃d : Double D⦄ (stod : List ℕ → Option D) where
  -- The row that the second reading makes of a text: the values of what stands between its commas.
  abbrev pub comma_row : List ℕ → List D
  comma_row text = map (number_or_nought stod) (fields comma [] text)

module _ {D : Type 0} ⦃d : Double D⦄ (e : Backend D) (stod : List ℕ → Option D)
    (stoll : List ℕ → Option ℤ) (o : Settings D) (b : Handle D) (t : Moment D) where
  -- One answer with the predictions, and one more of them counted.
  abbrev pub Answers : Shared D → List (List D) → Handled D → Type 0
  Answers s rows out =
      (s' : Shared D) × (out ≡ done s' (labels (predictions e o.quantize_env b rows) ∷ []))
      × (s'.pred_requests ≡ s.pred_requests + 1)

  answer_body-Answers :
      (s : Shared D) (body : List ℕ) (row : List D) (rows : List (List D))
      → is_json body ≡ true
      → (line_rows stod (fields newline [] body)).0 ≡ row ∷ rows
      → (line_rows stod (fields newline [] body)).1 ≡ 0
      → (first_reading stod body).1 ≡ 0
      → Answers s (row ∷ rows) (answer_body e stod o b t s body)
  unfolding answer_body
  answer_body-Answers s body row rows object h none_long g =
      rw (object, h, none_long, g, answer_body) (_, refl, refl)

  answer_client-Answers :
      (s : Shared D) (head body : List ℕ) (row : List D) (rows : List (List D)) (clen : ℕ)
      → (take_token
          (d.of_int o.burst)
          (d.of_int o.rate)
          t.now_ms
          (s.buckets (bucket_key o.token t.ip head))).1
        ≡ true
      → announced_length stoll head ≡ some clen
      → ltb o.max_body clen ≡ false
      → is_json body ≡ true
      → (line_rows stod (fields newline [] body)).0 ≡ row ∷ rows
      → (line_rows stod (fields newline [] body)).1 ≡ 0
      → (first_reading stod body).1 ≡ 0
      → Answers s (row ∷ rows) (answer_client e stod stoll o b t s head body)
  unfolding answer_client
  answer_client-Answers s head body row rows clen token announced small object h none_long g =
      rw (token, announced, small, answer_client)
        (answer_body-Answers _ body row rows object h none_long g)

  line_rows-table_text :
      (r : List ℕ × List (List ℕ)) (rs : List (List ℕ × List (List ℕ)))
      → AreTableRows (r ∷ rs)
      → ltb 4096 (length (table_text r rs)) ≡ false
      → line_rows stod (fields newline [] (table_text r rs))
        ≡ (comma_row stod (table_text r rs) ∷ [], 0)
  unfolding line_rows
  line_rows-table_text r rs table short = rw (table_text-line r rs table, short, line_rows) refl

  pub predict_request-table_text :
      (s : Shared D) (req : List ℕ) (r : List ℕ × List (List ℕ))
      (rs : List (List ℕ × List (List ℕ))) (clen : ℕ)
      → is_authorized (get_header (codes "Authorization: ") (head_of req)) o.allowed ≡ true
      → refused
          (rate_limit o.limit o.window s.windows
            (get_header (codes "Authorization: ") (head_of req))
            t.seconds).1
        ≡ false
      → bears o.token (head_of req) ≡ true
      → (take_token
          (d.of_int o.burst)
          (d.of_int o.rate)
          t.now_ms
          (s.buckets (bucket_key o.token t.ip (head_of req)))).1
        ≡ true
      → announced_length stoll (head_of req) ≡ some clen
      → ltb o.max_body clen ≡ false
      → body_of req ≡ table_text r rs
      → AreTableRows (r ∷ rs)
      → ltb 4096 (length (table_text r rs)) ≡ false
      → (first_reading stod (body_of req) ≡ (map (values_of stod) (r ∷ rs), 0))
        × Answers s
            (comma_row stod (table_text r rs) ∷ [])
            (predict_request e stod stoll o b t s req)
  unfolding predict_request
  predict_request-table_text s req r rs clen inside free same token announced small posted table
        short =
      let first = first_reading-table_text stod r rs table in
      let object : is_json (body_of req) ≡ true = rw posted refl in
      let second = line_rows-table_text r rs table short in
      (
        rw posted first,
        rw (inside, free, same, predict_request)
            (answer_client-Answers _ (head_of req) (body_of req) (comma_row stod (table_text r rs))
              [] clen token announced small object (rw posted (ap (λ x. x.0) second))
              (rw posted (ap (λ x. x.1) second)) (rw posted (ap (λ x. x.1) first))),
      )
