-- ===== src/Server/Http.antt =====
-- src/app/serve.cpp: a request taken apart, its head and body, header values, and the route. A request is the
-- list of its bytes.
use Prim.Native.Nat.{bit_xor}
use neuralware_x.Prelude.{
  ℕ, zero, suc, ◌+◌, ◌-◌, ◌*◌, ◌/◌, ◌%◌, ◌^◌, ltb, Bool, true, false, ◌&&◌, Option, none, some,
  List, [], ◌∷◌, ◌++◌, if◌then◌else◌, length, drop,
}
use neuralware_x.Prelude.Text.{codes}
use neuralware_x.Json.{begins}
use neuralware_x.Token.{at_word}

abbrev pub line_end : List ℕ
line_end = 13 ∷ 10 ∷ []

abbrev pub blank_line : List ℕ
blank_line = 13 ∷ 10 ∷ 13 ∷ 10 ∷ []

-- `s.find(word) != npos`
unfoldable pub has : List ℕ → List ℕ → Bool
unfolding at_word
has word s = elim (at_word word s) [ none ↦ false | some _ ↦ true ]

-- `s.substr(0, s.find(word))`, all of it where the word is not found.
unfoldable pub up_to : List ℕ → List ℕ → List ℕ
up_to word [] = []
up_to word (c ∷ s) = let rest = up_to word s in if begins word (c ∷ s) then [] else c ∷ rest

-- `head` is the request with the blank line, if there is one, and without what follows it.
unfoldable pub head_of : List ℕ → List ℕ
unfolding has up_to
head_of req = if has blank_line req then up_to blank_line req ++ blank_line else req

unfoldable pub body_of : List ℕ → List ℕ
unfolding at_word
body_of req = elim (at_word blank_line req) [ none ↦ [] | some rest ↦ drop 4 rest ]

-- The value behind a key, up to the end of its line.
unfoldable pub value_of : List ℕ → List ℕ → Option (List ℕ)
unfolding at_word up_to
value_of key head = elim (at_word key head) [
  | none ↦ none
  | some rest ↦ some (up_to line_end (drop (length key) rest))
]

-- `get_header`: the empty text where the key is not found.
unfoldable pub get_header : List ℕ → List ℕ → List ℕ
unfolding value_of
get_header key head = elim (value_of key head) [ none ↦ [] | some v ↦ v ]

-- `req.replace(0, req.find('\r\n'), "POST /predict HTTP/1.1")`; the literal of two characters has the
-- line feed for its value as a `char`.
unfoldable pub as_predict : List ℕ → List ℕ
unfolding up_to
as_predict req = codes "POST /predict HTTP/1.1" ++ drop (length (up_to (10 ∷ []) req)) req

-- The paths of KServe and TensorFlow Serving become `/predict`.
unfoldable pub rewritten : List ℕ → List ℕ
unfolding has as_predict
rewritten req =
    if begins (codes "POST /v2/models/") req && has (codes "/infer") req
    then as_predict req
    else if begins (codes "POST /v1/models/") req && has (codes ":predict") req
    then as_predict req
    else req

-- A hexadecimal digit, and a number below `16 ^ fuel` in hexadecimal.
abbrev pub hex_digit : ℕ → ℕ
hex_digit n = if ltb n 10 then b'0' + n else b'a' + (n - 10)

unfoldable pub hex_text : ℕ → ℕ → List ℕ
hex_text zero n = []
hex_text (suc fuel) n =
    let more = hex_text fuel (n / 16) ++ (hex_digit (n % 16) ∷ []) in
    if ltb n 16 then hex_digit n ∷ [] else more

-- The loop over the bytes, on 64 bits.
unfoldable pub hash_bytes : ℕ → List ℕ → ℕ
hash_bytes h [] = h
hash_bytes h (c ∷ s) = hash_bytes ((bit_xor h c * 1099511628211) % 2 ^ 64) s

-- The size is written in hexadecimal too.
unfoldable pub weak_etag_from : List ℕ → List ℕ
unfolding hex_text hash_bytes
weak_etag_from s =
    codes "W/\""
    ++ (hex_text 16 (hash_bytes 1469598103934665603 s)
        ++ (b'-' ∷ (hex_text 16 (length s) ++ (b'"' ∷ []))))

pub data Route : Type 0 where
  healthz readyz options stats signature modelcard buildinfo openapi metrics : Route
  reload validate predict_stream predict other : Route

-- The tests in their order.
unfoldable pub route_of : List ℕ → Route
route_of req =
    if begins (codes "GET /healthz") req
    then healthz
    else if begins (codes "GET /readyz") req
    then readyz
    else if begins (codes "OPTIONS ") req
    then options
    else if begins (codes "GET /stats") req
    then stats
    else if begins (codes "GET /signature") req
    then signature
    else if begins (codes "GET /modelcard") req
    then modelcard
    else if begins (codes "GET /buildinfo") req
    then buildinfo
    else if begins (codes "GET /openapi.yaml") req
    then openapi
    else if begins (codes "GET /metrics") req
    then metrics
    else if begins (codes "POST /reload") req
    then reload
    else if begins (codes "POST /validate") req
    then validate
    else if begins (codes "POST /predict/stream") req
    then predict_stream
    else if begins (codes "POST /predict") req
    then predict
    else other
