-- ===== src/Json/Printed.antt =====
-- What `parse` makes of the text of an object without spaces.
use neuralware_x.Prelude.{
  ℕ, zero, suc, ◌<◌, ◌≤◌, ◌≡◌, ◌≢◌, refl, ◌∙◌, true, false, ◌||◌, Option, some, List, [], ◌∷◌, ◌++◌,
  ◌==◌, arith, length, length-append,
}
use neuralware_x.Json.{
  JsonValue, text_value, number_value, bool_value, Entries, quote, comma, colon, open_brace,
  close_brace, is_space, is_digit, is_sign, is_number_char, true_word, false_word, skip_ws,
  until_quote, number_chars, assign, after_value, string_member, number_member, parse_value,
  parse_colon, parse_key, parse_round, parse_rounds, parse, find,
}
use neuralware_x.Json.Entries.{assign_all, last_value, find-assign_last}

-- No character of the text is a quote.
abbrev pub NoQuote : List ℕ → Type 0
NoQuote [] = Unit
NoQuote (c ∷ w) = (c ≢ quote) × NoQuote w

abbrev pub AllNumberChars : List ℕ → Type 0
AllNumberChars [] = Unit
AllNumberChars (c ∷ w) = (is_number_char c ≡ true) × AllNumberChars w

until_quote-append : (w s : List ℕ) → NoQuote w → until_quote (w ++ (quote ∷ s)) ≡ some (w, s)
unfolding until_quote
until_quote-append [] s h = refl
until_quote-append (c ∷ w) s h =
    let other : (c == quote) ≡ false = ground (arith, h.0) in
    rw (until_quote, other, until_quote-append w s h.1) refl

number_chars-append :
    (w : List ℕ) (c : ℕ) (s : List ℕ)
    → AllNumberChars w
    → is_number_char c ≡ false
    → number_chars (w ++ (c ∷ s)) ≡ (w, c ∷ s)
unfolding number_chars
number_chars-append [] c s h stop = rw stop refl
number_chars-append (x ∷ w) c s h stop = rw (h.0, number_chars-append w c s h.1 stop) refl

skip_ws-none : (c : ℕ) (s : List ℕ) → is_space c ≡ false → skip_ws (c ∷ s) ≡ c ∷ s
unfolding skip_ws
skip_ws-none c s h = rw h refl

-- A character that ends a number and is not skipped.
record Ends (c : ℕ) : Type 0 where
  no_number : is_number_char c ≡ false
  no_space : is_space c ≡ false

module _ {D : Type 0} (stod : List ℕ → Option D) (text_of : D → ℕ × List ℕ) where
  -- How a number is printed: a digit or a sign, then characters of numbers, which `stod` reads back.
  pub record IsNumberText (x : D) : Type 0 where
    pub starts : (is_digit (text_of x).0 || is_sign (text_of x).0) ≡ true
    pub goes : AllNumberChars (text_of x).1
    pub read_back : stod ((text_of x).0 ∷ (text_of x).1) ≡ some x

  -- A value, then the rest of the text.
  abbrev pub print_value : JsonValue D → List ℕ → List ℕ
  print_value (text_value w) s = quote ∷ (w ++ (quote ∷ s))
  print_value (number_value x) s = (text_of x).0 ∷ ((text_of x).1 ++ s)
  print_value (bool_value true) s = true_word ++ s
  print_value (bool_value false) s = false_word ++ s

  abbrev pub IsPrintable : JsonValue D → Type 0
  IsPrintable (text_value w) = NoQuote w
  IsPrintable (number_value x) = IsNumberText x
  IsPrintable (bool_value b) = Unit

  abbrev pub print_member : List ℕ × JsonValue D → List ℕ → List ℕ
  print_member m s = quote ∷ (m.0 ++ (quote ∷ colon ∷ print_value m.1 s))

  -- The members from the first quote on, and the closing brace.
  abbrev pub print_members : List ℕ × JsonValue D → Entries D → List ℕ
  print_members m [] = print_member m (close_brace ∷ [])
  print_members m (m' ∷ ms) = print_member m (comma ∷ print_members m' ms)

  abbrev pub print_object : Entries D → List ℕ
  print_object [] = open_brace ∷ close_brace ∷ []
  print_object (m ∷ ms) = open_brace ∷ print_members m ms

  abbrev pub AllPrintable : Entries D → Type 0
  AllPrintable [] = Unit
  AllPrintable (m ∷ ms) = NoQuote m.0 × IsPrintable m.1 × AllPrintable ms

  number_start :
      (kv : Entries D) (key : List ℕ) (c : ℕ) (w rest s : List ℕ)
      → (is_digit c || is_sign c) ≡ true
      → number_chars (c ∷ s) ≡ (w, rest)
      → parse_value stod kv key (c ∷ s) ≡ number_member stod kv key (stod w) rest
  unfolding parse_value
  number_start kv key c w rest s h span =
      let other : (c == quote) ≡ false = ground arith in rw (span, other, h) refl

  parse_value-print_value :
      (kv : Entries D) (key : List ℕ) (v : JsonValue D) (c : ℕ) (s : List ℕ)
      → IsPrintable v
      → Ends c
      → parse_value stod kv key (print_value v (c ∷ s)) ≡ after_value stod (assign kv key v) (c ∷ s)
  unfolding parse_value string_member number_member
  parse_value-print_value kv key (text_value w) c s h end =
      rw (until_quote-append w (c ∷ s) h, skip_ws-none c s end.no_space) refl
  parse_value-print_value kv key (number_value x) c s h end =
      let digits : AllNumberChars ((text_of x).0 ∷ (text_of x).1) =
        (ground (arith, h.starts), h.goes) in
      number_start kv key (text_of x).0 _ _ _ h.starts
        (number_chars-append ((text_of x).0 ∷ (text_of x).1) c s digits end.no_number)
      ∙ rw (h.read_back, skip_ws-none c s end.no_space) refl
  parse_value-print_value kv key (bool_value true) c s h end =
      rw (skip_ws-none c s end.no_space) refl
  parse_value-print_value kv key (bool_value false) c s h end =
      rw (skip_ws-none c s end.no_space) refl

  skip_ws-print_value :
      (v : JsonValue D) (s : List ℕ) → IsPrintable v → skip_ws (print_value v s) ≡ print_value v s
  skip_ws-print_value (text_value w) s h = skip_ws-none _ _ refl
  skip_ws-print_value (number_value x) s h = let start = h.starts in skip_ws-none _ _ (ground arith)
  skip_ws-print_value (bool_value true) s h = skip_ws-none _ _ refl
  skip_ws-print_value (bool_value false) s h = skip_ws-none _ _ refl

  -- A round on a printed member.
  parse_round-print_member :
      (kv : Entries D) (m : List ℕ × JsonValue D) (c : ℕ) (s : List ℕ)
      → NoQuote m.0
      → IsPrintable m.1
      → Ends c
      → parse_round stod kv (skip_ws (print_member m (c ∷ s)))
        ≡ after_value stod (assign kv m.0 m.1) (c ∷ s)
  unfolding parse_round parse_key parse_colon
  parse_round-print_member kv m c s key_ok value_ok end =
      rw
        (
          skip_ws-none quote (m.0 ++ (quote ∷ colon ∷ print_value m.1 (c ∷ s))) refl,
          until_quote-append m.0 (colon ∷ print_value m.1 (c ∷ s)) key_ok,
          skip_ws-none colon (print_value m.1 (c ∷ s)) refl,
          skip_ws-print_value m.1 (c ∷ s) value_ok,
        )
        (parse_value-print_value kv m.0 m.1 c s value_ok end)

  comma-Ends : Ends comma
  comma-Ends = record { no_number = refl; no_space = refl }

  brace-Ends : Ends close_brace
  brace-Ends = record { no_number = refl; no_space = refl }

  parse_rounds-print_members :
      (fuel : ℕ) (kv : Entries D) (m : List ℕ × JsonValue D) (ms : Entries D)
      → AllPrintable (m ∷ ms)
      → length ms < fuel
      → parse_rounds stod fuel kv (print_members m ms) ≡ some (true, assign_all kv (m ∷ ms))
  unfolding parse_rounds
  parse_rounds-print_members zero kv m ms h more = absurd (omega arith)
  parse_rounds-print_members (suc fuel) kv m [] h more =
      rw (parse_rounds, parse_round-print_member kv m close_brace [] h.0 h.1 brace-Ends) refl
  parse_rounds-print_members (suc fuel) kv m (m' ∷ ms) h more =
      rw
        (parse_rounds, parse_round-print_member kv m comma (print_members m' ms) h.0 h.1 comma-Ends)
        (parse_rounds-print_members fuel (assign kv m.0 m.1) m' ms h.2 (omega arith))

  length-print_value : (v : JsonValue D) (s : List ℕ) → length s ≤ length (print_value v s)
  length-print_value (text_value w) s = omega (arith, length-append w (quote ∷ s))
  length-print_value (number_value x) s = omega (arith, length-append (text_of x).1 s)
  length-print_value (bool_value true) s = omega arith
  length-print_value (bool_value false) s = omega arith

  length-print_member :
      (m : List ℕ × JsonValue D) (s : List ℕ) → length s < length (print_member m s)
  length-print_member m s =
      omega (arith, length-append m.0 (quote ∷ colon ∷ print_value m.1 s), length-print_value m.1 s)

  length-print_members :
      (m : List ℕ × JsonValue D) (ms : Entries D) → length ms < length (print_members m ms)
  length-print_members m [] = omega arith
  length-print_members m (m' ∷ ms) =
      omega (arith, length-print_member m (comma ∷ print_members m' ms), length-print_members m' ms)

  parse-assign_all :
      (ms : Entries D)
      → AllPrintable ms
      → parse stod (print_object ms) ≡ some (true, assign_all [] ms)
  unfolding parse skip_ws parse_rounds parse_round
  parse-assign_all [] h = refl
  parse-assign_all (m ∷ ms) h =
      parse_rounds-print_members (length (print_members m ms)) [] m ms h (length-print_members m ms)

  -- The text of an object, printed without spaces, with no quote inside a key or a string and numbers
  -- that `stod` reads back, is accepted, and for every key the entries then hold the value of the last
  -- member with that key, or none if there is no such member.
  pub parse-print_object :
      (ms : Entries D)
      → AllPrintable ms
      → (kv : Entries D) × (parse stod (print_object ms) ≡ some (true, kv))
        × ((k : List ℕ) → find kv k ≡ last_value ms k)
  parse-print_object ms h = (assign_all [] ms, parse-assign_all ms h, find-assign_last ms)
