-- ===== src/Token/Validity.antt =====
-- From when until when a token is valid.
use mathlib.Core.List.{append-nil}
use neuralware_x.Prelude.{
  ℕ, ◌+◌, ◌-◌, ◌*◌, ◌/◌, ◌%◌, ◌≤◌, ◌<◌, ◌≡◌, refl, sym, ap, ◌∙◌, ◌↔◌, ◌⊎◌, true, false, ◌||◌, none,
  some, List, [], ◌∷◌, ◌++◌, ◌==◌, arith,
}
use neuralware_x.Prelude.Int.{pos, ◌+ℤ◌, ◌-ℤ◌}
use neuralware_x.Prelude.Text.{codes}
use neuralware_x.Json.{is_digit}
use neuralware_x.Token.{at_word}
use neuralware_x.Token.Base64.{decode_padded}
use neuralware_x.Token.Base64.Decoded.{url_text, AreBytes, url_char-ne-dot, decode-url_text_padded}
use neuralware_x.Token.Accepted.{Without, token_text, parts_of-token_text}
use neuralware_x.Token.Claims.{
  Checks, word, as_long_long, skip_blanks, digits_value, signed_value, number_behind, find_num,
  check_claims, verify_jwt_claims,
}

abbrev pub AreDigits : List ℕ → Type 0
AreDigits [] = Unit
AreDigits (d ∷ ds) = (is_digit d ≡ true) × AreDigits ds

-- The claims `{"exp":…,"nbf":…`, and what follows them.
abbrev pub claims_of : (exp nbf more : List ℕ) → List ℕ
claims_of exp nbf more = codes "{\"exp\":" ++ (exp ++ (codes ",\"nbf\":" ++ (nbf ++ more)))

digits_value-append :
    (v : ℕ) (ds : List ℕ) (c : ℕ) (s : List ℕ)
    → AreDigits ds
    → is_digit c ≡ false
    → digits_value v (ds ++ (c ∷ s)) ≡ digits_value v ds
unfolding digits_value
digits_value-append v [] c s h e = rw e refl
digits_value-append v (d ∷ ds) c s (h, hs) e =
    rw (h, digits_value-append ((v * 10 + (d - b'0')) % word) ds c s hs e) refl

-- The number that some digits spell, behind the number `v`.
abbrev pub decimal : ℕ → List ℕ → ℕ
decimal v [] = v
decimal v (d ∷ ds) = decimal (v * 10 + (d - b'0')) ds

decimal-ge : (v : ℕ) (ds : List ℕ) → v ≤ decimal v ds
decimal-ge v [] = omega arith
decimal-ge v (d ∷ ds) = omega (arith, decimal-ge (v * 10 + (d - b'0')) ds)

-- Where the number fits, nothing wraps around.
digits_value-decimal :
    (v : ℕ) (ds : List ℕ) → AreDigits ds → decimal v ds < word → digits_value v ds ≡ decimal v ds
unfolding digits_value
digits_value-decimal v [] h fits = refl
digits_value-decimal v (d ∷ ds) (h, hs) fits =
    let below : v * 10 + (d - b'0') < word = omega (arith, decimal-ge (v * 10 + (d - b'0')) ds) in
    let same : (v * 10 + (d - b'0')) % word ≡ v * 10 + (d - b'0') = omega arith in
    rw (h, same, digits_value-decimal (v * 10 + (d - b'0')) ds hs fits) refl

-- The numbers of a `long long`.
abbrev pub FitsLong : ℕ → Type 0
FitsLong n = n < 9223372036854775808

as_long_long-small : (n : ℕ) → FitsLong n → as_long_long n ≡ pos n
as_long_long-small n h = ground arith

signed_value-digits :
    (d : ℕ) (ds : List ℕ) (c : ℕ) (s : List ℕ)
    → AreDigits (d ∷ ds)
    → is_digit c ≡ false
    → FitsLong (decimal 0 (d ∷ ds))
    → signed_value (skip_blanks (d ∷ (ds ++ (c ∷ s)))) ≡ pos (decimal 0 (d ∷ ds))
unfolding signed_value skip_blanks
signed_value-digits d ds c s h e fits =
    let no_minus : (d == b'-') ≡ false = ground (arith, h.0) in
    let no_blank : ((d == b' ') || (d == 9)) ≡ false = ground (arith, h.0) in
    let value =
      digits_value-append 0 (d ∷ ds) c s h e
      ∙ digits_value-decimal 0 (d ∷ ds) h (omega (arith, fits)) in
    rw (no_blank, no_minus) (ap as_long_long value ∙ as_long_long-small (decimal 0 (d ∷ ds)) fits)

-- A word that begins with a quote is not found inside digits.
at_word-digits :
    (w ds s : List ℕ) → AreDigits ds → at_word (b'"' ∷ w) (ds ++ s) ≡ at_word (b'"' ∷ w) s
unfolding at_word
at_word-digits w [] s h = refl
at_word-digits w (d ∷ ds) s (h, hs) =
    let other : (b'"' == d) ≡ false = ground (arith, h) in rw (other, at_word-digits w ds s hs) refl

module _ (e : ℕ) (es : List ℕ) (n : ℕ) (ns : List ℕ) (c : ℕ) (more : List ℕ)
    (exp_digits : AreDigits (e ∷ es)) (nbf_digits : AreDigits (n ∷ ns)) (ends : is_digit c ≡ false)
    (exp_fits : FitsLong (decimal 0 (e ∷ es))) (nbf_fits : FitsLong (decimal 0 (n ∷ ns))) where
  find_num-exp :
      find_num (claims_of (e ∷ es) (n ∷ ns) (c ∷ more)) (codes "exp") ≡ pos (decimal 0 (e ∷ es))
  unfolding find_num
  find_num-exp = signed_value-digits e es b',' _ exp_digits refl exp_fits

  at_word-nbf :
      at_word (codes "\"nbf\"") (claims_of (e ∷ es) (n ∷ ns) (c ∷ more))
      ≡ some (codes "\"nbf\":" ++ (n ∷ (ns ++ (c ∷ more))))
  unfolding at_word
  at_word-nbf = at_word-digits (codes "nbf\"") (e ∷ es) _ exp_digits

  find_num-nbf :
      find_num (claims_of (e ∷ es) (n ∷ ns) (c ∷ more)) (codes "nbf") ≡ pos (decimal 0 (n ∷ ns))
  unfolding find_num
  find_num-nbf =
      ap number_behind at_word-nbf ∙ signed_value-digits n ns c more nbf_digits ends nbf_fits

abbrev pub no_names : ℕ → Checks
no_names leeway = record { iss = none; aud = none; leeway = pos leeway }

within_time :
    (leeway now exp nbf : ℕ) (p : List ℕ)
    → find_num p (codes "exp") ≡ pos exp
    → find_num p (codes "nbf") ≡ pos nbf
    → (check_claims (no_names leeway) (pos now) p ≡ true)
      ↔ (((exp ≡ 0) ⊎ (now ≤ exp + leeway)) × ((nbf ≡ 0) ⊎ (nbf ≤ now + leeway)))
unfolding check_claims ◌+ℤ◌ ◌-ℤ◌
within_time leeway now exp nbf p e e' = rw (e, e', check_claims) (ground arith)

Without-url_text : (bs : List ℕ) → AreBytes bs → Without b'.' (url_text bs)
unfolding url_text
Without-url_text [] h = tt
Without-url_text (a ∷ []) h =
    (url_char-ne-dot (a / 4) (omega arith), (url_char-ne-dot (a % 4 * 16) (omega arith), tt))
Without-url_text (a ∷ b ∷ []) h = ground (
  arith,
  url_char-ne-dot (a / 4) (omega arith),
  url_char-ne-dot (a % 4 * 16 + b / 16) (omega arith),
  url_char-ne-dot (b % 16 * 4) (omega arith),
)
Without-url_text (a ∷ b ∷ c ∷ bs) (ha, (hb, (hc, h))) = ground (
  arith,
  url_char-ne-dot (a / 4) (omega arith),
  url_char-ne-dot (a % 4 * 16 + b / 16) (omega arith),
  url_char-ne-dot (b % 16 * 4 + c / 64) (omega arith),
  url_char-ne-dot (c % 64) (omega arith),
  Without-url_text bs h,
)

digits-AreBytes : (ds : List ℕ) → AreDigits ds → AreBytes ds
digits-AreBytes [] h = tt
digits-AreBytes (d ∷ ds) (h, hs) = (ground arith, digits-AreBytes ds hs)

AreBytes-append : (xs ys : List ℕ) → AreBytes xs → AreBytes ys → AreBytes (xs ++ ys)
AreBytes-append [] ys h k = k
AreBytes-append (x ∷ xs) ys (h, hs) k = (h, AreBytes-append xs ys hs k)

claims_of-AreBytes :
    (exp nbf more : List ℕ)
    → AreDigits exp
    → AreDigits nbf
    → AreBytes more
    → AreBytes (claims_of exp nbf more)
claims_of-AreBytes exp nbf more h h' k = AreBytes-append (codes "{\"exp\":") _ (omega arith) (
    AreBytes-append exp _ (digits-AreBytes exp h) (
      AreBytes-append (codes ",\"nbf\":") _ (omega arith)
        (AreBytes-append nbf more (digits-AreBytes nbf h') k)))

-- Where neither issuer nor audience is configured, a token that carries the claims
-- `{"exp":E,"nbf":N` and more, in base64url, passes `verify_jwt_claims` exactly when it has not expired
-- and has begun: E is 0 or the time is at most E and the leeway, and N is 0 or at most the time and
-- the leeway, if E, N and the time with the leeway are below 2^63, as a `long long` holds them.
pub verify_jwt_claims_iff :
    (leeway now : ℕ) (header signature : List ℕ) (e : ℕ) (es : List ℕ) (n : ℕ) (ns : List ℕ) (c : ℕ)
    (more : List ℕ)
    → Without b'.' header
    → AreDigits (e ∷ es)
    → AreDigits (n ∷ ns)
    → is_digit c ≡ false
    → AreBytes (c ∷ more)
    → FitsLong (decimal 0 (e ∷ es))
    → FitsLong (decimal 0 (n ∷ ns))
    → FitsLong (now + leeway)
    → let exp = decimal 0 (e ∷ es) in
      let nbf = decimal 0 (n ∷ ns) in
      let payload = url_text (claims_of (e ∷ es) (n ∷ ns) (c ∷ more)) in
      (verify_jwt_claims
          (no_names leeway)
          (pos now)
          (token_text (record { header = header; payload = payload; signature = signature }))
        ≡ true)
      ↔ (((exp ≡ 0) ⊎ (now ≤ exp + leeway)) × ((nbf ≡ 0) ⊎ (nbf ≤ now + leeway)))
unfolding verify_jwt_claims
verify_jwt_claims_iff leeway now header signature e es n ns c more dotless he hn hc hm exp_fits
      nbf_fits now_fits =
    let p = claims_of (e ∷ es) (n ∷ ns) (c ∷ more) in
    let bytes = claims_of-AreBytes (e ∷ es) (n ∷ ns) (c ∷ more) he hn hm in
    let decoded : decode_padded (url_text p) ≡ p =
      ap decode_padded (sym (append-nil (url_text p))) ∙ (decode-url_text_padded p 0 bytes).1 in
    rw
      (
        parts_of-token_text
            (record { header = header; payload = url_text p; signature = signature }) dotless
            (Without-url_text p bytes),
        verify_jwt_claims,
        decoded,
      )
      (within_time leeway now _ _ p (find_num-exp e es n ns c more he hn hc exp_fits nbf_fits)
        (find_num-nbf e es n ns c more he hn hc exp_fits nbf_fits))
