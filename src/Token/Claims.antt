-- ===== src/Token/Claims.antt =====
-- src/app/serve.cpp: the claims of a token, `verify_jwt_claims`. Times are seconds.
use neuralware_x.Prelude.{
  ℕ, ◌+◌, ◌-◌, ◌*◌, ◌%◌, ltb, Bool, true, false, not, ◌&&◌, ◌||◌, Option, none, some, List, [], ◌∷◌,
  ◌++◌, ◌==◌, if◌then◌else◌,
}
use neuralware_x.Prelude.Int.{ℤ, pos, negsuc, ltb_ℤ, ◌+ℤ◌, ◌-ℤ◌}
use neuralware_x.Prelude.Text.{codes}
use neuralware_x.Json.{is_digit, same_text}
use neuralware_x.Token.{cut, at_word, parts_of}
use neuralware_x.Token.Base64.{decode_padded}

-- `has_kv` in the decoded claims: the text between the next two quotes behind the name and a colon.
unfoldable pub has_kv : (p k v : List ℕ) → Bool
unfolding at_word cut
has_kv p k v = elim (at_word (b'"' ∷ (k ++ (b'"' ∷ []))) p) [
  | none ↦ false
  | some s ↦ elim (cut b':' s) [
    | none ↦ false
    | some (_, s1) ↦ elim (cut b'"' s1) [
      | none ↦ false
      | some (_, s2) ↦ elim (cut b'"' s2) [ none ↦ false | some (w, _) ↦ same_text w v ]
    ]
  ]
]

unfoldable pub skip_blanks : List ℕ → List ℕ
skip_blanks [] = []
skip_blanks (c ∷ s) = let rest = skip_blanks s in if (c == b' ') || (c == 9) then rest else c ∷ s

-- `v = v * 10 + (p[i] - '0')` in a `long long`, as its 64 bits: the source has no bound on the digits, and
-- where the sum does not fit it is taken to wrap around.
abbrev pub word : ℕ
word = 18446744073709551616

unfoldable pub digits_value : ℕ → List ℕ → ℕ
digits_value v [] = v
digits_value v (c ∷ s) =
    let rest = digits_value ((v * 10 + (c - b'0')) % word) s in if is_digit c then rest else v

-- The number that the 64 bits stand for, and those of its negation.
abbrev pub as_long_long : ℕ → ℤ
as_long_long n = if ltb n 9223372036854775808 then pos n else negsuc (word - 1 - n)

abbrev pub negated : ℕ → ℕ
negated n = (word - n) % word

unfoldable pub signed_value : List ℕ → ℤ
unfolding digits_value
signed_value [] = pos 0
signed_value (c ∷ s) =
    if c == b'-'
    then as_long_long (negated (digits_value 0 s))
    else as_long_long (digits_value 0 (c ∷ s))

-- What follows the name, up to the number behind the next colon; 0 where there is none.
unfoldable pub number_behind : Option (List ℕ) → ℤ
unfolding cut skip_blanks signed_value
number_behind none = pos 0
number_behind (some s) = elim (cut b':' s) [
  | none ↦ pos 0
  | some (_, s1) ↦ signed_value (skip_blanks s1)
]

unfoldable pub find_num : (p k : List ℕ) → ℤ
unfolding at_word number_behind
find_num p k = number_behind (at_word (b'"' ∷ (k ++ (b'"' ∷ []))) p)

-- The environment: `NWX_JWT_ISS`, `NWX_JWT_AUD` and `NWX_JWT_LEEWAY_S`.
pub record Checks : Type 0 where
  pub iss : Option (List ℕ)
  pub aud : Option (List ℕ)
  pub leeway : ℤ

abbrev pub claims_text : Option (List ℕ) → (p k : List ℕ) → Bool
claims_text none p k = true
claims_text (some v) p k = has_kv p k v

abbrev pub is_zero : ℤ → Bool
is_zero (pos n) = n == 0
is_zero (negsuc n) = false

-- The tests on the decoded claims at the time `now_s`; its sums with the leeway are exact.
unfoldable pub check_claims : Checks → ℤ → List ℕ → Bool
check_claims env now_s p =
    let exp = find_num p (codes "exp") in
    let nbf = find_num p (codes "nbf") in
    if not (claims_text env.iss p (codes "iss"))
    then false
    else if not (claims_text env.aud p (codes "aud"))
    then false
    else if not (is_zero exp) && ltb_ℤ exp (now_s -ℤ env.leeway)
    then false
    else if not (is_zero nbf) && ltb_ℤ (now_s +ℤ env.leeway) nbf
    then false
    else true

unfoldable pub verify_jwt_claims : Checks → ℤ → List ℕ → Bool
unfolding parts_of decode_padded check_claims
verify_jwt_claims env now_s jwt = elim (parts_of jwt) [
  | none ↦ false
  | some p ↦ check_claims env now_s (decode_padded p.payload)
]
