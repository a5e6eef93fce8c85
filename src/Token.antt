-- ===== src/Token.antt =====
-- src/app/serve.cpp: the bearer tokens of the server, signed ones (JWT) and listed ones. Text is a list
-- of byte values. The HMAC and the check of an RSA signature are OpenSSL's and so parameters.
pub mod Base64
pub mod Claims
pub mod Accepted
pub mod Validity
pub mod Listed
use neuralware_x.Prelude.{
  ℕ, Bool, true, false, ◌||◌, Option, none, some, List, [], ◌∷◌, ◌++◌, ◌==◌, if◌then◌else◌, length,
  drop,
}
use neuralware_x.Prelude.Text.{codes}
use neuralware_x.Json.{begins, same_text}
use neuralware_x.Token.Base64.{decode, decode_padded}

-- What stands before the first `c` and what follows it: `find`, and `substr` on each side.
unfoldable pub cut : ℕ → List ℕ → Option (List ℕ × List ℕ)
cut c [] = none
cut c (x ∷ s) =
    if x == c
    then some ([], s)
    else (elim (cut c s) [ none ↦ none | some (w, rest) ↦ some (x ∷ w, rest) ])

-- The text from the first occurrence of a word on.
unfoldable pub at_word : List ℕ → List ℕ → Option (List ℕ)
at_word w [] = if begins w [] then some [] else none
at_word w (x ∷ s) = let rest = at_word w s in if begins w (x ∷ s) then some (x ∷ s) else rest

-- The text up to the next `c`, or all of it.
unfoldable pub before : ℕ → List ℕ → List ℕ
before c [] = []
before c (x ∷ s) = let rest = before c s in if x == c then [] else x ∷ rest

-- The three parts of a token; the last one may hold dots.
pub record Parts : Type 0 where
  pub header : List ℕ
  pub payload : List ℕ
  pub signature : List ℕ

unfoldable pub parts_of : List ℕ → Option Parts
unfolding cut
parts_of jwt = elim (cut b'.' jwt) [
  | none ↦ none
  | some (header, rest) ↦ elim (cut b'.' rest) [
    | none ↦ none
    | some (payload, signature) ↦
        some (record { header = header; payload = payload; signature = signature })
  ]
]

-- `header + "." + payload`
abbrev pub signed_text : Parts → List ℕ
signed_text p = p.header ++ (b'.' ∷ p.payload)

-- `CRYPTO_memcmp` on texts of one length compares them whole.
unfoldable pub verify_jwt_hs256 : (hmac : List ℕ → List ℕ → List ℕ) → (jwt secret : List ℕ) → Bool
unfolding parts_of decode
verify_jwt_hs256 hmac jwt secret = elim (parts_of jwt) [
  | none ↦ false
  | some p ↦ same_text (hmac secret (signed_text p)) (decode p.signature)
]

-- `rsa_check key text signature`: `none` where the PEM text holds no key.
unfoldable pub verify_jwt_rs256 :
    (rsa_check : List ℕ → List ℕ → List ℕ → Option Bool) → (jwt pub_pem : List ℕ) → Bool
unfolding parts_of decode
verify_jwt_rs256 rsa_check jwt pub_pem = elim (parts_of jwt) [
  | none ↦ false
  | some p ↦ elim (rsa_check pub_pem (signed_text p) (decode p.signature)) [
    | none ↦ false
    | some ok ↦ ok
  ]
]

-- The member of a name behind the entry of `kid`: from `"name":"` to the next quote.
unfoldable pub member : List ℕ → List ℕ → Option (List ℕ)
unfolding at_word before
member opening s = elim (at_word opening s) [
  | none ↦ none
  | some t ↦ some (before b'"' (drop (length opening) t))
]

abbrev pub kid_opening : List ℕ
kid_opening = codes "\"kid\":\""

-- The modulus and the exponent, in base64url.
unfoldable pub jwks_find_key : (jwks_json kid : List ℕ) → Option (List ℕ × List ℕ)
unfolding at_word member
jwks_find_key jwks_json kid = elim (at_word (kid_opening ++ (kid ++ (b'"' ∷ []))) jwks_json) [
  | none ↦ none
  | some entry ↦ elim (member (codes "\"n\":\"") entry) [
    | none ↦ none
    | some n ↦ elim (member (codes "\"e\":\"") entry) [ none ↦ none | some e ↦ some (n, e) ]
  ]
]

-- `rsa_check n e text signature`, with the bytes of the modulus and of the exponent.
unfoldable pub verify_jwt_rs256_jwks :
    (rsa_check : (n e text signature : List ℕ) → Bool) → (jwt jwks_json : List ℕ) → Bool
unfolding parts_of member jwks_find_key decode_padded
verify_jwt_rs256_jwks rsa_check jwt jwks_json = elim (parts_of jwt) [
  | none ↦ false
  | some p ↦ elim (member kid_opening (decode_padded p.header)) [
    | none ↦ false
    | some kid ↦ elim (jwks_find_key jwks_json kid) [
      | none ↦ false
      | some (n, e) ↦
          rsa_check (decode_padded n) (decode_padded e) (signed_text p) (decode_padded p.signature)
    ]
  ]
]

abbrev pub bearer : List ℕ
bearer = codes "Bearer "

-- The entries of `NWX_TOKENS` between the commas, without the empty ones.
unfoldable pub listed : List ℕ → List ℕ → List (List ℕ)
listed tok [] = if same_text tok [] then [] else (bearer ++ tok) ∷ []
listed tok (c ∷ v) =
    let ended = listed [] v in
    let more = listed (tok ++ (c ∷ [])) v in
    if c == b',' then (if same_text tok [] then ended else (bearer ++ tok) ∷ ended) else more

abbrev pub single : Option (List ℕ) → List (List ℕ)
single none = []
single (some t) = (bearer ++ t) ∷ []

abbrev pub several : Option (List ℕ) → List (List ℕ)
several none = []
several (some v) = listed [] v

-- From the two variables of the environment, where they are set.
unfoldable pub allowed_tokens : Option (List ℕ) → Option (List ℕ) → List (List ℕ)
allowed_tokens token tokens = single token ++ several tokens

unfoldable pub is_one_of : List ℕ → List (List ℕ) → Bool
is_one_of authv [] = false
is_one_of authv (a ∷ allowed) = same_text authv a || is_one_of authv allowed

-- With no token configured everyone is authorized.
unfoldable pub is_authorized : List ℕ → List (List ℕ) → Bool
unfolding is_one_of
is_authorized authv [] = true
is_authorized authv (a ∷ allowed) = is_one_of authv (a ∷ allowed)
