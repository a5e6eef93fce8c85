-- ===== src/Tests/Tokens.antt =====
-- Runs of the token checks of src/app/serve.cpp.
use neuralware_x.Prelude.{
  ℕ, ◌+◌, ◌≤◌, ◌≡◌, refl, ◌⊎◌, ◌↔◌, inl, inr, true, some, List, [], ◌∷◌, ◌++◌, arith,
}
use neuralware_x.Prelude.Int.{pos}
use neuralware_x.Prelude.Text.{codes}
use neuralware_x.Token.{verify_jwt_hs256, allowed_tokens, is_authorized}
use neuralware_x.Token.Base64.{
  position, standard_char, take_bits, take_char, decode_chars, decode, pad, decode_padded,
}
use neuralware_x.Token.Base64.Decoded.{url_char, url_text, decode-url_text_padded}
use neuralware_x.Token.Accepted.{verify_jwt_hs256_iff}
use neuralware_x.Token.Claims.{verify_jwt_claims}
use neuralware_x.Token.Validity.{no_names, verify_jwt_claims_iff}
use neuralware_x.Token.Listed.{is_authorized_iff}

text_of_hello : url_text (codes "hello") ≡ codes "aGVsbG8"
unfolding url_text url_char
text_of_hello = refl

text_of_high_bytes : url_text (251 ∷ 255 ∷ []) ≡ codes "-_8"
unfolding url_text url_char
text_of_high_bytes = refl

decode_hello : decode_padded (codes "aGVs bG8") ≡ codes "hello"
unfolding decode_padded decode_chars take_char take_bits position standard_char pad
decode_hello = refl

decode-url_text_padded_example :
    let text = url_text (251 ∷ 0 ∷ 255 ∷ 7 ∷ []) ++ codes "==" in
    (decode text ≡ 251 ∷ 0 ∷ 255 ∷ 7 ∷ []) × (decode_padded text ≡ 251 ∷ 0 ∷ 255 ∷ 7 ∷ [])
decode-url_text_padded_example = decode-url_text_padded (251 ∷ 0 ∷ 255 ∷ 7 ∷ []) 2 (omega arith)

-- The secret is the HMAC of every text.
abbrev toy_hmac : List ℕ → List ℕ → List ℕ
toy_hmac secret text = secret

k_decoded : decode (codes "aw") ≡ codes "k"
unfolding decode decode_chars take_char take_bits position standard_char
k_decoded = refl

verify_jwt_hs256_iff_example : verify_jwt_hs256 toy_hmac (codes "e30.e30.aw") (codes "k") ≡ true
verify_jwt_hs256_iff_example = (verify_jwt_hs256_iff toy_hmac (codes "e30.e30.aw") (codes "k")).1 (
  record { header = codes "e30"; payload = codes "e30"; signature = codes "aw" },
  refl,
  (refl, (refl, (refl, tt))),
  (refl, (refl, (refl, tt))),
  k_decoded,
)

verify_jwt_claims_iff_example :
    (verify_jwt_claims
        (no_names 5)
        (pos 1004)
        (codes "e30." ++ (url_text (codes "{\"exp\":1000,\"nbf\":990}") ++ codes ".aw"))
      ≡ true)
    ↔ ((◌≡◌ {A = ℕ} 1000 0 ⊎ (1004 ≤ 1000 + 5)) × (◌≡◌ {A = ℕ} 990 0 ⊎ (990 ≤ 1004 + 5)))
verify_jwt_claims_iff_example =
    verify_jwt_claims_iff 5 1004 (codes "e30") (codes "aw") b'1' (codes "000") b'9' (codes "90")
      b'}' [] (refl, (refl, (refl, tt))) (refl, (refl, (refl, (refl, tt))))
      (refl, (refl, (refl, tt))) refl (omega arith) (omega arith) (omega arith) (omega arith)

is_authorized_iff_example :
    is_authorized (codes "Bearer two") (allowed_tokens (some (codes "one")) (some (codes "x,,two")))
    ≡ true
is_authorized_iff_example =
    (is_authorized_iff (codes "Bearer two") (codes "one") (codes "x") ([] ∷ codes "two" ∷ [])
        ((refl, tt), (tt, ((refl, (refl, (refl, tt))), tt)))).1
      (inr (inr (inr (inl ((λ e. cc), refl)))))
