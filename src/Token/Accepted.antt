-- ===== src/Token/Accepted.antt =====
-- Which signed tokens are accepted.
use neuralware_x.Prelude.{
  ℕ, ◌≡◌, refl, sym, subst, ap, ◌∙◌, ◌↔◌, inl, inr, Bool-cases, true, false, Option-cases, some,
  List, [], ◌∷◌, ◌++◌, ◌==◌, ==_iff, arith,
}
use neuralware_x.Json.Entries.{same_text→≡, same_text_refl}
use neuralware_x.Token.{cut, Parts, parts_of, signed_text, verify_jwt_hs256}
use neuralware_x.Token.Base64.{decode}

-- A text without a certain character.
abbrev pub Without : ℕ → List ℕ → Type 0
Without c [] = Unit
Without c (x ∷ xs) = ((x == c) ≡ false) × Without c xs

pub cut-append : (c : ℕ) (w s : List ℕ) → Without c w → cut c (w ++ (c ∷ s)) ≡ some (w, s)
unfolding cut
cut-append c [] s h = ground arith
cut-append c (x ∷ w) s (h, hs) = rw (h, cut-append c w s hs) refl

cut_inverse : (c : ℕ) (t w s : List ℕ) → cut c t ≡ some (w, s) → (t ≡ w ++ (c ∷ s)) × Without c w
unfolding cut
cut_inverse c [] w s h = absurd (cc)
cut_inverse c (x ∷ t) w s h = elim (Bool-cases (x == c)) [
  | inl e ↦ let h' = rw e at h in ground (arith, ==_iff x c)
  | inr e ↦ elim (Option-cases (cut c t)) [
    | inl o ↦ let h' = rw (e, o) at h in absurd (cc)
    | inr ((w', s'), o) ↦
        let h' = rw (e, o) at h in let ih = cut_inverse c t w' s' o in ground (arith, ih)
  ]
]

-- The text of a token.
abbrev pub token_text : Parts → List ℕ
token_text p = p.header ++ (b'.' ∷ (p.payload ++ (b'.' ∷ p.signature)))

pub parts_of-token_text :
    (p : Parts) → Without b'.' p.header → Without b'.' p.payload → parts_of (token_text p) ≡ some p
unfolding parts_of
parts_of-token_text p h h' =
    rw (cut-append b'.' p.header _ h, cut-append b'.' p.payload p.signature h', parts_of) refl

parts_of_inverse :
    (jwt : List ℕ) (p : Parts)
    → parts_of jwt ≡ some p
    → (jwt ≡ token_text p) × Without b'.' p.header × Without b'.' p.payload
unfolding parts_of
parts_of_inverse jwt p h = elim (Option-cases (cut b'.' jwt)) [
  | inl o ↦ let h' = rw (o, parts_of) at h in absurd (cc)
  | inr ((w, rest), o) ↦ elim (Option-cases (cut b'.' rest)) [
    | inl o' ↦ let h' = rw (o, o', parts_of) at h in absurd (cc)
    | inr ((w', s), o') ↦
        let h' = rw (o, o', parts_of) at h in
        let i = cut_inverse b'.' jwt w rest o in
        let i' = cut_inverse b'.' rest w' s o' in
        let whole : record { header = w; payload = w'; signature = s } ≡ p = cc in
        subst (λ q. (jwt ≡ token_text q) × Without b'.' q.header × Without b'.' q.payload) whole
          (i.0 ∙ ap (λ t. w ++ (b'.' ∷ t)) i'.0, i.1, i'.1)
  ]
]

-- A token is accepted exactly when it is three parts with a dot between them, the first two without
-- a dot, and what its last part decodes to is the HMAC of the first two with the dot between them.
pub verify_jwt_hs256_iff :
    (hmac : List ℕ → List ℕ → List ℕ) (jwt secret : List ℕ)
    → (verify_jwt_hs256 hmac jwt secret ≡ true) ↔ (
        (p : Parts) × (jwt ≡ token_text p)
        × Without b'.' p.header
        × Without b'.' p.payload
        × (decode p.signature ≡ hmac secret (signed_text p)))
unfolding verify_jwt_hs256
verify_jwt_hs256_iff hmac jwt secret = (
  (λ h. elim (Option-cases (parts_of jwt)) [
    | inl o ↦ let h' = rw (o, verify_jwt_hs256) at h in absurd (cc)
    | inr (q, o) ↦
        let h' = rw (o, verify_jwt_hs256) at h in
        let i = parts_of_inverse jwt q o in (q, i.0, i.1, i.2, sym (same_text→≡ _ _ h'))
  ]),
  (λ (p, e, h, h', m).
      rw (e, parts_of-token_text p h h', verify_jwt_hs256)
        (rw m (same_text_refl (hmac secret (signed_text p))))),
)
