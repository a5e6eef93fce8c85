-- ===== src/Token/Listed.antt =====
-- Which listed tokens are accepted.
use mathlib.Core.List.{append-nil, append_assoc}
use neuralware_x.Prelude.{
  ℕ, ◌≡◌, ◌≢◌, refl, ap, ◌∙◌, ◌↔◌, ◌⊎◌, inl, inr, Bool-cases, true, some, List, [], ◌∷◌, ◌++◌,
  if◌then◌else◌, arith,
}
use neuralware_x.Json.{same_text}
use neuralware_x.Json.Entries.{same_text→≡, same_text_refl}
use neuralware_x.Token.{bearer, listed, allowed_tokens, is_one_of, is_authorized}
use neuralware_x.Token.Accepted.{Without}

-- The entries with a comma between them.
abbrev pub joined : List ℕ → List (List ℕ) → List ℕ
joined w [] = w
joined w (w' ∷ ws) = w ++ (b',' ∷ joined w' ws)

abbrev pub AllWithout : ℕ → List (List ℕ) → Type 0
AllWithout c [] = Unit
AllWithout c (w ∷ ws) = Without c w × AllWithout c ws

abbrev bearers : List (List ℕ) → List (List ℕ)
bearers [] = []
bearers ([] ∷ ws) = bearers ws
bearers ((c ∷ w) ∷ ws) = (bearer ++ (c ∷ w)) ∷ bearers ws

abbrev add : List ℕ → List (List ℕ) → List (List ℕ)
add w ts = if same_text w [] then ts else (bearer ++ w) ∷ ts

listed-last : (tok w : List ℕ) → Without b',' w → listed tok w ≡ add (tok ++ w) []
unfolding listed
listed-last tok [] h = rw (append-nil tok) refl
listed-last tok (c ∷ w) (h, hs) =
    rw h (listed-last (tok ++ (c ∷ [])) w hs ∙ ap (λ t. add t []) (append_assoc tok (c ∷ []) w))

listed-entry :
    (tok w v : List ℕ)
    → Without b',' w
    → listed tok (w ++ (b',' ∷ v)) ≡ add (tok ++ w) (listed [] v)
unfolding listed
listed-entry tok [] v h = rw (append-nil tok) refl
listed-entry tok (c ∷ w) v (h, hs) = rw h (
    listed-entry (tok ++ (c ∷ [])) w v hs
    ∙ ap (λ t. add t (listed [] v)) (append_assoc tok (c ∷ []) w))

add-bearers : (w : List ℕ) (ws : List (List ℕ)) → add w (bearers ws) ≡ bearers (w ∷ ws)
add-bearers [] ws = refl
add-bearers (c ∷ w) ws = refl

listed-joined :
    (w : List ℕ) (ws : List (List ℕ))
    → AllWithout b',' (w ∷ ws)
    → listed [] (joined w ws) ≡ bearers (w ∷ ws)
listed-joined w [] (h, _) = listed-last [] w h ∙ add-bearers w []
listed-joined w (w' ∷ ws) (h, hs) =
    listed-entry [] w (joined w' ws) h
    ∙ ap (add w) (listed-joined w' ws hs)
    ∙ add-bearers w (w' ∷ ws)

-- The text is `Bearer ` and one of the entries, which is not empty.
abbrev pub BearsOne : List ℕ → List (List ℕ) → Type 0
BearsOne a [] = ⊥
BearsOne a (w ∷ ws) = ((w ≢ []) × (a ≡ bearer ++ w)) ⊎ BearsOne a ws

is_one_of-cons :
    (a t : List ℕ) (ts : List (List ℕ))
    → (is_one_of a (t ∷ ts) ≡ true) ↔ ((a ≡ t) ⊎ (is_one_of a ts ≡ true))
unfolding is_one_of
is_one_of-cons a t ts = (
  (λ h. elim (Bool-cases (same_text a t)) [
    | inl e ↦ inl (same_text→≡ a t e)
    | inr e ↦ inr (ground (arith, e, h))
  ]),
  (λ o. elim o [ inl e ↦ rw (e, same_text_refl t) refl | inr e ↦ ground (arith, e) ]),
)

is_one_of-bearers :
    (a : List ℕ) (ws : List (List ℕ)) → (is_one_of a (bearers ws) ≡ true) ↔ BearsOne a ws
unfolding is_one_of
is_one_of-bearers a [] = ((λ h. absurd (cc)), (λ h. absurd h))
is_one_of-bearers a ([] ∷ ws) =
    let ih = is_one_of-bearers a ws in
    ((λ h. inr (ih.0 h)), (λ o. elim o [ inl (e, _) ↦ absurd (e refl) | inr k ↦ ih.1 k ]))
is_one_of-bearers a ((c ∷ w) ∷ ws) =
    let ih = is_one_of-bearers a ws in
    let step = is_one_of-cons a (bearer ++ (c ∷ w)) (bearers ws) in
    (
      (λ h. elim (step.0 h) [ inl e ↦ inl ((λ z. cc), e) | inr k ↦ inr (ih.0 k) ]),
      (λ o. elim o [ inl (_, e) ↦ step.1 (inl e) | inr k ↦ step.1 (inr (ih.1 k)) ]),
    )

-- Where `NWX_TOKEN` is set and `NWX_TOKENS` holds some entries between commas, a request is authorized
-- exactly when its `Authorization` header is `Bearer ` and the one token or an entry that is not empty.
pub is_authorized_iff :
    (authv token : List ℕ) (w : List ℕ) (ws : List (List ℕ))
    → AllWithout b',' (w ∷ ws)
    → (is_authorized authv (allowed_tokens (some token) (some (joined w ws))) ≡ true)
      ↔ ((authv ≡ bearer ++ token) ⊎ BearsOne authv (w ∷ ws))
unfolding is_authorized allowed_tokens
is_authorized_iff authv token w ws h =
    let entries = is_one_of-bearers authv (w ∷ ws) in
    let step = is_one_of-cons authv (bearer ++ token) (bearers (w ∷ ws)) in
    rw (listed-joined w ws h) (
      (λ k. elim (step.0 k) [ inl e ↦ inl e | inr k' ↦ inr (entries.0 k') ]),
      (λ o. elim o [ inl e ↦ step.1 (inl e) | inr k ↦ step.1 (inr (entries.1 k)) ]),
    )
