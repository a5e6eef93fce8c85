-- ===== src/Json/Rounds.antt =====
-- The loop of `parse` ends: every round that goes on has taken characters.
use neuralware_x.Prelude.{
  ℕ, zero, suc, ◌+◌, ◌≤◌, ◌<◌, ◌≡◌, ◌⊎◌, refl, inl, inr, Bool, Bool-cases, true, false, ◌||◌,
  Option, Option-cases, none, some, List, [], ◌∷◌, ◌==◌, if◌then◌else◌, length, drop, length-drop,
  arith,
}
use neuralware_x.Json.{
  Entries, quote, colon, comma, close_brace, is_digit, is_sign, begins, true_word, false_word,
  skip_ws, until_quote, number_chars, Round, returns, goes_on, throws, after_value, string_member,
  number_member, parse_value, parse_colon, parse_key, parse_round, parse_rounds,
}

-- A round that goes on leaves at most `n` characters.
abbrev Leaves : {D : Type 0} → ℕ → Round D → Type 0
Leaves n (returns b kv) = Unit
Leaves n throws = Unit
Leaves n (goes_on kv s) = length s ≤ n

if_Leaves :
    {D : Type 0} (n : ℕ) (r r' : Round D) (b : Bool)
    → Leaves n r
    → Leaves n r'
    → Leaves n (if b then r else r')
if_Leaves n r r' true h h' = h
if_Leaves n r r' false h h' = h'

skip_ws-le : (s : List ℕ) → length (skip_ws s) ≤ length s
unfolding skip_ws
skip_ws-le [] = omega arith
skip_ws-le (c ∷ s) = ground (arith, skip_ws-le s)

number_chars-le : (s : List ℕ) → length (number_chars s).1 ≤ length s
unfolding number_chars
number_chars-le [] = omega arith
number_chars-le (c ∷ s) = ground (arith, number_chars-le s)

until_quote-lt : (s w rest : List ℕ) → until_quote s ≡ some (w, rest) → length rest < length s
unfolding until_quote
until_quote-lt [] w rest e = absurd (cc)
until_quote-lt (c ∷ s) w rest e = elim (Option-cases (until_quote s)) [
  | inl o ↦ let e' = rw o at e in ground arith
  | inr ((w', rest'), o) ↦ let e' = rw o at e in ground (arith, until_quote-lt s w' rest' o)
]

Round-cases :
    {D : Type 0} (r : Round D)
    → ((b : Bool) × (kv : Entries D) × (r ≡ returns b kv))
      ⊎ (((kv : Entries D) × (s : List ℕ) × (r ≡ goes_on kv s)) ⊎ (r ≡ throws))
Round-cases (returns b kv) = inl (b, kv, refl)
Round-cases (goes_on kv s) = inr (inl (kv, s, refl))
Round-cases throws = inr (inr refl)

module _ {D : Type 0} (stod : List ℕ → Option D) where
  after_value-Leaves :
      (kv : Entries D) (s : List ℕ) (n : ℕ) → length s ≤ n → Leaves n (after_value stod kv s)
  after_value-Leaves kv [] n h = h
  after_value-Leaves kv (c ∷ s) n h = elim (Bool-cases (c == comma)) [
    | inl e ↦ rw e (omega arith)
    | inr e ↦ elim (Bool-cases (c == close_brace)) [
      | inl e' ↦ rw (e, e') tt
      | inr e' ↦ rw (e, e') h
    ]
  ]

  string_member-Leaves :
      (kv : Entries D) (key s : List ℕ) (n : ℕ)
      → length s ≤ n
      → Leaves n (string_member stod kv key (until_quote s))
  unfolding string_member
  string_member-Leaves kv key s n h = elim (Option-cases (until_quote s)) [
    | inl o ↦ rw o tt
    | inr ((w, rest), o) ↦ rw o (
        after_value-Leaves _ (skip_ws rest) n
          (omega (arith, skip_ws-le rest, until_quote-lt s w rest o)))
  ]

  number_member-Leaves :
      (kv : Entries D) (key : List ℕ) (o : Option D) (s : List ℕ) (n : ℕ)
      → length s ≤ n
      → Leaves n (number_member stod kv key o s)
  unfolding number_member
  number_member-Leaves kv key none s n h = tt
  number_member-Leaves kv key (some x) s n h =
      after_value-Leaves _ (skip_ws s) n (omega (arith, skip_ws-le s))

  word-Leaves :
      (kv : Entries D) (s : List ℕ) (k n : ℕ)
      → length s ≤ n
      → Leaves n (after_value stod kv (skip_ws (drop k s)))
  word-Leaves kv s k n h =
      after_value-Leaves kv (skip_ws (drop k s)) n
        (omega (arith, skip_ws-le (drop k s), length-drop k s))

  parse_value-Leaves :
      (kv : Entries D) (key s : List ℕ) (n : ℕ)
      → length s ≤ n
      → Leaves n (parse_value stod kv key s)
  unfolding parse_value
  parse_value-Leaves kv key [] n h = tt
  parse_value-Leaves kv key (c ∷ s) n h =
      if_Leaves n _ _ (c == quote) (string_member-Leaves kv key s n (omega arith)) (
        if_Leaves n _ _ (is_digit c || is_sign c)
          (number_member-Leaves kv key _ _ n (omega (arith, number_chars-le (c ∷ s))))
          (if_Leaves n _ _ (begins true_word (c ∷ s)) (word-Leaves _ (c ∷ s) 4 n h)
            (if_Leaves n _ _ (begins false_word (c ∷ s)) (word-Leaves _ (c ∷ s) 5 n h) tt)))

  parse_colon-Leaves :
      (kv : Entries D) (key s : List ℕ) (n : ℕ)
      → length s ≤ n
      → Leaves n (parse_colon stod kv key s)
  unfolding parse_colon
  parse_colon-Leaves kv key [] n h = tt
  parse_colon-Leaves kv key (c ∷ s) n h =
      if_Leaves n _ _ (c == colon)
        (parse_value-Leaves kv key (skip_ws s) n (omega (arith, skip_ws-le s))) tt

  parse_key-Leaves :
      (kv : Entries D) (s : List ℕ) (n : ℕ)
      → length s ≤ n
      → Leaves n (parse_key stod kv (until_quote s))
  unfolding parse_key
  parse_key-Leaves kv s n h = elim (Option-cases (until_quote s)) [
    | inl o ↦ rw o tt
    | inr ((key, rest), o) ↦ rw o (
        parse_colon-Leaves kv key (skip_ws rest) n
          (omega (arith, skip_ws-le rest, until_quote-lt s key rest o)))
  ]

  -- A round takes at least the quote of a key.
  parse_round-Leaves :
      (kv : Entries D) (s : List ℕ) (n : ℕ) → length s ≤ suc n → Leaves n (parse_round stod kv s)
  unfolding parse_round
  parse_round-Leaves kv [] n h = tt
  parse_round-Leaves kv (c ∷ s) n h =
      if_Leaves n _ _ (c == close_brace) tt
        (if_Leaves n _ _ (c == quote) (parse_key-Leaves kv s n (omega arith)) tt)

  rounds_agree :
      (f g : ℕ) (kv : Entries D) (s : List ℕ)
      → length s ≤ f
      → length s ≤ g
      → parse_rounds stod f kv s ≡ parse_rounds stod g kv s
  unfolding parse_rounds
  rounds_agree f g kv [] h h' = refl
  rounds_agree zero g kv (c ∷ s) h h' = absurd (omega arith)
  rounds_agree (suc f) zero kv (c ∷ s) h h' = absurd (omega arith)
  rounds_agree (suc f) (suc g) kv (c ∷ s) h h' =
      let round = parse_round stod kv (skip_ws (c ∷ s)) in
      let left =
        parse_round-Leaves kv (skip_ws (c ∷ s)) (length s) (omega (arith, skip_ws-le (c ∷ s))) in
      elim (Round-cases round) [
        | inl (b, kv', e) ↦ rw (e, parse_rounds) refl
        | inr (inl (kv', s', e)) ↦
            let left' = rw e at left in
            rw (e, parse_rounds) (rounds_agree f g kv' s' (omega arith) (omega arith))
        | inr (inr e) ↦ rw (e, parse_rounds) refl
      ]

  -- With as many rounds as characters the loop of `parse` has ended by itself: any number of rounds more
  -- gives the same.
  pub parse_rounds_enough :
      (fuel more : ℕ) (kv : Entries D) (s : List ℕ)
      → length s ≤ fuel
      → parse_rounds stod (fuel + more) kv s ≡ parse_rounds stod fuel kv s
  parse_rounds_enough fuel more kv s h = rounds_agree (fuel + more) fuel kv s (omega arith) h
