-- ===== src/Server/Windows.antt =====
-- How many requests of a token pass within one window.
use neuralware_x.Prelude.{
  ℕ, ◌+◌, ◌-◌, ◌<◌, ◌≤◌, ◌≡◌, refl, inl, inr, Bool, Bool-cases, true, false, ◌&&◌, List, [], ◌∷◌,
  arith, ltb, min, if◌then◌else◌,
}
use neuralware_x.Json.{same_text}
use neuralware_x.Json.Entries.{same_text→≡}
use neuralware_x.Server.{
  Window, Windows, Answer, unlimited, too_many, passes, count_request, answer, rate_limit,
}

abbrev pub is_pass : Answer → Bool
is_pass unlimited = true
is_pass (too_many _) = false
is_pass (passes _ _) = true

-- The requests of all tokens in the order in which the lock lets them in: how many of one token's pass.
unfoldable pub passed : (limit window : ℕ) → Windows → List ℕ → List (List ℕ × ℕ) → ℕ
passed limit window counts token [] = 0
passed limit window counts token (r ∷ rs) =
    let (counts', a) = rate_limit limit window counts r.0 r.1 in
    (if same_text token r.0 && is_pass a then 1 else 0) + passed limit window counts' token rs

abbrev pub requests_of : List ℕ → List (List ℕ × ℕ) → ℕ
requests_of token [] = 0
requests_of token (r ∷ rs) = (if same_text token r.0 then 1 else 0) + requests_of token rs

-- All requests of the token come before its window has ended.
abbrev pub Within : List ℕ → ℕ → List (List ℕ × ℕ) → Type 0
Within token ends [] = Unit
Within token ends (r ∷ rs) = (same_text token r.0 ≡ true → r.1 ≤ ends) × Within token ends rs

is_pass-answer : (limit now : ℕ) (w : Window) → is_pass (answer limit now w) ≡ ltb w.count limit
unfolding answer
is_pass-answer limit now w = ground arith

-- A request of the token inside its window: the pair afterwards, and whether it passes.
mine-rate_limit :
    (limit window : ℕ) (counts : Windows) (token other : List ℕ) (now : ℕ)
    → 0 < limit
    → same_text token other ≡ true
    → now ≤ (counts token).ends
    → ((rate_limit limit window counts other now).0 token
        ≡ record { count = (counts token).count + 1; ends = (counts token).ends })
      × (is_pass (rate_limit limit window counts other now).1
          ≡ ltb ((counts token).count + 1) limit)
unfolding rate_limit count_request
mine-rate_limit limit window counts token other now some_limit mine inside =
    let on : ltb 0 limit ≡ true = ground arith in
    let open_window : ltb (counts token).ends now ≡ false = ground arith in
    let same = same_text→≡ token other mine in
    (
      rw (on, mine, ← same, open_window) refl,
      rw (on, ← same, open_window) (is_pass-answer limit now _),
    )

-- A request of another token leaves the pair.
other-rate_limit :
    (limit window : ℕ) (counts : Windows) (token other : List ℕ) (now : ℕ)
    → same_text token other ≡ false
    → (rate_limit limit window counts other now).0 token ≡ counts token
unfolding rate_limit
other-rate_limit limit window counts token other now away = elim (Bool-cases (ltb 0 limit)) [
  | inl on ↦ rw (on, away) refl
  | inr off ↦ rw off refl
]

-- As long as the window of a token runs, whatever other tokens send in between, its requests pass while
-- the count with the request is below the limit, and no more: with a positive limit and a window that
-- has counted `count` requests, `limit - 1 - count` pass if there are so many, so that a fresh window
-- lets one request less through than the limit.
pub passed-window :
    (limit window : ℕ) (counts : Windows) (token : List ℕ) (rs : List (List ℕ × ℕ))
    → 0 < limit
    → Within token (counts token).ends rs
    → passed limit window counts token rs
      ≡ min (limit - 1 - (counts token).count) (requests_of token rs)
unfolding passed
passed-window limit window counts token [] some_limit h = omega arith
passed-window limit window counts token (r ∷ rs) some_limit h =
    let counts' = (rate_limit limit window counts r.0 r.1).0 in
    elim (Bool-cases (same_text token r.0)) [
      | inl mine ↦
          let (here, said) =
            mine-rate_limit limit window counts token r.0 r.1 some_limit mine (h.0 mine) in
          let rest = passed-window limit window counts' token rs some_limit (rw here h.1) in
          let rest' = rw here at rest in rw (mine, said, rest') (ground arith)
      | inr other ↦
          let here = other-rate_limit limit window counts token r.0 r.1 other in
          let rest = passed-window limit window counts' token rs some_limit (rw here h.1) in
          let rest' = rw here at rest in rw (other, rest') (omega arith)
    ]
