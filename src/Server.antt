-- ===== src/Server.antt =====
-- src/app/serve.cpp: the fixed-window rate limiter of `POST /predict/stream`. Times are seconds.
pub mod Requests
pub mod Windows
pub mod Stream
pub mod Refusals
pub mod Agreed
pub mod Columns
pub mod Http
pub mod Body
pub mod Predict
pub mod Routes
pub mod Life
use neuralware_x.Prelude.{
  ℕ, zero, suc, ◌+◌, ◌-◌, Bool, true, false, List, [], ◌∷◌, ◌==◌, ltb, leb, if◌then◌else◌,
}
use neuralware_x.Json.{same_text}

-- A pair of `rl_counts`: the requests counted, and the end of the window.
pub record Window : Type 0 where
  pub count : ℕ
  pub ends : ℕ

-- `rl_counts[token]`: a token that is not there has the pair of two zeros.
abbrev pub Windows : Type 0
Windows = List ℕ → Window

-- What is answered: the limit is off, or 429 with the seconds to wait, or the request goes on with
-- what remains.
pub data Answer : Type 0 where
  unlimited : Answer
  too_many : ℕ → Answer
  passes : ℕ → ℕ → Answer

-- The critical section, on the pair of the token.
unfoldable pub count_request : (window now : ℕ) → Window → Window
count_request window now w =
    let fresh : Window = if ltb w.ends now then record { count = 0; ends = now + window } else w in
    record { count = fresh.count + 1; ends = fresh.ends }

abbrev pub remaining_of : ℕ → Window → ℕ
remaining_of limit w = if leb w.count limit then limit - w.count else 0

unfoldable pub answer : (limit now : ℕ) → Window → Answer
answer limit now w =
    if remaining_of limit w == 0
    then too_many (w.ends - now)
    else passes (remaining_of limit w) (w.ends - now)

unfoldable pub rate_limit : (limit window : ℕ) → Windows → List ℕ → ℕ → Windows × Answer
rate_limit limit window counts token now =
    let w = count_request window now (counts token) in
    if ltb 0 limit
    then ((λ t. if same_text t token then w else counts t), answer limit now w)
    else (counts, unlimited)
