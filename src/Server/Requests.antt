-- ===== src/Server/Requests.antt =====
-- src/app/serve.cpp: the token bucket of a client, and the shape of the posted instances.
use neuralware_x.Prelude.{
  ℕ, ◌+◌, Bool, true, false, ◌&&◌, ◌||◌, List, [], ◌∷◌, ◌==◌, ltb, leb, if◌then◌else◌,
}
use neuralware_x.Prelude.Int.{pos, ◌-ℤ◌}
use neuralware_x.Double.{Double, one, fmin}

-- Times are milliseconds; a bucket that was never used has the time 0.
pub record Bucket (D : Type 0) : Type 0 where
  pub tokens : D
  pub last_ms : ℕ

-- One request: the bucket afterwards, and whether it had a token.
unfoldable pub take_token :
    {D : Type 0} → ⦃d : Double D⦄ → (burst rate : D) → ℕ → Bucket D → Bucket D × Bool
take_token ⦃d = d⦄ burst rate now_ms b =
    let last = if b.last_ms == 0 then now_ms else b.last_ms in
    let elapsed = d.div (d.of_int (pos now_ms -ℤ pos last)) (d.decimal 1000 0) in
    let tokens = fmin burst (d.add b.tokens (d.mul rate elapsed)) in
    if d.lt tokens one
    then (record { tokens = tokens; last_ms = now_ms }, false)
    else (record { tokens = d.sub tokens one; last_ms = now_ms }, true)

-- The counters of the scan; the numbers that it gathers are not used and left out.
pub record Shape : Type 0 where
  pub rows : ℕ
  pub cols : ℕ
  pub cur : ℕ

-- A digit, a minus sign or a point.
abbrev pub in_number : ℕ → Bool
in_number c = (leb 48 c && leb c 57) || ((c == 45) || (c == 46))

abbrev pub close_row : Shape → Shape
close_row s =
    let cols = if (s.cols == 0) && ltb 0 s.cur then s.cur else s.cols in
    if ltb 0 s.cur
    then record { rows = s.rows + 1; cols = cols; cur = 0 }
    else record { rows = s.rows; cols = cols; cur = s.cur }

unfoldable pub scan_char : ℕ → Shape → Shape
scan_char c s =
    if in_number c
    then s
    else let s' = if c == 93 then close_row s else s in
      if c == 44 then record s' { cur = s'.cur + 1 } else s'

unfoldable pub scan : List ℕ → Shape → Shape
scan [] s = s
scan (c ∷ body) s = scan body (scan_char c s)

-- The status: 204, or 400 where no shape is found.
unfoldable pub shape_status : List ℕ → ℕ
shape_status body =
    let s = scan body (record { rows = 0; cols = 0; cur = 0 }) in
    if (s.cols == 0) || (s.rows == 0) then 400 else 204
