-- ===== src/Server/Stream.antt =====
-- src/app/serve.cpp: `POST /predict/stream`, from the authorization to the rows of probabilities. The
-- request is taken apart: its `Authorization` value and its body, which is not compressed.
use neuralware_x.Prelude.{
  ℕ, ◌+◌, ◌-◌, ◌*◌, Bool, true, false, not, none, some, List, [], ◌∷◌, ◌++◌, ◌==◌, ◌&&◌, ◌||◌, ltb,
  leb, if◌then◌else◌, get_or,
}
use neuralware_x.Prelude.Int.{pos}
use neuralware_x.Prelude.Text.{codes}
use neuralware_x.Double.{Double, nought}
use neuralware_x.Tensor.{Tensor2D, Backend, zeros, for_cells, softmax}
use neuralware_x.Scaler.{transform}
use neuralware_x.Model.{forward}
use neuralware_x.Json.{is_digit}
use neuralware_x.Capi.{Handle}
use neuralware_x.Calibration.{enable_runtime_quantization}
use neuralware_x.Grpc.{reply_rows}
use neuralware_x.Token.{at_word, is_authorized}
use neuralware_x.Server.{Windows, Answer, unlimited, too_many, passes, rate_limit}
use neuralware_x.Server.Requests.{Shape}

-- A digit, a minus sign or a point, as this handler tests it.
abbrev pub number_character : ℕ → Bool
number_character c = (leb b'0' c && leb c b'9') || (c == b'-') || (c == b'.')

-- `if (cols==0 && cur>0) cols=cur; if (cur>0){ rows++; cur=0; }`
abbrev pub finish_row : Shape → Shape
finish_row s =
    let s1 = if s.cols == 0 && ltb 0 s.cur then record s { cols = s.cur } else s in
    if ltb 0 s1.cur then record s1 { rows = s1.rows + 1; cur = 0 } else s1

-- The number that is read, and those that were.
pub record Reading (D : Type 0) : Type 0 where
  pub nums : List D
  pub innum : Bool
  pub fracm : Bool
  pub fcnt : ℕ
  pub val : D
  pub frac : D
  pub minus : Bool
  pub shape : Shape

-- How a request ends: a status with a problem, or the rows that are sent.
pub data StreamReply (D : Type 0) : Type 0 where
  problem : ℕ → StreamReply D
  sends : List (List D) → StreamReply D

abbrev pub refused : Answer → Bool
refused unlimited = false
refused (too_many _) = true
refused (passes _ _) = false

module _ {D : Type 0} ⦃d : Double D⦄ where
  abbrev pub digit_of : ℕ → D
  digit_of c = d.of_int (pos (c - b'0'))

  -- `flushnum`
  unfoldable pub flush_number : Reading D → Reading D
  flush_number s =
      let v = d.add s.val (
        if s.fcnt == 0
        then nought
        else d.div s.frac (d.pow (d.decimal 10 0) (d.of_int (pos s.fcnt)))) in
      record s {
        nums = s.nums ++ ((if s.minus then d.neg v else v) ∷ []);
        innum = false;
        fracm = false;
        fcnt = 0;
        val = nought;
        frac = nought;
        minus = false;
      }

  -- A character of a number inside it.
  unfoldable pub number_char : ℕ → Reading D → Reading D
  number_char c s =
      let ten = d.decimal 10 0 in
      if c == b'.'
      then record s { fracm = true }
      else if not (is_digit c)
      then s
      else if s.fracm
      then record s { frac = d.add (d.mul s.frac ten) (digit_of c); fcnt = s.fcnt + 1 }
      else record s { val = d.add (d.mul s.val ten) (digit_of c) }

  abbrev pub begin_number : Reading D → Reading D
  begin_number s = record s {
    innum = true;
    val = nought;
    frac = nought;
    fcnt = 0;
    fracm = false;
    minus = false;
  }

  unfoldable pub read_char : ℕ → Reading D → Reading D
  unfolding flush_number number_char
  read_char c s =
      if number_character c
      then if s.innum
        then number_char c s
        else if c == b'-'
        then record (begin_number s) { minus = true }
        else number_char c (begin_number s)
      else let s1 = if s.innum then flush_number s else s in
        let s2 = if c == b']' then record s1 { shape = finish_row s1.shape } else s1 in
        if c == b',' then record s2 { shape = record s2.shape { cur = s2.shape.cur + 1 } } else s2

  unfoldable pub read_chars : List ℕ → Reading D → Reading D
  unfolding read_char
  read_chars [] s = s
  read_chars (c ∷ body) s = read_chars body (read_char c s)

  abbrev pub no_reading : Reading D
  no_reading = record {
    nums = [];
    innum = false;
    fracm = false;
    fcnt = 0;
    val = nought;
    frac = nought;
    minus = false;
    shape = record { rows = 0; cols = 0; cur = 0 };
  }

  -- `X(r,c)=nums[r*cols+c]`
  unfoldable pub stream_matrix : Reading D → Tensor2D D
  stream_matrix s =
      for_cells s.shape.rows s.shape.cols (λ r c _. get_or s.nums (r * s.shape.cols + c) nought)
        (zeros s.shape.rows s.shape.cols)

  unfoldable pub stream_body : Backend D → Bool → Handle D → List ℕ → StreamReply D
  unfolding read_chars stream_matrix at_word
  stream_body e quantize_env b body = elim (at_word (codes "instances") body) [
    | none ↦ problem 400
    | some _ ↦
        let s = read_chars body no_reading in
        if s.shape.cols == 0
        then problem 400
        else let m = if quantize_env then enable_runtime_quantization b.model else b.model in
          let X = if b.has_scaler then transform b.scaler (stream_matrix s) else stream_matrix s in
          let P = softmax (forward e m X).1 in sends (reply_rows P P.rows)
  ]

  -- With the windows of the limiter afterwards; the bundle is copied and stays.
  unfoldable pub predict_stream_request :
      Backend D
      → Bool
      → Handle D
      → (limit window : ℕ) → Windows
      → (allowed : List (List ℕ)) → (now : ℕ) → (authv body : List ℕ) → Windows × StreamReply D
  unfolding stream_body rate_limit is_authorized
  predict_stream_request e quantize_env b limit window counts allowed now_s authv body =
      if not (is_authorized authv allowed)
      then (counts, problem 401)
      else let (counts', a) = rate_limit limit window counts authv now_s in
        (counts', if refused a then problem 429 else stream_body e quantize_env b body)
