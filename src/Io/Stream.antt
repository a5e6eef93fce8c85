-- ===== src/Io/Stream.antt =====
-- The binary streams that src/io/serialize.cpp and src/io/bundle.cpp write and read: `ofstream::write`
-- and `ifstream::read` on the bytes of machine values, low byte first.
use native.Mathlib.Numerals.{unary_clauses}
use neuralware_x.Prelude.{
  ℕ, zero, suc, ◌+◌, ◌-◌, ◌*◌, ◌/◌, ◌%◌, ◌^◌, ◌<◌, ◌≡◌, refl, ap, sym, ◌∙◌, Bool, true, false, List,
  [], ◌∷◌, ◌++◌, arith, ltb, leb, if◌then◌else◌, length, take, drop, replicate, length-append,
  take-append_exact, drop-append_exact, length-replicate,
}
use neuralware_x.Prelude.Int.{ℤ, pos, negsuc}

-- What is left of the file, and whether no read has failed.
pub record Stream : Type 0 where
  pub bytes : List ℕ
  pub good : Bool

-- How the machine stores a double in eight bytes.
pub record Codec (D : Type 0) : Type 0 where
  pub bytes_of : D → List ℕ
  pub double_of : List ℕ → D

pub record IsCodec {D : Type 0} (c : Codec D) : Type 0 where
  pub bytes_of-length : (x : D) → length (c.bytes_of x) ≡ 8
  pub double_of-bytes_of : (x : D) → c.double_of (c.bytes_of x) ≡ x

-- `w` bytes of a number.
abbrev pub le_bytes : ℕ → ℕ → List ℕ
le_bytes zero n = []
le_bytes (suc w) n = (n % 256) ∷ le_bytes w (n / 256)

abbrev pub le_value : List ℕ → ℕ
le_value [] = 0
le_value (b ∷ bs) = b + 256 * le_value bs

-- The 32 bits of an `int`, and the `int` of 32 bits.
unfoldable pub word_of : ℤ → ℕ
word_of (pos n) = n % 4294967296
word_of (negsuc n) = 4294967295 - n % 4294967296

unfoldable pub int_of : ℕ → ℤ
int_of w = if ltb w 2147483648 then pos w else negsuc (4294967295 - w)

unfoldable pub int_bytes : ℤ → List ℕ
int_bytes z = le_bytes 4 (word_of z)

unfoldable pub size_bytes : ℕ → List ℕ
size_bytes n = le_bytes 8 n

-- `in.read(buf, length)`: what there is goes into the buffer, and the stream fails when that is too
-- little. A failed stream reads nothing.
unfoldable pub read : List ℕ → Stream → List ℕ × Stream
read buf s =
    if s.good
    then if leb (length buf) (length s.bytes)
      then (take (length buf) s.bytes, record { bytes = drop (length buf) s.bytes; good = true })
      else (s.bytes ++ drop (length s.bytes) buf, record { bytes = []; good = false })
    else (buf, s)

-- An `int` with the value `old` is read.
unfoldable pub read_int : ℤ → Stream → ℤ × Stream
read_int old s = let (buf, s') = read (int_bytes old) s in (int_of (le_value buf), s')

-- `size_t n = 0; in.read(&n, sizeof(n));`
unfoldable pub read_size : Stream → ℕ × Stream
read_size s = let (buf, s') = read (size_bytes 0) s in (le_value buf, s')

module _ {D : Type 0} (c : Codec D) where
  abbrev pub doubles_bytes : List D → List ℕ
  doubles_bytes [] = []
  doubles_bytes (x ∷ xs) = c.bytes_of x ++ doubles_bytes xs

  abbrev pub doubles_of : ℕ → List ℕ → List D
  doubles_of zero bs = []
  doubles_of (suc n) bs = c.double_of (take 8 bs) ∷ doubles_of n (drop 8 bs)

  -- `n` doubles that hold `x` are read.
  unfoldable pub read_doubles : ℕ → D → Stream → List D × Stream
  read_doubles n x s =
      let (buf, s') = read (doubles_bytes (replicate n x)) s in (doubles_of n buf, s')

length-le_bytes : (w n : ℕ) → length (le_bytes w n) ≡ w
length-le_bytes zero n = refl
length-le_bytes (suc w) n = ap suc (length-le_bytes w (n / 256))

pub le_value-le_bytes : (w n : ℕ) → n < 256 ^ w → le_value (le_bytes w n) ≡ n
le_value-le_bytes zero n h = ground arith
le_value-le_bytes (suc w) n h =
    let h' = simp unary_clauses at h in
    let rest = le_value-le_bytes w (n / 256) (omega arith) in omega arith

-- As many bytes as the buffer has are read whole.
pub read-append :
    (buf bs rest : List ℕ)
    → length bs ≡ length buf
    → read buf (record { bytes = bs ++ rest; good = true })
      ≡ (bs, record { bytes = rest; good = true })
unfolding read
read-append buf bs rest h =
    let fits : leb (length buf) (length (bs ++ rest)) ≡ true =
      ground (arith, length-append bs rest) in
    rw (fits, take-append_exact (length buf) bs rest h, drop-append_exact (length buf) bs rest h)
      refl

abbrev pub IsInt : ℤ → Type 0
IsInt (pos n) = n < 2147483648
IsInt (negsuc n) = n < 2147483648

pub int_of-word_of : (z : ℤ) → IsInt z → int_of (le_value (le_bytes 4 (word_of z))) ≡ z
unfolding int_of word_of
int_of-word_of (pos n) h = rw (le_value-le_bytes 4 (n % 4294967296) (omega arith)) (ground arith)
int_of-word_of (negsuc n) h =
    rw (le_value-le_bytes 4 (4294967295 - n % 4294967296) (omega arith)) (ground arith)

pub read_int-append :
    (old z : ℤ) (rest : List ℕ)
    → IsInt z
    → read_int old (record { bytes = int_bytes z ++ rest; good = true })
      ≡ (z, record { bytes = rest; good = true })
unfolding read_int int_bytes
read_int-append old z rest h =
    rw
      (
        read-append (int_bytes old) (int_bytes z) rest
            (length-le_bytes 4 (word_of z) ∙ sym (length-le_bytes 4 (word_of old))),
        int_of-word_of z h,
      )
      refl

pub read_size-append :
    (n : ℕ) (rest : List ℕ)
    → n < 18446744073709551616
    → read_size (record { bytes = size_bytes n ++ rest; good = true })
      ≡ (n, record { bytes = rest; good = true })
unfolding read_size size_bytes
read_size-append n rest h =
    rw (read-append (size_bytes 0) (size_bytes n) rest refl, le_value-le_bytes 8 n h) refl

module _ {D : Type 0} (c : Codec D) (laws : IsCodec c) where
  length-doubles_bytes : (xs : List D) → length (doubles_bytes c xs) ≡ 8 * length xs
  length-doubles_bytes [] = refl
  length-doubles_bytes (x ∷ xs) = omega (
    arith,
    length-append (c.bytes_of x) (doubles_bytes c xs),
    laws.bytes_of-length x,
    length-doubles_bytes xs,
  )

  doubles_of-doubles_bytes : (xs : List D) → doubles_of c (length xs) (doubles_bytes c xs) ≡ xs
  doubles_of-doubles_bytes [] = refl
  doubles_of-doubles_bytes (x ∷ xs) =
      rw
        (
          take-append_exact 8 (c.bytes_of x) (doubles_bytes c xs) (laws.bytes_of-length x),
          drop-append_exact 8 (c.bytes_of x) (doubles_bytes c xs) (laws.bytes_of-length x),
          laws.double_of-bytes_of x,
          doubles_of-doubles_bytes xs,
        )
        refl

  pub read_doubles-append :
      (n : ℕ) (x : D) (xs : List D) (rest : List ℕ)
      → length xs ≡ n
      → read_doubles c n x (record { bytes = doubles_bytes c xs ++ rest; good = true })
        ≡ (xs, record { bytes = rest; good = true })
  unfolding read_doubles
  read_doubles-append n x xs rest h =
      let same : length (doubles_bytes c xs) ≡ length (doubles_bytes c (replicate n x)) = omega (
        arith,
        length-doubles_bytes xs,
        length-doubles_bytes (replicate n x),
        length-replicate n x,
      ) in
      let whole : doubles_of c n (doubles_bytes c xs) ≡ xs =
        rw (← h) (doubles_of-doubles_bytes xs) in
      rw (read-append (doubles_bytes c (replicate n x)) (doubles_bytes c xs) rest same, whole) refl
