-- ===== src/Token/Base64.antt =====
-- src/app/serve.cpp: the base64url decoders, one without and one with padding.
pub mod Decoded
use neuralware_x.Prelude.{
  ℕ, zero, suc, ◌+◌, ◌-◌, ◌*◌, ◌/◌, ◌%◌, ◌^◌, Bool, true, false, Option, none, some, List, [], ◌∷◌,
  ◌++◌, ◌==◌, if◌then◌else◌, map, length, replicate,
}
use neuralware_x.Prelude.Int.{ℤ, pos, negsuc, pos_part, ltb_ℤ, ◌+ℤ◌, ◌-ℤ◌}
use neuralware_x.Prelude.Text.{codes}

-- `t`
abbrev pub alphabet : List ℕ
alphabet = codes "ABCDEFGHIJKLMNOPQRSTUVWXYZabcdefghijklmnopqrstuvwxyz0123456789+/"

-- `t.find(c)`, from the index `i` on.
unfoldable pub position : ℕ → ℕ → List ℕ → Option ℕ
position c i [] = none
position c i (x ∷ t) = let rest = position c (i + 1) t in if x == c then some i else rest

unfoldable pub standard_char : ℕ → ℕ
standard_char c = if c == b'-' then b'+' else if c == b'_' then b'/' else c

-- `val`, as its 32 bits, and `valb`.
pub record Bits : Type 0 where
  pub val : ℕ
  pub valb : ℤ

abbrev pub no_bits : Bits
no_bits = record { val = 0; valb = negsuc 7 }

-- The six bits of a character, and the byte that they complete.
unfoldable pub take_bits : ℕ → Bits → Bits × Option ℕ
unfolding ◌+ℤ◌ ◌-ℤ◌
take_bits idx b =
    let val = (b.val * 64 + idx) % 4294967296 in
    let valb = b.valb +ℤ pos 6 in
    if ltb_ℤ valb (pos 0)
    then (record { val = val; valb = valb }, none)
    else (record { val = val; valb = valb -ℤ pos 8 }, some ((val / 2 ^ pos_part valb) % 256))

-- A character that is not in the alphabet is passed over.
unfoldable pub take_char : ℕ → Bits → Bits × Option ℕ
unfolding take_bits position
take_char c b = elim (position c 0 alphabet) [ none ↦ (b, none) | some idx ↦ take_bits idx b ]

abbrev pub push : Option ℕ → List ℕ → List ℕ
push none out = out
push (some x) out = x ∷ out

-- The loop over the characters; it ends at a `=`.
unfoldable pub decode_chars : Bits → List ℕ → List ℕ
unfolding take_char
decode_chars b [] = []
decode_chars b (c ∷ s) =
    let next = take_char c b in
    let rest = decode_chars next.0 s in if c == b'=' then [] else push next.1 rest

-- The decoder of the signatures.
unfoldable pub decode : List ℕ → List ℕ
unfolding decode_chars standard_char
decode s = decode_chars no_bits (map standard_char s)

-- `while (s.size() % 4 != 0) s.push_back('=')`
unfoldable pub pad : List ℕ → List ℕ
pad s = s ++ replicate ((4 - length s % 4) % 4) b'='

-- The decoder of the claims and of `b64url_to_bin`.
unfoldable pub decode_padded : List ℕ → List ℕ
unfolding decode_chars standard_char pad
decode_padded s = decode_chars no_bits (pad (map standard_char s))
