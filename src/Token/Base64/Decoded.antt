-- ===== src/Token/Base64/Decoded.antt =====
-- The decoders against RFC 4648.
use neuralware_x.Prelude.{
  ℕ, zero, suc, ◌+◌, ◌*◌, ◌/◌, ◌%◌, ◌<◌, ◌≡◌, refl, ap, ◌∙◌, Bool, true, false, ◌&&◌, not, Option,
  none, some, List, [], ◌∷◌, ◌++◌, ◌==◌, ==_iff, map, get_or, replicate, arith,
}
use mathlib.Core.List.{map-append, append_assoc}
use neuralware_x.Prelude.Int.{negsuc}
use neuralware_x.Prelude.Text.{codes}
use neuralware_x.Prelude.Tables.{passes_up_to, passes_up_to-at}
use neuralware_x.Token.Base64.{
  alphabet, position, standard_char, Bits, no_bits, take_bits, take_char, push, decode_chars,
  decode, pad, decode_padded,
}

-- The alphabet of section 5 of the RFC.
abbrev pub url_alphabet : List ℕ
url_alphabet = codes "ABCDEFGHIJKLMNOPQRSTUVWXYZabcdefghijklmnopqrstuvwxyz0123456789-_"

unfoldable pub url_char : ℕ → ℕ
url_char n = get_or url_alphabet n 0

-- The text of some bytes, without padding.
unfoldable pub url_text : List ℕ → List ℕ
url_text [] = []
url_text (a ∷ []) = url_char (a / 4) ∷ url_char (a % 4 * 16) ∷ []
url_text (a ∷ b ∷ []) =
    url_char (a / 4) ∷ url_char (a % 4 * 16 + b / 16) ∷ url_char (b % 16 * 4) ∷ []
url_text (a ∷ b ∷ c ∷ bs) =
    url_char (a / 4)
    ∷ url_char (a % 4 * 16 + b / 16)
    ∷ url_char (b % 16 * 4 + c / 64)
    ∷ url_char (c % 64)
    ∷ url_text bs

abbrev pub AreBytes : List ℕ → Type 0
AreBytes [] = Unit
AreBytes (x ∷ xs) = (x < 256) × AreBytes xs

is_some : ℕ → Option ℕ → Bool
is_some n none = false
is_some n (some m) = m == n

is_some→≡ : (n : ℕ) (o : Option ℕ) → is_some n o ≡ true → o ≡ some n
unfolding is_some
is_some→≡ n none h = absurd (cc)
is_some→≡ n (some m) h = ap some ((==_iff m n).0 h)

-- Each of the 64 characters stands for its number, and none is the padding.
known : ℕ → Bool
known n =
    is_some n (position (standard_char (url_char n)) 0 alphabet)
    && not (standard_char (url_char n) == b'=')

known_table : passes_up_to known 64 ≡ true
unfolding passes_up_to known is_some url_char standard_char position
known_table = refl

position-url_char :
    (n : ℕ)
    → n < 64
    → (position (standard_char (url_char n)) 0 alphabet ≡ some n)
      × ((standard_char (url_char n) == b'=') ≡ false)
unfolding known
position-url_char n h =
    let k = passes_up_to-at known 64 n known_table h in (is_some→≡ n _ (ground arith), ground arith)

no_dot_table : passes_up_to (λ n. not (url_char n == b'.')) 64 ≡ true
unfolding passes_up_to url_char
no_dot_table = refl

pub url_char-ne-dot : (n : ℕ) → n < 64 → (url_char n == b'.') ≡ false
url_char-ne-dot n h =
    let k = passes_up_to-at (λ m. not (url_char m == b'.')) 64 n no_dot_table h in ground arith

-- One round of the loop at a character of the alphabet.
take_char_known :
    (c n : ℕ) (b : Bits) → position c 0 alphabet ≡ some n → take_char c b ≡ take_bits n b
unfolding take_char
take_char_known c n b e = rw (e, take_char) refl

decode-known :
    (c n : ℕ) (b : Bits) (s : List ℕ)
    → position c 0 alphabet ≡ some n
    → (c == b'=') ≡ false
    → decode_chars b (c ∷ s) ≡ push (take_bits n b).1 (decode_chars (take_bits n b).0 s)
unfolding decode_chars
decode-known c n b s e e' = rw (e', take_char_known c n b e) refl

abbrev after : ℕ → ℕ → ℕ
after v n = (v * 64 + n) % 4294967296

abbrev idle : ℕ → Bits
idle v = record { val = v; valb = negsuc 7 }

take_bits_first :
    (v n : ℕ) → take_bits n (idle v) ≡ (record { val = after v n; valb = negsuc 1 }, none)
unfolding take_bits
take_bits_first v n = refl

take_bits_second :
    (v n : ℕ)
    → take_bits n (record { val = v; valb = negsuc 1 })
      ≡ (record { val = after v n; valb = negsuc 3 }, some ((after v n / 16) % 256))
unfolding take_bits
take_bits_second v n = refl

take_bits_third :
    (v n : ℕ)
    → take_bits n (record { val = v; valb = negsuc 3 })
      ≡ (record { val = after v n; valb = negsuc 5 }, some ((after v n / 4) % 256))
unfolding take_bits
take_bits_third v n = refl

take_bits_fourth :
    (v n : ℕ)
    → take_bits n (record { val = v; valb = negsuc 5 })
      ≡ (idle (after v n), some ((after v n / 1) % 256))
unfolding take_bits
take_bits_fourth v n = refl

abbrev sextet : ℕ → ℕ
sextet n = standard_char (url_char n)

decode-sextet :
    (n : ℕ) (b : Bits) (s : List ℕ)
    → n < 64
    → decode_chars b (sextet n ∷ s) ≡ push (take_bits n b).1 (decode_chars (take_bits n b).0 s)
decode-sextet n b s h = let k = position-url_char n h in decode-known (sextet n) n b s k.0 k.1

module _ (v n : ℕ) (s : List ℕ) (h : n < 64) where
  decode_first :
      decode_chars (idle v) (sextet n ∷ s)
      ≡ decode_chars (record { val = after v n; valb = negsuc 1 }) s
  decode_first = decode-sextet n (idle v) s h ∙ rw (take_bits_first v n) refl

  decode_second :
      (x : ℕ)
      → (after v n / 16) % 256 ≡ x
      → decode_chars (record { val = v; valb = negsuc 1 }) (sextet n ∷ s)
        ≡ x ∷ decode_chars (record { val = after v n; valb = negsuc 3 }) s
  decode_second x e = decode-sextet n _ s h ∙ rw (take_bits_second v n, e) refl

  decode_third :
      (x : ℕ)
      → (after v n / 4) % 256 ≡ x
      → decode_chars (record { val = v; valb = negsuc 3 }) (sextet n ∷ s)
        ≡ x ∷ decode_chars (record { val = after v n; valb = negsuc 5 }) s
  decode_third x e = decode-sextet n _ s h ∙ rw (take_bits_third v n, e) refl

  decode_fourth :
      (x : ℕ)
      → (after v n / 1) % 256 ≡ x
      → decode_chars (record { val = v; valb = negsuc 5 }) (sextet n ∷ s)
        ≡ x ∷ decode_chars (idle (after v n)) s
  decode_fourth x e = decode-sextet n _ s h ∙ rw (take_bits_fourth v n, e) refl

-- The loop over the text of some bytes and some `=` characters gives the bytes, whatever bits are left
-- from before.
abbrev Ends : List ℕ → Type 0
Ends s = (b : Bits) → decode_chars b s ≡ []

decode-url_text :
    (bs : List ℕ) (v : ℕ) (tail : List ℕ)
    → AreBytes bs
    → Ends tail
    → decode_chars (idle v) (map standard_char (url_text bs) ++ tail) ≡ bs
unfolding url_text
decode-url_text [] v tail h t = t (idle v)
decode-url_text (a ∷ []) v tail h t =
    decode_first v (a / 4) _ (omega arith)
    ∙ decode_second _ (a % 4 * 16) tail (omega arith) a (omega arith)
    ∙ ap (◌∷◌ a) (t _)
decode-url_text (a ∷ b ∷ []) v tail h t =
    decode_first v (a / 4) _ (omega arith)
    ∙ decode_second _ (a % 4 * 16 + b / 16) _ (omega arith) a (omega arith)
    ∙ ap (◌∷◌ a) (decode_third _ (b % 16 * 4) tail (omega arith) b (omega arith) ∙ ap (◌∷◌ b) (t _))
decode-url_text (a ∷ b ∷ c ∷ bs) v tail (ha, (hb, (hc, h))) t =
    decode_first v (a / 4) _ (omega arith)
    ∙ decode_second _ (a % 4 * 16 + b / 16) _ (omega arith) a (omega arith)
    ∙ ap (◌∷◌ a) (
        decode_third _ (b % 16 * 4 + c / 64) _ (omega arith) b (omega arith)
        ∙ ap (◌∷◌ b) (
            decode_fourth _ (c % 64) _ (omega arith) c (omega arith)
            ∙ ap (◌∷◌ c) (decode-url_text bs _ tail h t)))

equals-Ends : (k : ℕ) (more : List ℕ) → Ends more → Ends (replicate k b'=' ++ more)
unfolding decode_chars
equals-Ends zero more h b = h b
equals-Ends (suc k) more h b = refl

padding-Ends : (k : ℕ) → Ends (replicate k b'=')
unfolding decode_chars
padding-Ends zero b = refl
padding-Ends (suc k) b = refl

standard-equals : (k : ℕ) → map standard_char (replicate k b'=') ≡ replicate k b'='
unfolding standard_char
standard-equals zero = refl
standard-equals (suc k) = ap (◌∷◌ b'=') (standard-equals k)

-- Both decoders give back the bytes of every base64url text of RFC 4648, without padding or with any
-- number of `=` characters behind it.
pub decode-url_text_padded :
    (bs : List ℕ) (k : ℕ)
    → AreBytes bs
    → let text = url_text bs ++ replicate k b'=' in (decode text ≡ bs) × (decode_padded text ≡ bs)
unfolding decode decode_padded pad
decode-url_text_padded bs k h =
    let split = map-append standard_char (url_text bs) (replicate k b'=') in
    (
      rw (split, standard-equals k) (decode-url_text bs 0 _ h (padding-Ends k)),
      rw (split, standard-equals k)
          (ap (decode_chars no_bits) (append_assoc (map standard_char (url_text bs)) _ _)
            ∙ decode-url_text bs 0 _ h (equals-Ends k _ (padding-Ends _))),
    )
