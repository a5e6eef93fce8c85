-- ===== src/Tools/Encrypt/Sealed.antt =====
-- What is encrypted is decrypted.
use Prim.Native.String.{String}
use neuralware_x.Prelude.{
  ℕ, ◌+◌, ◌-◌, ◌≤◌, ◌≡◌, refl, sym, ap, ◌∙◌, true, false, Option, some, List, [], ◌∷◌, ◌++◌, ltb,
  leb, length, take, drop, length-append, take-append_exact, drop-append_exact, arith,
}
use mathlib.Core.List.{append_assoc}
use neuralware_x.Prelude.Text.{codes}
use neuralware_x.Tools.Run.{done}
use neuralware_x.Tools.Encrypt.{
  Cipher, encrypt_args, iv_of, tag_of, text_of, sealed, opened, encrypt_main, served_bundle,
}

-- The documented laws of AES-256-GCM: the tag has 16 bytes, and decryption with the key, the nonce and the
-- tag of an encryption gives back the text.
pub record IsCipher (cipher : Cipher) : Type 0 where
  pub tag_length : (key iv plain : List ℕ) → length (cipher.encrypt key iv plain).1 ≡ 16
  pub decrypt-encrypt :
      (key iv plain : List ℕ)
      → cipher.decrypt key iv (cipher.encrypt key iv plain).0 (cipher.encrypt key iv plain).1
        ≡ some plain

-- The parts of a file are found again.
module _ (iv text tag : List ℕ) (nonce : length iv ≡ 12) (last : length tag ≡ 16) where
  whole-length : length (iv ++ (text ++ tag)) ≡ length text + 28
  whole-length = omega (arith, nonce, last, length-append iv (text ++ tag), length-append text tag)

  iv_of_lem : iv_of (iv ++ (text ++ tag)) ≡ iv
  iv_of_lem = take-append_exact 12 iv (text ++ tag) nonce

  text_of_lem : text_of (iv ++ (text ++ tag)) ≡ text
  text_of_lem =
      ap (take (length (iv ++ (text ++ tag)) - 28)) (drop-append_exact 12 iv (text ++ tag) nonce)
      ∙ take-append_exact _ text tag (omega (arith, whole-length))

  tag_of_lem : tag_of (iv ++ (text ++ tag)) ≡ tag
  tag_of_lem =
      ap (drop (length (iv ++ (text ++ tag)) - 16)) (sym (append_assoc iv text tag))
      ∙ drop-append_exact _ (iv ++ text) tag
          (omega (arith, whole-length, nonce, length-append iv text))

-- The arguments of a run.
abbrev pub run_args : (in_path mode key : String) → List String
run_args in_path mode key = "--in" ∷ in_path ∷ mode ∷ "--key" ∷ key ∷ []

module _ (cipher : Cipher) (laws : IsCipher cipher) (key iv src : List ℕ)
    (nonce : length iv ≡ 12) where
  opened-sealed : opened cipher key (sealed cipher key iv src) ≡ done src
  unfolding opened sealed
  opened-sealed =
      let text = (cipher.encrypt key iv src).0 in
      let tag = (cipher.encrypt key iv src).1 in
      let last = laws.tag_length key iv src in
      let long : ltb (length (iv ++ (text ++ tag))) 28 ≡ false =
        ground (arith, whole-length iv text tag nonce last) in
      rw
        (
          long,
          iv_of_lem iv text tag nonce last,
          text_of_lem iv text tag nonce last,
          tag_of_lem iv text tag nonce last,
          laws.decrypt-encrypt key iv src,
        )
        refl

  served_bundle-sealed : served_bundle cipher key (sealed cipher key iv src) ≡ some src
  unfolding served_bundle sealed
  served_bundle-sealed =
      let text = (cipher.encrypt key iv src).0 in
      let tag = (cipher.encrypt key iv src).1 in
      let last = laws.tag_length key iv src in
      let long : leb 28 (length (iv ++ (text ++ tag))) ≡ true =
        ground (arith, whole-length iv text tag nonce last) in
      rw
        (
          long,
          iv_of_lem iv text tag nonce last,
          text_of_lem iv text tag nonce last,
          tag_of_lem iv text tag nonce last,
          laws.decrypt-encrypt key iv src,
        )
        refl

-- With a key of 64 characters and a nonce of 12 bytes, `--encrypt` on a file that opens writes a file from
-- which `--decrypt` with that key writes the first file again, and from which the server, which is given
-- the same key, loads it too.
pub encrypt_main-round_trip :
    (cipher : Cipher) (key_of : String → List ℕ) (files files' : String → Option (List ℕ))
    (iv src : List ℕ) (in_path out_path key : String)
    → IsCipher cipher
    → length iv ≡ 12
    → 64 ≤ length (codes key)
    → files in_path ≡ some src
    → files' out_path ≡ some (sealed cipher (key_of key) iv src)
    → (encrypt_main cipher key_of files iv (run_args in_path "--encrypt" key)
        ≡ done (sealed cipher (key_of key) iv src))
      × (encrypt_main cipher key_of files' iv (run_args out_path "--decrypt" key) ≡ done src)
      × (served_bundle cipher (key_of key) (sealed cipher (key_of key) iv src) ≡ some src)
unfolding encrypt_main encrypt_args
encrypt_main-round_trip cipher key_of files files' iv src in_path out_path key laws nonce long_key
      there there' =
    let long : ltb (length (codes key)) 64 ≡ false = ground arith in
    (
      rw (there, long) refl,
      rw (there', long) (opened-sealed cipher laws (key_of key) iv src nonce),
      served_bundle-sealed cipher laws (key_of key) iv src nonce,
    )
