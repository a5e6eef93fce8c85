-- ===== src/Tools/Encrypt.antt =====
-- src/app/encrypt.cpp, and the start of src/app/serve.cpp where it reads an encrypted bundle. AES-256-GCM
-- and `sscanf` with "%2x" are parameters.
pub mod Sealed
use Prim.Native.String.{String}
use text.Mathlib.Text.{◌==◌ as str_eq}
use neuralware_x.Prelude.{
  ℕ, zero, suc, ◌+◌, ◌-◌, ◌||◌, ◌&&◌, Bool, true, false, Option, none, some, List, [], ◌∷◌, ◌++◌,
  ltb, leb, if◌then◌else◌, length, take, drop,
}
use neuralware_x.Prelude.Text.{codes}
use neuralware_x.Tools.Run.{Run, exits, done, ◌>>=◌}

-- The cipher: encryption gives the text and the tag of 16 bytes, decryption fails where the tag is not
-- that of the text.
pub record Cipher : Type 0 where
  pub encrypt : (key iv plain : List ℕ) → List ℕ × List ℕ
  pub decrypt : (key iv text tag : List ℕ) → Option (List ℕ)

pub record EncryptArgs : Type 0 where
  pub in_path : String
  pub out_path : String
  pub mode : String
  pub keyhex : String

abbrev pub no_args : EncryptArgs
no_args = record { in_path = ""; out_path = ""; mode = ""; keyhex = "" }

abbrev pub is_mode : String → Bool
is_mode a = str_eq a "--encrypt" || str_eq a "--decrypt"

-- An argument without its value, and the first mode.
abbrev pub set_mode : String → EncryptArgs → EncryptArgs
set_mode a o = if is_mode a && str_eq o.mode "" then record o { mode = a } else o

-- The options with a value; `none`: the argument is something else.
abbrev pub set_path : String → String → EncryptArgs → Option EncryptArgs
set_path a v o =
    if str_eq a "--in"
    then some (record o { in_path = v })
    else if str_eq a "--out"
    then some (record o { out_path = v })
    else if str_eq a "--key"
    then some (record o { keyhex = v })
    else none

unfoldable pub encrypt_args : EncryptArgs → List String → EncryptArgs
encrypt_args o [] = o
encrypt_args o (a ∷ []) = set_mode a o
encrypt_args o (a ∷ v ∷ args) = elim (set_path a v o) [
  | some o' ↦ encrypt_args o' args
  | none ↦ encrypt_args (set_mode a o) (v ∷ args)
]

-- `iv(src.begin(), src.begin()+12)`, `tag(src.end()-16, src.end())` and what is between them.
abbrev pub iv_of : List ℕ → List ℕ
iv_of src = take 12 src

abbrev pub tag_of : List ℕ → List ℕ
tag_of src = drop (length src - 16) src

abbrev pub text_of : List ℕ → List ℕ
text_of src = take (length src - 28) (drop 12 src)

module _ (cipher : Cipher) where
  unfoldable pub sealed : (key iv src : List ℕ) → List ℕ
  sealed key iv src = let (text, tag) = cipher.encrypt key iv src in iv ++ (text ++ tag)

  unfoldable pub opened : (key src : List ℕ) → Run (List ℕ)
  opened key src =
      if ltb (length src) 28
      then exits 6
      else (elim (cipher.decrypt key (iv_of src) (text_of src) (tag_of src)) [
        | none ↦ exits 7
        | some plain ↦ done plain
      ])

  -- `key_of` reads 32 bytes from pairs of hexadecimal digits, `iv` is drawn by `RAND_bytes`, and a file is
  -- its bytes, `none` where it does not open. What is done is the file that is written.
  unfoldable pub encrypt_main :
      (key_of : String → List ℕ)
      → (files : String → Option (List ℕ)) → (iv : List ℕ) → List String
      → Run (List ℕ)
  unfolding encrypt_args sealed opened
  encrypt_main key_of files iv args =
      let o = encrypt_args no_args args in
      if ltb (length args) 4 then exits 2 else (elim (files o.in_path) [
        | none ↦ exits 4
        | some src ↦
            if ltb (length (codes o.keyhex)) 64
            then exits 5
            else if str_eq o.mode "--encrypt"
            then done (sealed (key_of o.keyhex) iv src)
            else if str_eq o.mode "--decrypt"
            then opened (key_of o.keyhex) src
            else exits 8
      ])

  -- What `serve` loads from an encrypted file: the plain bytes, or `none`, and then it goes on with the
  -- file itself.
  unfoldable pub served_bundle : (key src : List ℕ) → Option (List ℕ)
  served_bundle key src =
      if leb 28 (length src)
      then cipher.decrypt key (iv_of src) (text_of src) (tag_of src)
      else none
