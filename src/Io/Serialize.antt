-- ===== src/Io/Serialize.antt =====
-- src/io/serialize.cpp: the file of a model, without a header.
use neuralware_x.Prelude.{
  ℕ, Bool, true, false, Option, none, some, List, [], ◌++◌, ltb, if◌then◌else◌, length,
}
use neuralware_x.Prelude.Int.{ℤ, ◌*ℤ◌}
use neuralware_x.Double.{Double, nought}
use neuralware_x.Io.Stream.{
  Stream, Codec, int_bytes, size_bytes, doubles_bytes, int_of, word_of, read_int, read_size,
  read_doubles,
}

-- What the files keep of `Tensor2D` and `MLP`, with the signed `int`s of the source. A file of
-- `save_model` has neither `act` nor `temperature`.
pub record FileMat (D : Type 0) : Type 0 where
  pub rows : ℤ
  pub cols : ℤ
  pub cells : List D

pub record FileModel (D : Type 0) : Type 0 where
  pub act : ℤ
  pub temperature : D
  pub in_dim : ℤ
  pub hidden : ℤ
  pub out : ℤ
  pub w1 : FileMat D
  pub b1 : List D
  pub w2 : FileMat D
  pub b2 : List D

-- A reading: `none` where `assign` throws.
abbrev pub Reader : Type 0 → Type 0
Reader A = Stream → Option (A × Stream)

unfoldable pub pure : {A : Type 0} → A → Reader A
pure a s = some (a, s)

infixl 5 ◌>>=◌
unfoldable pub ◌>>=◌ : {A B : Type 0} → Reader A → (A → Reader B) → Reader B
◌>>=◌ m f s = elim (m s) [ none ↦ none | some (a, s') ↦ f a s' ]

-- A stream at the start of a file.
abbrev pub ok : List ℕ → Stream
ok bytes = record { bytes = bytes; good = true }

-- The largest size of a `vector<double>`.
abbrev pub max_size : ℕ
max_size = 1152921504606846975

-- `static_cast<size_t>(t.rows*t.cols)`: the product of two `int`s, wrapped to 32 bits; a negative one
-- becomes a size above `max_size`.
unfoldable pub cell_count : ℤ → ℤ → Option ℕ
cell_count rows cols = elim (int_of (word_of (rows *ℤ cols))) [
  | ℤ.pos n ↦ some n
  | ℤ.negsuc n ↦ none
]

unfoldable pub read_int_into : ℤ → Reader ℤ
read_int_into old s = some (read_int old s)

unfoldable pub read_count : Reader ℕ
read_count s = some (read_size s)

module _ {D : Type 0} ⦃d : Double D⦄ (c : Codec D) where
  abbrev pub write_vec : List D → List ℕ
  write_vec v = size_bytes (length v) ++ doubles_bytes c v

  abbrev pub write_mat : FileMat D → List ℕ
  write_mat t = int_bytes t.rows ++ (int_bytes t.cols ++ doubles_bytes c t.cells)

  -- The dimensions, the weights and the biases.
  unfoldable pub write_tensors : FileModel D → List ℕ
  write_tensors m =
      int_bytes m.in_dim
      ++ (int_bytes m.hidden
          ++ (int_bytes m.out
              ++ (write_mat m.w1 ++ (write_vec m.b1 ++ (write_mat m.w2 ++ write_vec m.b2)))))

  -- `opened` is whether the file could be opened.
  unfoldable pub save_model : Bool → FileModel D → Bool × List ℕ
  save_model opened m = if opened then (true, write_tensors m) else (false, [])

  -- `v.assign(n, x)`, then a read of all of `v`.
  unfoldable pub read_cells : D → ℕ → Reader (List D)
  read_cells x n s = if ltb max_size n then none else some (read_doubles c n x s)

  unfoldable pub read_vec : Reader (List D)
  read_vec = do n ← read_count; read_cells nought n

  unfoldable pub read_grid : Option ℕ → Reader (List D)
  read_grid none s = none
  read_grid (some n) s = read_cells nought n s

  unfoldable pub read_mat : FileMat D → Reader (FileMat D)
  read_mat t = do
    rows ← read_int_into t.rows
    cols ← read_int_into t.cols
    cells ← read_grid (cell_count rows cols)
    pure (record { rows = rows; cols = cols; cells = cells })

  unfoldable pub read_tensors : FileModel D → Reader (FileModel D)
  read_tensors m = do
    in_dim ← read_int_into m.in_dim
    hidden ← read_int_into m.hidden
    out ← read_int_into m.out
    w1 ← read_mat m.w1
    b1 ← read_vec
    w2 ← read_mat m.w2
    b2 ← read_vec
    pure (record m {
      in_dim = in_dim;
      hidden = hidden;
      out = out;
      w1 = w1;
      b1 = b1;
      w2 = w2;
      b2 = b2;
    })

  -- `none` for the file: it does not open. Otherwise the file's bytes; `none` as a result: a throw.
  unfoldable pub load_model : FileModel D → Option (List ℕ) → Option (Bool × FileModel D)
  load_model m none = some (false, m)
  load_model m (some file) = elim (read_tensors m (ok file)) [
    | none ↦ none
    | some (m', s) ↦ some (true, m')
  ]
