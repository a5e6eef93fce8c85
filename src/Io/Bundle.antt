-- ===== src/Io/Bundle.antt =====
-- src/io/bundle.cpp: the file of a model with its activation, temperature and scaler.
use neuralware_x.Prelude.{
  ℕ, ◌&&◌, Bool, true, false, Option, none, some, List, [], ◌∷◌, ◌++◌, ◌==◌, if◌then◌else◌, length,
  take,
}
use neuralware_x.Prelude.Int.{ℤ, pos, negsuc}
use neuralware_x.Double.{Double, nought, one}
use neuralware_x.Scaler.{StandardScaler}
use neuralware_x.Io.Stream.{Codec, int_bytes, size_bytes, doubles_bytes, read, read_doubles}
use neuralware_x.Io.Serialize.{
  FileModel, Reader, pure, ◌>>=◌, ok, read_count, read_cells, write_tensors, read_int_into,
  read_tensors, load_model,
}

pub record ModelBundle (D : Type 0) : Type 0 where
  pub model : FileModel D
  pub has_scaler : Bool
  pub scaler : StandardScaler D

-- "NWX3"
abbrev pub magic : List ℕ
magic = 78 ∷ 87 ∷ 88 ∷ 51 ∷ []

abbrev pub same_bytes : List ℕ → List ℕ → Bool
same_bytes [] [] = true
same_bytes [] (_ ∷ _) = false
same_bytes (_ ∷ _) [] = false
same_bytes (x ∷ xs) (y ∷ ys) = (x == y) && same_bytes xs ys

abbrev pub is_one : ℤ → Bool
is_one (pos n) = n == 1
is_one (negsuc n) = false

module _ {D : Type 0} ⦃d : Double D⦄ (c : Codec D) where
  -- The flag, and the statistics where there are any. The count is that of the means; the deviations
  -- are as many in every scaler that `fit` made.
  abbrev pub write_scaler : Bool → StandardScaler D → List ℕ
  write_scaler false s = int_bytes (pos 0)
  write_scaler true s =
      int_bytes (pos 1)
      ++ (size_bytes (length s.mean)
          ++ (doubles_bytes c s.mean ++ doubles_bytes c (take (length s.mean) s.stdv)))

  unfoldable pub bundle_bytes : ModelBundle D → List ℕ
  bundle_bytes b =
      magic
      ++ (int_bytes b.model.act
          ++ (write_tensors c b.model
              ++ (doubles_bytes c (b.model.temperature ∷ [])
                  ++ write_scaler b.has_scaler b.scaler)))

  unfoldable pub save_bundle : Bool → ModelBundle D → Bool × List ℕ
  save_bundle opened b = if opened then (true, bundle_bytes b) else (false, [])

  abbrev first_or : D → List D → D
  first_or x [] = x
  first_or x (t ∷ _) = t

  -- `double temp = 1.0; in.read(&temp, sizeof(temp));`
  unfoldable pub read_temperature : Reader D
  read_temperature s = let (ts, s') = read_doubles c 1 one s in some (first_or one ts, s')

  -- Without the flag the scaler of the bundle is left as it was.
  unfoldable pub read_scaler : Bool → StandardScaler D → Reader (StandardScaler D)
  read_scaler false old = pure old
  read_scaler true old = do
    n ← read_count
    mean ← read_cells c nought n
    stdv ← read_cells c one n
    pure (record { mean = mean; stdv = stdv })

  -- What follows the magic.
  unfoldable pub read_bundle : ModelBundle D → Reader (ModelBundle D)
  read_bundle b = do
    act ← read_int_into (pos 0)
    m ← read_tensors c (record b.model { act = act })
    temperature ← read_temperature
    flag ← read_int_into (pos 0)
    scaler ← read_scaler (is_one flag) b.scaler
    pure (record {
      model = record m { temperature = temperature };
      has_scaler = is_one flag;
      scaler = scaler;
    })

  unfoldable pub load_bundle : ModelBundle D → Option (List ℕ) → Option (Bool × ModelBundle D)
  load_bundle b none = some (false, b)
  load_bundle b (some file) =
      let (hdr, s) = read (0 ∷ 0 ∷ 0 ∷ 0 ∷ []) (ok file) in
      if s.good && same_bytes hdr magic
      then (elim (read_bundle b s) [ none ↦ none | some (b', s') ↦ some (true, b') ])
      else (elim (load_model c b.model (some file)) [
        | none ↦ none
        | some (false, m) ↦ some (false, record b { model = m })
        | some (true, m) ↦ some (true, record { model = m; has_scaler = false; scaler = b.scaler })
      ])
