-- ===== src/Io/RoundTrip.antt =====
-- What src/io/serialize.cpp and src/io/bundle.cpp write is what they read.
use mathlib.Core.List.{append_assoc, append-nil}
use neuralware_x.Prelude.{
  ℕ, ◌%◌, ◌<◌, ◌≡◌, ◌≢◌, refl, ap, subst, sym, ◌∙◌, inl, inr, Bool, Bool-cases, true, false, some,
  List, [], ◌∷◌, ◌++◌, arith, ltb, length, take,
}
use neuralware_x.Prelude.Int.{ℤ, pos, ◌*ℤ◌}
use neuralware_x.Double.{Double, nought, one}
use neuralware_x.Scaler.{StandardScaler}
use neuralware_x.Io.Stream.{
  Codec, IsCodec, IsInt, int_bytes, size_bytes, doubles_bytes, int_of, word_of, le_value,
  int_of-word_of, read-append, read_int-append, read_size-append, read_doubles-append,
}
use neuralware_x.Io.Serialize.{
  FileMat, FileModel, max_size, cell_count, write_vec, write_mat, write_tensors, save_model,
  read_int_into, read_vec, read_mat, read_grid, read_cells, read_count, read_tensors, load_model,
  pure, ◌>>=◌, ok, Reader,
}
use neuralware_x.Io.Bundle.{
  ModelBundle, magic, same_bytes, write_scaler, bundle_bytes, save_bundle, read_temperature,
  read_scaler, read_bundle, load_bundle, is_one,
}

-- A reader that takes these bytes, whatever follows them, and returns this value.
record Reads {A : Type 0} (m : Reader A) (bytes : List ℕ) (a : A) : Type 0 where
  run : (rest : List ℕ) → m (ok (bytes ++ rest)) ≡ some (a, ok rest)

module _ {A : Type 0} {m : Reader A} {xs : List ℕ} {a : A} where
  Reads-whole : Reads m xs a → m (ok xs) ≡ some (a, ok [])
  Reads-whole h = subst (λ bytes. m (ok bytes) ≡ some (a, ok [])) (append-nil xs) (h.run [])

module _ {A B : Type 0} {m : Reader A} {xs : List ℕ} {a : A} where
  Reads-bind :
      (f : A → Reader B) {ys : List ℕ} {b : B}
      → Reads m xs a
      → Reads (f a) ys b
      → Reads (m >>= f) (xs ++ ys) b
  unfolding ◌>>=◌
  Reads-bind f {ys = ys} h k = record {
    run = λ rest. rw (append_assoc xs ys rest, ◌>>=◌, h.run (ys ++ rest)) (k.run rest);
  }

  Reads-bind_nil :
      (f : A → Reader B) {b : B} → Reads m xs a → Reads (f a) [] b → Reads (m >>= f) xs b
  unfolding ◌>>=◌
  Reads-bind_nil f h k = record { run = λ rest. rw (◌>>=◌, h.run rest) (k.run rest) }

  -- The last step.
  Reads-pure : (g : A → B) → Reads m xs a → Reads (m >>= λ x. pure (g x)) xs (g a)
  unfolding ◌>>=◌ pure
  Reads-pure g h = record { run = λ rest. rw (◌>>=◌, h.run rest) refl }

cell_count-pos : (a b : ℤ) (n : ℕ) → a *ℤ b ≡ pos n → n < 2147483648 → cell_count a b ≡ some n
unfolding cell_count int_of word_of
cell_count-pos a b n e h =
    let small : n % 4294967296 ≡ n = omega arith in
    let test : ltb n 2147483648 ≡ true = ground arith in rw (cell_count, e, small, test) refl

module _ {D : Type 0} ⦃d : Double D⦄ where
  -- A matrix with as many cells as its dimensions say, all of them `int`s.
  pub record IsStorableMat (t : FileMat D) : Type 0 where
    pub rows_int : IsInt t.rows
    pub cols_int : IsInt t.cols
    pub cells_all : t.rows *ℤ t.cols ≡ pos (length t.cells)
    pub cells_int : length t.cells < 2147483648

  pub record IsStorable (m : FileModel D) : Type 0 where
    pub act_int : IsInt m.act
    pub in_int : IsInt m.in_dim
    pub hidden_int : IsInt m.hidden
    pub out_int : IsInt m.out
    pub w1_mat : IsStorableMat m.w1
    pub w2_mat : IsStorableMat m.w2
    pub b1_vec : length m.b1 < 1152921504606846976
    pub b2_vec : length m.b2 < 1152921504606846976

  pub record IsStorableScaler (s : StandardScaler D) : Type 0 where
    pub mean_vec : length s.mean < 1152921504606846976
    pub stdv_vec : length s.stdv ≡ length s.mean

Reads-int : (old z : ℤ) → IsInt z → Reads (read_int_into old) (int_bytes z) z
unfolding read_int_into
Reads-int old z h = record { run = λ rest. ap some (read_int-append old z rest h) }

Reads-count : (n : ℕ) → n < 18446744073709551616 → Reads read_count (size_bytes n) n
unfolding read_count
Reads-count n h = record { run = λ rest. ap some (read_size-append n rest h) }

module _ {D : Type 0} ⦃d : Double D⦄ (c : Codec D) (laws : IsCodec c) where
  Reads-cells :
      (x : D) (n : ℕ) (v : List D)
      → length v ≡ n
      → n < 1152921504606846976
      → Reads (read_cells c x n) (doubles_bytes c v) v
  unfolding read_cells
  Reads-cells x n v e h =
      let fits : ltb max_size n ≡ false = ground arith in
      record { run = λ rest. rw (read_cells, fits, read_doubles-append c laws n x v rest e) refl }

  Reads-vec : (v : List D) → length v < 1152921504606846976 → Reads (read_vec c) (write_vec c v) v
  unfolding read_vec
  Reads-vec v h =
      Reads-bind _ (Reads-count (length v) (omega arith)) (Reads-cells nought (length v) v refl h)

  Reads-mat : (old t : FileMat D) → IsStorableMat t → Reads (read_mat c old) (write_mat c t) t
  unfolding read_mat read_grid
  Reads-mat old t h =
      let grid : Reads (read_grid c (cell_count t.rows t.cols)) (doubles_bytes c t.cells) t.cells =
        rw (cell_count-pos t.rows t.cols (length t.cells) h.cells_all h.cells_int) (
          Reads-cells nought (length t.cells) t.cells refl
            (let small = h.cells_int in omega arith)) in
      Reads-bind _ (Reads-int old.rows t.rows h.rows_int) (
        Reads-bind _ (Reads-int old.cols t.cols h.cols_int)
          (Reads-pure (λ cells. record { rows = t.rows; cols = t.cols; cells = cells }) grid))

  Reads-tensors :
      (old m : FileModel D)
      → IsStorable m
      → Reads
          (read_tensors c old)
          (write_tensors c m)
          (record m { act = old.act; temperature = old.temperature })
  unfolding read_tensors write_tensors
  Reads-tensors old m h = Reads-bind _ (Reads-int old.in_dim m.in_dim h.in_int) (
      Reads-bind _ (Reads-int old.hidden m.hidden h.hidden_int) (
        Reads-bind _ (Reads-int old.out m.out h.out_int) (
          Reads-bind _ (Reads-mat old.w1 m.w1 h.w1_mat) (
            Reads-bind _ (Reads-vec m.b1 h.b1_vec) (
              Reads-bind _ (Reads-mat old.w2 m.w2 h.w2_mat) (
                Reads-pure
                  (λ b2. record m { act = old.act; temperature = old.temperature; b2 = b2 })
                  (Reads-vec m.b2 h.b2_vec)))))))

  Reads-temperature : (t : D) → Reads (read_temperature c) (doubles_bytes c (t ∷ [])) t
  unfolding read_temperature
  Reads-temperature t = record {
    run = λ rest. rw (read_temperature, read_doubles-append c laws 1 one (t ∷ []) rest refl) refl;
  }

  flag_of : Bool → ℤ
  flag_of true = pos 1
  flag_of false = pos 0

  Reads-scaler :
      (old s : StandardScaler D)
      → IsStorableScaler s
      → Reads
          (read_scaler c true old)
          (size_bytes (length s.mean)
            ++ (doubles_bytes c s.mean ++ doubles_bytes c (take (length s.mean) s.stdv)))
          s
  unfolding read_scaler
  Reads-scaler old s h =
      let small = h.mean_vec in
      let whole : take (length s.mean) s.stdv ≡ s.stdv = rw (← h.stdv_vec) (take_all s.stdv) in
      rw whole (
        Reads-bind _ (Reads-count (length s.mean) (omega arith)) (
          Reads-bind _ (Reads-cells nought (length s.mean) s.mean refl h.mean_vec) (
            Reads-pure (λ stdv. record { mean = s.mean; stdv = stdv })
              (Reads-cells one (length s.mean) s.stdv h.stdv_vec h.mean_vec))))
    where
      take_all : (xs : List D) → take (length xs) xs ≡ xs
      take_all [] = refl
      take_all (x ∷ xs) = ap (◌∷◌ x) (take_all xs)

  -- The scaler after a load: without the flag it is the one that was there.
  abbrev pub scaler_after : Bool → StandardScaler D → StandardScaler D → StandardScaler D
  scaler_after true s old = s
  scaler_after false s old = old

  abbrev pub MaybeStorableScaler : Bool → StandardScaler D → Type 0
  MaybeStorableScaler true s = IsStorableScaler s
  MaybeStorableScaler false s = Unit

  Reads-none :
      (old : StandardScaler D) (m : FileModel D)
      → Reads {A = ModelBundle D}
          (read_scaler c false old >>= λ s'.
            pure (record { model = m; has_scaler = false; scaler = s' }))
          []
          (record { model = m; has_scaler = false; scaler = old })
  unfolding read_scaler ◌>>=◌ pure
  Reads-none old m = record { run = λ rest. refl }

  -- The flag and the statistics.
  Reads-tail :
      (flag : Bool) (old s : StandardScaler D) (m : FileModel D)
      → MaybeStorableScaler flag s
      → Reads {A = ModelBundle D}
          (read_int_into (pos 0) >>= λ f. read_scaler c (is_one f) old >>= λ s'.
            pure (record { model = m; has_scaler = is_one f; scaler = s' }))
          (write_scaler c flag s)
          (record { model = m; has_scaler = flag; scaler = scaler_after flag s old })
  Reads-tail true old s m h = Reads-bind _ (Reads-int (pos 0) (pos 1) (omega arith)) (
      Reads-pure (λ s'. record { model = m; has_scaler = true; scaler = s' })
        (Reads-scaler old s h))
  Reads-tail false old s m h =
      Reads-bind_nil _ (Reads-int (pos 0) (pos 0) (omega arith)) (Reads-none old m)

  Reads-bundle :
      (old b : ModelBundle D)
      → IsStorable b.model
      → MaybeStorableScaler b.has_scaler b.scaler
      → Reads
          (read_bundle c old)
          (int_bytes b.model.act
            ++ (write_tensors c b.model
                ++ (doubles_bytes c (b.model.temperature ∷ [])
                    ++ write_scaler c b.has_scaler b.scaler)))
          (record b { scaler = scaler_after b.has_scaler b.scaler old.scaler })
  unfolding read_bundle
  Reads-bundle old b h hs = Reads-bind _ (Reads-int (pos 0) b.model.act h.act_int) (
      Reads-bind _ (Reads-tensors (record old.model { act = b.model.act }) b.model h) (
        Reads-bind _ (Reads-temperature b.model.temperature)
          (Reads-tail b.has_scaler old.scaler b.scaler b.model hs)))

  -- A bundle that `save_bundle` writes to a file that opens is read back by `load_bundle` as it was,
  -- whatever the bundle held before, when its dimensions and activation are `int`s, its matrices have
  -- as many cells as their dimensions say, and its scaler, if the flag is set, has as many deviations
  -- as means; only the scaler of a bundle without the flag is the one that was there before.
  pub load_bundle-save_bundle :
      (old b : ModelBundle D)
      → IsStorable b.model
      → MaybeStorableScaler b.has_scaler b.scaler
      → load_bundle c old (some (save_bundle c true b).1)
        ≡ some (true, record b { scaler = scaler_after b.has_scaler b.scaler old.scaler })
  unfolding load_bundle save_bundle bundle_bytes
  load_bundle-save_bundle old b h hs =
      let tail =
        int_bytes b.model.act
        ++ (write_tensors c b.model
            ++ (doubles_bytes c (b.model.temperature ∷ [])
                ++ write_scaler c b.has_scaler b.scaler)) in
      rw (read-append (0 ∷ 0 ∷ 0 ∷ 0 ∷ []) magic tail refl)
        (rw (Reads-whole (Reads-bundle old b h hs)) refl)

  -- The header of an old file is the low bytes of its first dimension.
  magic_only : (z : ℤ) → IsInt z → z ≢ pos 861427534 → same_bytes (int_bytes z) magic ≡ false
  unfolding int_bytes int_of
  magic_only z h other = elim (Bool-cases (same_bytes (int_bytes z) magic)) [
    | inl same ↦ absurd (
        other (
          sym (int_of-word_of z h)
          ∙ ap (λ bytes. int_of (le_value bytes)) (same_bytes→≡ (int_bytes z) magic same)))
    | inr differs ↦ differs
  ]
    where
      same_bytes→≡ : (xs ys : List ℕ) → same_bytes xs ys ≡ true → xs ≡ ys
      same_bytes→≡ [] [] e = refl
      same_bytes→≡ [] (y ∷ ys) e = absurd (ground arith)
      same_bytes→≡ (x ∷ xs) [] e = absurd (ground arith)
      same_bytes→≡ (x ∷ xs) (y ∷ ys) e = ground (arith, same_bytes→≡ xs ys)

  length-int_bytes : (z : ℤ) → length (int_bytes z) ≡ 4
  unfolding int_bytes
  length-int_bytes z = refl

  load_model-save_model :
      (old m : FileModel D)
      → IsStorable m
      → load_model c old (some (save_model c true m).1)
        ≡ some (true, record m { act = old.act; temperature = old.temperature })
  unfolding load_model save_model
  load_model-save_model old m h = rw (load_model, Reads-whole (Reads-tensors old m h)) refl

  -- The file of a model without a header, as `save_model` writes it, is read by `load_bundle` too,
  -- unless its first dimension spells the magic: the dimensions, weights and biases are those of the
  -- file, the activation, the temperature and the scaler are those that were there, and the flag is
  -- cleared.
  pub load_bundle-save_model :
      (old : ModelBundle D) (m : FileModel D)
      → IsStorable m
      → m.in_dim ≢ pos 861427534
      → load_bundle c old (some (save_model c true m).1)
        ≡ some (
          true,
          record {
            model = record m { act = old.model.act; temperature = old.model.temperature };
            has_scaler = false;
            scaler = old.scaler;
          },
        )
  unfolding load_bundle save_model write_tensors
  load_bundle-save_model old m h other =
      let z = write_mat c m.w1 ++ (write_vec c m.b1 ++ (write_mat c m.w2 ++ write_vec c m.b2)) in
      rw
        (
          read-append (0 ∷ 0 ∷ 0 ∷ 0 ∷ []) (int_bytes m.in_dim)
              (int_bytes m.hidden ++ (int_bytes m.out ++ z)) (length-int_bytes m.in_dim),
          magic_only m.in_dim h.in_int other,
          load_model-save_model old.model m h,
        )
        refl
