-- ===== src/Trainer/Batch.antt =====
-- The slices of the training rows that `train_xent` takes one batch after the other.
use neuralware_x.Prelude.{
  ℕ, zero, suc, ◌+◌, ◌-◌, ◌≤◌, ◌<◌, ◌≡◌, refl, ap, sym, ◌∙◌, inl, inr, Bool-cases, List, [], ◌∷◌,
  ◌++◌, arith, min, ltb, ltb→lt, if◌then◌else◌, length, take, drop, take-append-drop, length-take,
  length-drop,
}
use neuralware_x.Prelude.Int.{ℤ, pos, pos_part, ltb_ℤ}

-- `cfg.batch <= 0 ? n : cfg.batch`
abbrev pub batch_size : ℤ → ℕ → ℕ
batch_size batch n = if ltb_ℤ (pos 0) batch then pos_part batch else n

-- `for (off = ..; off < n; off += B)`: the rows `off .. min(off + B, n)`, and so on.
unfoldable pub slices : ℕ → ℕ → ℕ → List ℕ → List (List ℕ)
slices zero B off idx = []
slices (suc fuel) B off idx =
    let n = length idx in
    let rest = slices fuel B (off + B) idx in
    if ltb off n then take (min (off + B) n - off) (drop off idx) ∷ rest else []

abbrev pub concat : List (List ℕ) → List ℕ
concat [] = []
concat (b ∷ bs) = b ++ concat bs

drop_all : (n : ℕ) (xs : List ℕ) → length xs ≤ n → drop n xs ≡ []
drop_all zero [] h = refl
drop_all zero (x ∷ xs) h = absurd (omega arith)
drop_all (suc n) [] h = refl
drop_all (suc n) (x ∷ xs) h = drop_all n xs (omega arith)

drop-drop : (a b c : ℕ) (xs : List ℕ) → a + b ≡ c → drop b (drop a xs) ≡ drop c xs
drop-drop zero b c xs e = ap (λ n. drop n xs) (omega arith)
drop-drop (suc a) b zero xs e = absurd (omega arith)
drop-drop (suc a) b (suc c) [] e = drop_all b [] (omega arith)
drop-drop (suc a) b (suc c) (x ∷ xs) e = drop-drop a b c xs (omega arith)

-- The part after a slice, whether the slice is cut short or not.
drop_slice :
    (B off : ℕ) (idx : List ℕ)
    → off < length idx
    → drop (off + B) idx ≡ drop (min (off + B) (length idx) - off) (drop off idx)
drop_slice B off idx h = elim (Bool-cases (ltb (off + B) (length idx))) [
  | inl inside ↦ sym (drop-drop off (min (off + B) (length idx) - off) (off + B) idx (ground arith))
  | inr last ↦
      drop_all (off + B) idx (ground arith)
      ∙ sym (
          drop_all (min (off + B) (length idx) - off) (drop off idx)
            (ground (arith, length-drop off idx)))
]

concat-slices :
    (fuel B off : ℕ) (idx : List ℕ)
    → 0 < B
    → length idx ≤ off + fuel
    → concat (slices fuel B off idx) ≡ drop off idx
unfolding slices
concat-slices zero B off idx h enough = sym (drop_all off idx (omega arith))
concat-slices (suc fuel) B off idx h enough = elim (Bool-cases (ltb off (length idx))) [
  | inl more ↦
      rw
        (
          more,
          concat-slices fuel B (off + B) idx h (omega arith),
          drop_slice B off idx (ltb→lt _ _ more),
        )
        (take-append-drop (min (off + B) (length idx) - off) (drop off idx))
  | inr done ↦ rw done (sym (drop_all off idx (ground arith)))
]

-- Every batch has between one row and `B` rows.
abbrev pub AllSized : ℕ → List (List ℕ) → Type 0
AllSized B [] = Unit
AllSized B (b ∷ bs) = (0 < length b) × (length b ≤ B) × AllSized B bs

slices-AllSized : (fuel B off : ℕ) (idx : List ℕ) → 0 < B → AllSized B (slices fuel B off idx)
unfolding slices
slices-AllSized zero B off idx h = tt
slices-AllSized (suc fuel) B off idx h = elim (Bool-cases (ltb off (length idx))) [
  | inl more ↦
      let off_lt = ltb→lt _ _ more in
      rw more (
        omega (
          arith,
          length-take (min (off + B) (length idx) - off) (drop off idx),
          length-drop off idx,
        ),
        omega (
          arith,
          length-take (min (off + B) (length idx) - off) (drop off idx),
          length-drop off idx,
        ),
        slices-AllSized fuel B (off + B) idx h,
      )
  | inr done ↦ rw done tt
]

-- Whatever `cfg.batch` is, the batches of an epoch, one after the other, are the shuffled training
-- rows: with as many rounds as there are rows the loop has ended, no row is left out and none is
-- taken twice; and every batch has at least one row and at most as many as the batch size.
pub slices_cover :
    (batch : ℤ) (idx : List ℕ)
    → let B = batch_size batch (length idx) in
      let bs = slices (length idx) B 0 idx in (concat bs ≡ idx) × AllSized B bs
unfolding slices
slices_cover batch [] = (refl, tt)
slices_cover batch (i ∷ idx) =
    let B = batch_size batch (length (i ∷ idx)) in
    let some_row : 0 < B = ground arith in
    (
      concat-slices (length (i ∷ idx)) B 0 (i ∷ idx) some_row (omega arith),
      slices-AllSized (length (i ∷ idx)) B 0 (i ∷ idx) some_row,
    )
