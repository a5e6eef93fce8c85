-- ===== src/Json/Entries.antt =====
-- The map of the parsed entries: what a lookup finds after an assignment.
use neuralware_x.Prelude.{
  ℕ, ◌≡◌, refl, ap, sym, ◌∙◌, inl, inr, Bool-cases, true, false, Option, Option-cases, some, none,
  List, [], ◌∷◌, arith, if◌then◌else◌,
}
use neuralware_x.Json.{JsonValue, Entries, same_text, assign, find}

pub same_text_refl : (xs : List ℕ) → same_text xs xs ≡ true
same_text_refl [] = refl
same_text_refl (x ∷ xs) = ground (arith, same_text_refl xs)

pub same_text→≡ : (xs ys : List ℕ) → same_text xs ys ≡ true → xs ≡ ys
same_text→≡ [] [] e = refl
same_text→≡ [] (y ∷ ys) e = absurd (ground arith)
same_text→≡ (x ∷ xs) [] e = absurd (ground arith)
same_text→≡ (x ∷ xs) (y ∷ ys) e = ground (arith, same_text→≡ xs ys)

-- After `kv_[key] = value` the key has this value, and every other key what it had.
find-assign :
    {D : Type 0} (kv : Entries D) (key : List ℕ) (value : JsonValue D) (k : List ℕ)
    → find (assign kv key value) k ≡ (if same_text key k then some value else find kv k)
unfolding find assign
find-assign [] key value k = refl
find-assign ((k0, v0) ∷ kv) key value k = elim (Bool-cases (same_text k0 key)) [
  | inl same ↦
      rw (same, same_text→≡ k0 key same)
        (elim (Bool-cases (same_text key k)) [ inl e ↦ rw e refl | inr e ↦ rw e refl ])
  | inr other ↦
      rw (other, find-assign kv key value k)
        (elim (Bool-cases (same_text k0 k)) [
          | inl here ↦ elim (Bool-cases (same_text key k)) [
            | inl both ↦
                let clash : false ≡ true =
                  sym other ∙ ap (same_text k0) (same_text→≡ key k both) ∙ here in
                absurd (ground arith)
            | inr single ↦ rw (here, single) refl
          ]
          | inr away ↦ rw away refl
        ])
]

-- The assignments, first to last.
abbrev pub assign_all : {D : Type 0} → Entries D → Entries D → Entries D
assign_all kv [] = kv
assign_all kv (m ∷ ms) = assign_all (assign kv m.0 m.1) ms

abbrev or_else {ℓ} : {A : Type ℓ} → Option A → Option A → Option A
or_else (some a) o = some a
or_else none o = o

-- The value of the last member with the key.
abbrev pub last_value : {D : Type 0} → Entries D → List ℕ → Option (JsonValue D)
last_value [] k = none
last_value (m ∷ ms) k = or_else (last_value ms k) (if same_text m.0 k then some m.1 else none)

find-assign_all :
    {D : Type 0} (kv ms : Entries D) (k : List ℕ)
    → find (assign_all kv ms) k ≡ or_else (last_value ms k) (find kv k)
find-assign_all kv [] k = refl
find-assign_all kv (m ∷ ms) k =
    rw (find-assign_all (assign kv m.0 m.1) ms k, find-assign kv m.0 m.1 k)
      (elim (Option-cases (last_value ms k)) [
        | inr (v, e) ↦ rw e refl
        | inl e ↦ elim (Bool-cases (same_text m.0 k)) [
          | inl same ↦ rw (e, same) refl
          | inr other ↦ rw (e, other) refl
        ]
      ])

pub find-assign_last :
    {D : Type 0} (ms : Entries D) (k : List ℕ) → find (assign_all [] ms) k ≡ last_value ms k
unfolding find
find-assign_last ms k =
    find-assign_all [] ms k
    ∙ elim (Option-cases (last_value ms k)) [ inr (v, e) ↦ rw e refl | inl e ↦ rw e refl ]
