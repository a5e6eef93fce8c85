-- ===== src/Args/Append.antt =====
-- Arguments one after the other.
use Prim.Native.String.{String}
use neuralware_x.Prelude.{
  ◌≡◌, refl, ap, ◌⊎◌, inl, inr, Bool-cases, Option, Option-cases, List, [], ◌∷◌, ◌++◌, arith,
}
use neuralware_x.Prelude.Int.{ℤ}
use neuralware_x.Args.{
  Options, Parsed, parsed, exits, throws, Setting, unknown_name, bad_number, now, set_flag,
  set_value, is_help, parse_args,
}

module _ {D : Type 0} (stoi : String → Option ℤ) (stod : String → Option D) where
  -- The rest of the arguments, after what came of the first.
  continue : Parsed D → List String → Parsed D
  continue (parsed o) args = parse_args stoi stod o args
  continue (exits n) args = exits n
  continue throws args = throws

  Setting-cases :
      (s : Setting D) → (s ≡ unknown_name) ⊎ ((s ≡ bad_number) ⊎ ((o : Options D) × (s ≡ now o)))
  Setting-cases unknown_name = inl refl
  Setting-cases bad_number = inr (inl refl)
  Setting-cases (now o) = inr (inr (o, refl))

  -- Arguments that parse to some options, followed by others, give what the others give from those
  -- options: no option reaches beyond its value, and a later one is set over an earlier one.
  pub parse_args-append :
      (o o' : Options D) (first rest : List String)
      → parse_args stoi stod o first ≡ parsed o'
      → parse_args stoi stod o (first ++ rest) ≡ parse_args stoi stod o' rest
  unfolding parse_args continue
  parse_args-append o o' [] rest e = ap (λ p. continue p rest) e
  parse_args-append o o' (a ∷ []) [] e = e
  parse_args-append o o' (a ∷ []) (v ∷ rest) e = elim (Bool-cases (is_help a)) [
    | inl help ↦ let e' = rw help at e in absurd (ground arith)
    | inr work ↦ elim (Option-cases (set_flag a o)) [
      | inl flagless ↦ let e' = rw (work, flagless) at e in absurd (ground arith)
      | inr (o1, flag) ↦
          let e' = rw (work, flag) at e in rw (work, flag) (ap (λ p. continue p (v ∷ rest)) e')
    ]
  ]
  parse_args-append o o' (a ∷ v ∷ first) rest e = elim (Bool-cases (is_help a)) [
    | inl help ↦ let e' = rw help at e in absurd (ground arith)
    | inr work ↦ elim (Option-cases (set_flag a o)) [
      | inr (o1, flag) ↦
          let e' = rw (work, flag) at e in
          rw (work, flag) (parse_args-append o1 o' (v ∷ first) rest e')
      | inl flagless ↦ elim (Setting-cases (set_value stoi stod a v o)) [
        | inl no_name ↦ let e' = rw (work, flagless, no_name) at e in absurd (ground arith)
        | inr (inl no_number) ↦
            let e' = rw (work, flagless, no_number) at e in absurd (ground arith)
        | inr (inr (o1, value)) ↦
            let e' = rw (work, flagless, value) at e in
            rw (work, flagless, value) (parse_args-append o1 o' first rest e')
      ]
    ]
  ]
