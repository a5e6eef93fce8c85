-- ===== src/Tools.antt =====
-- src/app/drift.cpp and src/app/impute.cpp: the numeric parts of the tools. `sort` is `std::sort` and
-- `finite` is `std::isfinite`.
pub mod Bins
pub mod Run
pub mod Encrypt
pub mod Check
pub mod Cv
pub mod Scoring
pub mod Confusion
pub mod Eval
pub mod Importance
pub mod Fairness
pub mod Explain
use Prim.Native.String.{String}
use text.Mathlib.Text.{◌==◌ as str_eq}
use neuralware_x.Prelude.{
  ℕ, zero, suc, ◌+◌, ◌-◌, ◌*◌, ◌/◌, Bool, true, false, List, [], ◌∷◌, ◌++◌, map, ltb, if◌then◌else◌,
  length, get_or, set, replicate,
}
use neuralware_x.Prelude.Int.{pos, pos_part}
use neuralware_x.Double.{Double, nought, one, fmax}

module _ {D : Type 0} ⦃d : Double D⦄ where
  abbrev psi_sum : List D → List D → D → D
  psi_sum [] cur s = s
  psi_sum (x ∷ base) cur s =
      let b = fmax (d.decimal 1 6) x in
      let c = fmax (d.decimal 1 6) (get_or cur 0 nought) in
      psi_sum base (tail_of cur) (d.add s (d.mul (d.sub c b) (d.log (d.div c b))))
    where
      tail_of : List D → List D
      tail_of [] = []
      tail_of (y ∷ ys) = ys

  -- The population stability index of two histograms.
  unfoldable pub psi : List D → List D → D
  psi base cur = psi_sum base cur nought

  -- `for (i=1; i<B; ++i)` on the sorted values of the baseline, from `i`.
  unfoldable pub cuts_from : (rounds i B : ℕ) → List D → List D
  cuts_from zero i B sorted = []
  cuts_from (suc rounds) i B sorted =
      let place = d.lround (d.div (d.of_int (pos (i * (length sorted - 1)))) (d.of_int (pos B))) in
      get_or sorted (pos_part place) nought ∷ cuts_from rounds (i + 1) B sorted

  unfoldable pub cuts : ℕ → List D → List D
  cuts B sorted = cuts_from (B - 1) 1 B sorted

  -- `while (b<cuts.size() && v>cuts[b]) b++;`
  unfoldable pub bin : D → List D → ℕ
  bin v [] = 0
  bin v (c ∷ cs) = let rest = bin v cs in if d.lt c v then suc rest else 0

  abbrev count_bins : List D → List D → List D → List D
  count_bins cs [] h = h
  count_bins cs (v ∷ vs) h =
      let b = bin v cs in count_bins cs vs (set h b (d.add (get_or h b nought) one))

  unfoldable pub histogram : ℕ → List D → List D → List D
  histogram B cs xs =
      map (λ u. d.div u (d.of_int (pos (length xs)))) (count_bins cs xs (replicate B nought))

  abbrev total : List D → D → D
  total [] s = s
  total (v ∷ vs) s = total vs (d.add s v)

  -- The rest of the run of equal values: the value before, the best so far with its count, the count of
  -- the run.
  unfoldable pub longest_run : D → D → ℕ → ℕ → List D → D
  longest_run before best bc cc [] = if ltb bc cc then before else best
  longest_run before best bc cc (v ∷ vs) =
      let same = longest_run v best bc (cc + 1) vs in
      let better = longest_run v before cc 1 vs in
      let other = longest_run v best bc 1 vs in
      if d.eq v before then same else if ltb bc cc then better else other

  abbrev most_frequent : List D → D
  most_frequent [] = nought
  most_frequent (v ∷ vs) = longest_run v v 1 1 vs

module _ {D : Type 0} ⦃d : Double D⦄ (sort : List D → List D) (finite : D → Bool) where
  unfoldable pub finite_column : ℕ → List (List D) → List D
  finite_column c [] = []
  finite_column c (r ∷ rows) =
      let v = get_or r c nought in
      let rest = finite_column c rows in if finite v then v ∷ rest else rest

  -- The value for the holes of a column; 0.0 where it has no finite value.
  unfoldable pub fill_value : String → List D → D
  fill_value strategy [] = nought
  fill_value strategy (v ∷ vs) =
      let sorted = sort (v ∷ vs) in
      if str_eq strategy "median"
      then get_or sorted (length sorted / 2) nought
      else if str_eq strategy "most_frequent"
      then most_frequent sorted
      else d.div (total (v ∷ vs) nought) (d.of_int (pos (length (v ∷ vs))))

  unfoldable pub fills : String → ℕ → ℕ → List (List D) → List D
  fills strategy zero c rows = []
  fills strategy (suc cols) c rows =
      fill_value strategy (finite_column c rows) ∷ fills strategy cols (c + 1) rows

  -- One row of the output: as many cells as there are fills.
  unfoldable pub impute_row : List D → ℕ → List D → List D
  impute_row [] c r = []
  impute_row (f ∷ fs) c r =
      let v = get_or r c nought in (if finite v then v else f) ∷ impute_row fs (c + 1) r
