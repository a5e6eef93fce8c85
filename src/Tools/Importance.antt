-- ===== src/Tools/Importance.antt =====
-- src/app/importance.cpp: how much accuracy is lost when one column is shuffled.
use Prim.Native.String.{String}
use text.Mathlib.Text.{◌==◌ as str_eq}
use neuralware_x.Prelude.{
  ℕ, zero, suc, Option, List, [], ◌∷◌, ◌++◌, ltb, if◌then◌else◌, length, get_or, for_up,
}
use neuralware_x.Prelude.Int.{pos}
use neuralware_x.Double.{Double, Rng}
use neuralware_x.Tensor.{Tensor2D, Backend, at, put, softmax, accuracy}
use neuralware_x.Split.{indices}
use neuralware_x.Capi.{Handle}
use neuralware_x.Io.Stream.{Codec}
use neuralware_x.Io.Csv.{read_csv_numeric, comma}
use neuralware_x.Loading.{load_tool}
use neuralware_x.Tools.Run.{Run, exits, done, ◌>>=◌, Change, unknown_name, sets, scan_args}
use neuralware_x.Tools.Scoring.{scale_input, logits_of, data_of, model_of}

pub record ImportanceArgs : Type 0 where
  pub dataset : String
  pub model : String

abbrev pub importance_arg : String → String → ImportanceArgs → Change ImportanceArgs
importance_arg a v o =
    if str_eq a "--dataset"
    then sets (record o { dataset = v })
    else if str_eq a "--model"
    then sets (record o { model = v })
    else unknown_name

module _ {D : Type 0} ⦃d : Double D⦄ where
  -- `Xp(i,f) = X0(perm[i], f)` in a copy.
  unfoldable pub shuffled_column : Tensor2D D → ℕ → List ℕ → Tensor2D D
  unfolding for_up
  shuffled_column X0 f perm = for_up X0.rows (λ i Xp. put Xp i f (at X0 (get_or perm i 0) f)) X0

  unfoldable pub accuracy_of : Backend D → Handle D → Tensor2D D → List ℕ → D
  accuracy_of e h X y = accuracy (softmax (logits_of e h X)) y

  -- The drops of the columns below `n`, with one generator through all of them.
  unfoldable pub drops :
      {G : Type 0} → Backend D → Rng G D → Handle D → Tensor2D D → List ℕ → D → ℕ → G → List D × G
  unfolding shuffled_column accuracy_of
  drops e r h X0 y base zero g = ([], g)
  drops e r h X0 y base (suc f) g =
      let (before, g1) = drops e r h X0 y base f g in
      let (perm, g2) = r.shuffle (indices X0.rows) g1 in
      (before ++ (d.sub base (accuracy_of e h (shuffled_column X0 f perm) y) ∷ []), g2)

  -- The drop of each feature and the accuracy before.
  unfoldable pub importance_main :
      {G : Type 0}
      → Backend D
      → Codec D
      → Rng G D
      → (stod : List ℕ → Option D) → (files : String → Option (List ℕ)) → List String
      → Run (List D × D)
  unfolding drops accuracy_of
  importance_main e c r stod files args =
      if ltb (length args) 2
      then exits 2
      else scan_args importance_arg (record { dataset = ""; model = "" }) args >>= λ o.
          data_of 3 (read_csv_numeric stod (files o.dataset) comma) >>= λ set.
          model_of 4 (load_tool c (files o.model)) >>= λ h.
          let X0 = scale_input h set.x in
          let base = accuracy_of e h X0 set.y in
          done ((drops e r h X0 set.y base set.x.cols (r.seed (pos 7))).0, base)
