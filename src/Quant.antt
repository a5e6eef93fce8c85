-- ===== src/Quant.antt =====
-- include/nwx/quant.hpp and src/core/quant.cpp: weights as 8-bit integers with a scale for each row.
use neuralware_x.Prelude.{
  ℕ, ◌+◌, ◌*◌, Bool, List, [], ◌∷◌, if◌then◌else◌, get_or, set, replicate, for_up,
}
use neuralware_x.Prelude.Int.{ℤ, pos, negsuc, ◌+ℤ◌, ◌*ℤ◌, ltb_ℤ}
use neuralware_x.Double.{Double, nought, one}
use neuralware_x.Tensor.{Tensor2D, at, zeros, for_cells}

pub record QuantLayer (D : Type 0) : Type 0 where
  pub wq : List ℤ
  pub sw : List D
  pub out : ℕ
  pub in_dim : ℕ

pub record QuantMlp (D : Type 0) : Type 0 where
  pub enabled : Bool
  pub l1 : QuantLayer D
  pub l2 : QuantLayer D

-- `if (v>127) v=127; if (v<-127) v=-127;`
unfoldable pub clamp_i8 : ℤ → ℤ
clamp_i8 v =
    let high = if ltb_ℤ (pos 127) v then pos 127 else v in
    if ltb_ℤ high (negsuc 126) then negsuc 126 else high

module _ {D : Type 0} ⦃d : Double D⦄ where
  abbrev tiny : D
  tiny = d.decimal 1 12

  -- The largest absolute value of a row, from 1e-12 up.
  unfoldable pub row_maxabs : Tensor2D D → ℕ → D
  unfolding for_up
  row_maxabs W o = for_up W.cols (λ i m. let v = d.abs (at W o i) in if d.lt m v then v else m) tiny

  unfoldable pub row_scale : Tensor2D D → ℕ → D
  unfolding row_maxabs
  row_scale W o =
      let s = d.div (row_maxabs W o) (d.decimal 127 0) in
      if d.lt s tiny then d.div one (d.decimal 127 0) else s

  unfoldable pub quantize_weights : Tensor2D D → QuantLayer D
  unfolding for_up row_scale clamp_i8
  quantize_weights W =
      for_up W.rows
        (λ o q.
          let s = row_scale W o in
          for_up W.cols
            (λ i q'. record q' {
              wq = set q'.wq (o * W.cols + i) (clamp_i8 (d.lround (d.div (at W o i) s)));
            })
            (record q { sw = set q.sw o s }))
        (record {
          wq = replicate (W.rows * W.cols) (pos 0);
          sw = replicate W.rows nought;
          out = W.rows;
          in_dim = W.cols;
        })

  abbrev max_cells : List D → D → D
  max_cells [] m = m
  max_cells (v ∷ vs) m = max_cells vs (if d.lt m (d.abs v) then d.abs v else m)

  unfoldable pub dynamic_act_scale : Tensor2D D → D
  dynamic_act_scale X = d.div (max_cells X.cells tiny) (d.decimal 127 0)

  -- The integer sum of one output cell.
  unfoldable pub dot_i8 : Tensor2D D → QuantLayer D → D → ℕ → ℕ → ℤ
  unfolding for_up ◌+ℤ◌ ◌*ℤ◌
  dot_i8 X ql sx r o =
      for_up X.cols
        (λ i acc. acc +ℤ get_or ql.wq (o * ql.in_dim + i) (pos 0) *ℤ d.lround (d.div (at X r i) sx))
        (pos 0)

  unfoldable pub gemm_i8_dequant : Tensor2D D → QuantLayer D → D → Tensor2D D
  unfolding for_cells dot_i8
  gemm_i8_dequant X ql sx =
      for_cells X.rows ql.out
        (λ r o _. d.mul (d.of_int (dot_i8 X ql sx r o)) (d.mul sx (get_or ql.sw o nought)))
        (zeros X.rows ql.out)
