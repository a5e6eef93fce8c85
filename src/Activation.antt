-- ===== src/Activation.antt =====
-- include/nwx/activation.hpp and src/core/activation.cpp.
use Prim.Native.String.{String}
use text.Mathlib.Text.{◌==◌}
use neuralware_x.Prelude.{◌||◌, if◌then◌else◌}
use neuralware_x.Double.{Double, one}
use neuralware_x.Tensor.{Tensor2D, at, zeros, for_cells, relu, relu_grad}

pub data Activation : Type 0 where
  relu_act tanh_act : Activation

unfoldable pub parse_activation : String → Activation
parse_activation s = if s == "tanh" || s == "Tanh" then tanh_act else relu_act

module _ {D : Type 0} ⦃d : Double D⦄ where
  unfoldable pub tanh_cells : Tensor2D D → Tensor2D D
  unfolding for_cells
  tanh_cells X = for_cells X.rows X.cols (λ i j _. d.tanh (at X i j)) X

  unfoldable pub tanh_grad : Tensor2D D → Tensor2D D
  unfolding for_cells
  tanh_grad X =
      for_cells X.rows X.cols (λ i j _. let t = d.tanh (at X i j) in d.sub one (d.mul t t))
        (zeros X.rows X.cols)

  unfoldable pub activate : Tensor2D D → Activation → Tensor2D D
  unfolding relu tanh_cells
  activate X relu_act = relu X
  activate X tanh_act = tanh_cells X

  unfoldable pub activate_grad : Tensor2D D → Activation → Tensor2D D
  unfolding relu_grad tanh_grad
  activate_grad pre relu_act = relu_grad pre
  activate_grad pre tanh_act = tanh_grad pre
