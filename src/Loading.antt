-- ===== src/Loading.antt =====
-- How src/capi/capi.cpp and the programs of src/app come by the model that they run: `load_bundle`, with
-- `load_model` behind it, into a fresh bundle. A file is its bytes, `none` where it does not open.
pub mod Reloaded
use neuralware_x.Prelude.{ℕ, ◌==◌, Bool, true, false, Option, none, some, List, [], if◌then◌else◌}
use neuralware_x.Prelude.Int.{ℤ, pos, negsuc, pos_part}
use neuralware_x.Double.{Double, one}
use neuralware_x.Tensor.{Tensor2D}
use neuralware_x.Activation.{Activation, relu_act, tanh_act}
use neuralware_x.Quant.{QuantLayer}
use neuralware_x.Model.{Mlp}
use neuralware_x.Io.Stream.{Codec}
use neuralware_x.Io.Serialize.{FileMat, FileModel, load_model}
use neuralware_x.Io.Bundle.{ModelBundle, load_bundle}
use neuralware_x.Capi.{Handle}

-- `static_cast<Activation>(act)`: with another number no `case` of the later `switch` is taken.
unfoldable pub activation_of : ℤ → Option Activation
activation_of (pos n) = if n == 0 then some relu_act else if n == 1 then some tanh_act else none
activation_of (negsuc n) = none

-- What a loading ends in: a bundle, a file that does not open, an exception of `assign`, or a bundle
-- whose activation has no name.
pub data Loaded (D : Type 0) : Type 0 where
  loaded : Handle D → Loaded D
  missing : Loaded D
  throws : Loaded D
  unnamed_activation : Loaded D

module _ {D : Type 0} ⦃d : Double D⦄ where
  abbrev pub no_tensor : FileMat D
  no_tensor = record { rows = pos 0; cols = pos 0; cells = [] }

  -- `ModelBundle b;`
  abbrev pub fresh : ModelBundle D
  fresh = record {
    model = record {
      act = pos 0;
      temperature = one;
      in_dim = pos 0;
      hidden = pos 0;
      out = pos 0;
      w1 = no_tensor;
      b1 = [];
      w2 = no_tensor;
      b2 = [];
    };
    has_scaler = false;
    scaler = record { mean = []; stdv = [] };
  }

  abbrev pub tensor_of : FileMat D → Tensor2D D
  tensor_of t = record { rows = pos_part t.rows; cols = pos_part t.cols; cells = t.cells }

  abbrev pub no_layer : QuantLayer D
  no_layer = record { wq = []; sw = []; out = 0; in_dim = 0 }

  -- The network of a fresh `MLP` into which the fields of a file are read: no caches, not quantised.
  abbrev pub network_of : FileModel D → Activation → Mlp D
  network_of m a = record {
    temperature = m.temperature;
    quant = record { enabled = false; l1 = no_layer; l2 = no_layer };
    act = a;
    in_dim = pos_part m.in_dim;
    hidden = pos_part m.hidden;
    out = pos_part m.out;
    w1 = tensor_of m.w1;
    w2 = tensor_of m.w2;
    b1 = m.b1;
    b2 = m.b2;
    x1 = tensor_of no_tensor;
    a1 = tensor_of no_tensor;
    a2 = tensor_of no_tensor;
  }

  unfoldable pub handle_of : ModelBundle D → Loaded D
  unfolding activation_of
  handle_of b = elim (activation_of b.model.act) [
    | none ↦ unnamed_activation
    | some a ↦
        loaded
          (record { model = network_of b.model a; has_scaler = b.has_scaler; scaler = b.scaler })
  ]

  -- `b.has_scaler=false; b.model.temperature=1.0;`
  abbrev pub plain_bundle : ModelBundle D → FileModel D → ModelBundle D
  plain_bundle b m = record b { model = record m { temperature = one }; has_scaler = false }

  unfoldable pub fall_back : Codec D → Option (List ℕ) → ModelBundle D → Loaded D
  fall_back c file b = elim (load_model c b.model file) [
    | none ↦ throws
    | some (false, _) ↦ missing
    | some (true, m) ↦ handle_of (plain_bundle b m)
  ]

  -- `if(!load_bundle(b, model)){ if(!load_model(b.model, model)) return …; … }`
  unfoldable pub load_tool : Codec D → Option (List ℕ) → Loaded D
  load_tool c file = elim (load_bundle c fresh file) [
    | none ↦ throws
    | some (false, b) ↦ fall_back c file b
    | some (true, b) ↦ handle_of b
  ]

  -- `none` for the path is the null pointer, `missing` the result `nullptr`.
  unfoldable pub nwx_load_bundle :
      Codec D → {Path' : Type 0} → (Path' → Option (List ℕ)) → Option Path' → Loaded D
  nwx_load_bundle c files none = missing
  nwx_load_bundle c files (some path) = elim (load_bundle c fresh (files path)) [
    | none ↦ throws
    | some (false, b) ↦ missing
    | some (true, b) ↦ handle_of (record b { model = record b.model { temperature = one } })
  ]
