-- ===== src/Tests/Samples.antt =====
-- Parameters and data to run the program's parts on. A double is a number of halves, rounded
-- down.
use neuralware_x.Prelude.{
  ℕ, ◌+◌, ◌-◌, ◌*◌, ◌/◌, ◌^◌, refl, true, false, none, List, [], ◌∷◌, ◌==◌, arith, ltb, leb,
}
use neuralware_x.Prelude.Int.{pos, pos_part}
use neuralware_x.Double.{Double, Rng, IsOrdered}
use neuralware_x.Tensor.{Tensor2D, Backend}
use neuralware_x.Activation.{relu_act}
use neuralware_x.Quant.{QuantLayer}
use neuralware_x.Model.{Mlp}
use neuralware_x.Optim.{Params, AdamState}
use neuralware_x.Trainer.{TrainConfig, Dataset}
use neuralware_x.Split.{Groups}
use neuralware_x.Io.Stream.{Codec, IsCodec}
use neuralware_x.Io.Serialize.{FileModel}
use neuralware_x.Io.Bundle.{ModelBundle}

instance abbrev pub halves : Double ℕ
halves = record {
  decimal = λ m e. (2 * m) / 10 ^ e;
  infinity = 1000000;
  add = λ x y. x + y;
  sub = λ x y. x - y;
  mul = λ x y. (x * y) / 2;
  div = λ x y. (2 * x) / y;
  neg = λ x. 0;
  lt = λ x y. ltb x y;
  le = λ x y. leb x y;
  eq = λ x y. x == y;
  of_int = λ z. 2 * pos_part z;
  to_int = λ x. pos (x / 2);
  lround = λ x. pos (x / 2);
  exp = λ x. x + 2;
  log = λ x. x;
  sqrt = λ x. x;
  tanh = λ x. x;
  cos = λ x. x;
  abs = λ x. x;
  pow = λ x y. x ^ y;
}

pub halves-IsOrdered : IsOrdered halves
halves-IsOrdered = record {
  lt_irrefl = λ x. ground arith;
  lt_trans = λ x y z h h'. ground arith;
  lt_weak = λ x y z e h h'. ground arith;
}

-- The generator leaves a list as it is.
abbrev pub still : Rng ℕ ℕ
still = record {
  seed = λ z. pos_part z;
  uniform = λ low high g. (low, g + 1);
  shuffle = λ xs g. (xs, g + 1);
}

abbrev pub eight_bytes : Codec ℕ
eight_bytes = record { bytes_of = λ x. x ∷ 0 ∷ 0 ∷ 0 ∷ 0 ∷ 0 ∷ 0 ∷ 0 ∷ []; double_of = first }
  where
    first : List ℕ → ℕ
    first [] = 0
    first (x ∷ xs) = x

pub eight_bytes-IsCodec : IsCodec eight_bytes
eight_bytes-IsCodec = record { bytes_of-length = λ x. refl; double_of-bytes_of = λ x. refl }

abbrev pub processor : Backend ℕ
processor = record { cpu = true; gpu = λ A B. none }

abbrev pub in_order : Groups → Groups
in_order m = m

abbrev pub tensor : ℕ → ℕ → List ℕ → Tensor2D ℕ
tensor r c xs = record { rows = r; cols = c; cells = xs }

-- Three rows of two columns, and the labels of the rows.
abbrev pub points : Tensor2D ℕ
points = tensor 3 2 (1 ∷ 2 ∷ 4 ∷ 3 ∷ 0 ∷ 5 ∷ [])

abbrev pub labels : List ℕ
labels = 1 ∷ 0 ∷ 1 ∷ []

abbrev pub weights : Tensor2D ℕ
weights = tensor 2 2 (1 ∷ 0 ∷ 2 ∷ 1 ∷ [])

abbrev pub plain : QuantLayer ℕ
plain = record { wq = []; sw = []; out = 0; in_dim = 0 }

abbrev pub net : Mlp ℕ
net = record {
  temperature = 1;
  quant = record { enabled = false; l1 = plain; l2 = plain };
  act = relu_act;
  in_dim = 2;
  hidden = 2;
  out = 2;
  w1 = weights;
  w2 = weights;
  b1 = 1 ∷ 0 ∷ [];
  b2 = 0 ∷ 2 ∷ [];
  x1 = points;
  a1 = points;
  a2 = points;
}

abbrev pub config : TrainConfig ℕ
config = record {
  epochs = pos 3;
  lr = 2;
  hidden = pos 2;
  seed = pos 7;
  weight_decay = 0;
  batch = pos 2;
  val_split = 1;
  patience = pos 2;
  standardize = false;
  optimizer = "sgd";
  lr_schedule = "none";
  warmup_steps = pos 0;
  clip_norm = 0;
  history_path = "history.csv";
  activation = "relu";
}

abbrev pub flat : Params ℕ
flat = record { w1 = weights; b1 = []; w2 = weights; b2 = [] }

abbrev pub no_moments : AdamState ℕ
no_moments = record { m = flat; v = flat; t = 0 }

abbrev pub dataset : Dataset ℕ
dataset = record { x = points; y = labels; n_classes = 2 }

abbrev pub file_model : FileModel ℕ
file_model = record {
  act = pos 1;
  temperature = 3;
  in_dim = pos 2;
  hidden = pos 2;
  out = pos 1;
  w1 = record { rows = pos 2; cols = pos 2; cells = 1 ∷ 2 ∷ 3 ∷ 4 ∷ [] };
  b1 = 5 ∷ 6 ∷ [];
  w2 = record { rows = pos 2; cols = pos 1; cells = 7 ∷ 8 ∷ [] };
  b2 = 9 ∷ [];
}

abbrev pub empty_bundle : ModelBundle ℕ
empty_bundle = record {
  model = record {
    act = pos 0;
    temperature = 1;
    in_dim = pos 0;
    hidden = pos 0;
    out = pos 0;
    w1 = record { rows = pos 0; cols = pos 0; cells = [] };
    b1 = [];
    w2 = record { rows = pos 0; cols = pos 0; cells = [] };
    b2 = [];
  };
  has_scaler = false;
  scaler = record { mean = []; stdv = [] };
}

abbrev pub full_bundle : ModelBundle ℕ
full_bundle = record {
  model = file_model;
  has_scaler = true;
  scaler = record { mean = 1 ∷ 2 ∷ []; stdv = 3 ∷ 4 ∷ [] };
}
