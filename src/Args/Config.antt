-- ===== src/Args/Config.antt =====
-- src/app/main.cpp: the training configuration from the options.
use neuralware_x.Args.{Options}
use neuralware_x.Trainer.{TrainConfig}

unfoldable pub config_of : {D : Type 0} → Options D → TrainConfig D
config_of o = record {
  epochs = o.epochs;
  lr = o.lr;
  hidden = o.hidden;
  seed = o.seed;
  weight_decay = o.wd;
  batch = o.batch;
  val_split = o.val_split;
  patience = o.patience;
  standardize = o.standardize;
  optimizer = o.optimizer;
  history_path = o.history_path;
  activation = o.activation;
  lr_schedule = o.lr_schedule;
  warmup_steps = o.warmup_steps;
  clip_norm = o.clip_norm;
}
