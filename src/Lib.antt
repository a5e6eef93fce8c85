-- ===== src/Lib.antt =====
-- A model of neuralware-x, a library and tools for a two-layer classifier in C++, and what holds of
-- it. The files under src/ of the repository are translated to functions on explicit state.
--
-- The parts of the program and their files:
-- - src/core/tensor.cpp, include/nwx/tensor.hpp: Tensor.antt. `Tensor2D` is the dimensions and the cells
--   in row order; `at` and `put` are the two call operators; `matmul` has the paths of the source, the
--   blocked one (`matmul_avx2`, whose innermost loops are `tile`), the portable one (`matmul_loops`),
--   and the call of cuBLAS, which is a field of `Backend` as is the test of the processor.
--   Tensor/View, Cells and Blocks are the lemmas on loops that write cells; Tensor/Matmul, Rows and
--   Argmax are about the operations.
-- - src/core/activation.cpp: Activation.antt; src/core/quant.cpp and include/nwx/quant.hpp: Quant.antt.
-- - src/core/model.cpp: Model.antt. `forward` returns the model with its caches and the logits,
--   `backward` reads the caches. Model/Forward is about `forward`.
-- - src/core/optim.cpp: Optim.antt; src/core/scaler.cpp: Scaler.antt.
-- - src/core/split.cpp and src/core/stratified.cpp: Split.antt, with Split/Partition and Split/Classes.
-- - src/core/metrics.cpp and src/core/metrics_ex.cpp: Metrics.antt, with Metrics/Counts and Metrics/Micro.
-- - src/core/trainer.cpp: Trainer.antt. `train_xent` is scaling, the split and `train_epochs`, which
--   alternates `train_epoch` (shuffle, then `batch_step` for each of the `slices`) and `finish_epoch`
--   (`evaluate` twice, then `early_stop`). Trainer/Batch and Trainer/Stopping are about these.
-- - src/io/serialize.cpp and src/io/bundle.cpp: Io/Serialize.antt and Io/Bundle.antt, over the streams of
--   bytes of Io/Stream.antt; Io/RoundTrip relates the writers and the readers.
-- - src/core/json.cpp: Json.antt. `parse` is a loop of rounds (`parse_rounds`, `parse_round`), one for each
--   member; Json/Entries, Json/Printed and Json/Rounds are about the map, printed objects and the loop.
-- - src/capi/capi.cpp: Capi.antt, with Capi/Written.
-- - src/app/main.cpp: the options are Args.antt, with Args/Append and Args/Config; the calibration of the
--   temperature and the labels of the prediction, with include/nwx/quant_runtime.hpp, are Calibration.antt,
--   with Calibration/Chosen.
-- - src/app/serve.cpp: Server.antt is the rate limiter of `POST /predict/stream`, with Server/Windows;
--   Server/Requests is the token bucket and the check of the shape of what is posted (`POST /validate`),
--   Server/Stream the handler of `POST /predict/stream`; Server/Refusals, Agreed and Columns are about
--   these. Server/Http takes a request apart and routes it, Server/Body reads the rows that are posted to
--   `POST /predict`, Server/Predict is its handler, with Predict/Answered, Posted and Same, Server/Routes
--   one request from its bytes to what is sent, and Server/Life the loop that accepts connections, the
--   signals and the threads, as a step relation, with Life/Served and Life/Safety. The bearer tokens
--   are Token.antt (splitting, signatures, JWKS, listed tokens), Token/Base64 (the decoders) and
--   Token/Claims (the claims of a JWT), with the proofs in Token/Base64/Decoded, Token/Accepted,
--   Token/Validity and Token/Listed.
-- - src/grpc/serve_grpc.cpp: Grpc.antt, with Grpc/Rows; that a row is answered by itself is Model/Alone.
-- - How the C interface and the tools load a model: Loading.antt, with Loading/Reloaded. `load_tool` is the
--   pair of `load_bundle` and `load_model` in the tools; `Loaded` says how it ends.
-- - src/app/confusion.cpp, eval.cpp, importance.cpp, explain.cpp, fairness.cpp, cv.cpp, check.cpp and
--   encrypt.cpp: the modules of these names below Tools. `Run` (Tools/Run) is how a program ends,
--   `scan_args` its loop over the arguments; Tools/Scoring is what those that score a model share.
--   Tools/Explain/Classes, Tools/Cv/Folds, Tools/Fairness/Totals and Tools/Encrypt/Sealed are about them.
-- - src/gpu/cuda_backend.cu: Gpu.antt, the product on a CUDA device with its error codes and what is
--   held on the device, over the calls of CUDA and cuBLAS as parameters; Gpu/Held and Gpu/Layout are
--   about it.
-- - src/app/drift.cpp and src/app/impute.cpp, their numeric parts: Tools.antt, with Tools/Bins.
-- - src/io/csv.cpp and src/core/dataset_bridge.cpp: Io/Csv.antt, with Io/CsvText.
--
-- Conventions. The operations on `double` are the fields of `Double` (Double.antt); no law of them is
-- assumed but by name (`IsOrdered`, `TinyGrows`, `IsCodec`). `Cipher` is AES-256-GCM, with the laws
-- `IsCipher`. `std::mt19937` and `std::shuffle` are the
-- fields of `Rng`; a shuffle is only assumed to permute (`IsShuffle`). An `int` that is never negative
-- in the modelled code is a natural number, and its arithmetic stays in range; the signed ones are the
-- integers of Prelude/Int.antt. The ints of files are 32 bits and sizes 64 bits, low byte first.
-- A read past the end of a vector gives 0.0 and a write there does nothing, where the source has no
-- defined result. The build is the release build of the Makefile, which leaves the `assert`s out; the
-- conditions of those on a forward pass are `forward_asserts`. The digits of a claim of a token are read
-- into the 64 bits of a `long long`, which wrap around. Where the blocks of src/app/serve.cpp are not
-- closed, the routes behind `GET /metrics` are read as alternatives, and the body of a thread as ended
-- where its handler ends; the handler of `POST /predict` is read with its braces as they stand.
--
-- Bounds and fuel. Loops are structural on the number of rounds. `train_epochs` has one round for each
-- epoch, `slices` one for each row, which is enough since every batch takes at least one row.
-- `parse_rounds` has one for each character, which is enough since every round takes at least one.
-- `search_grid` has 100 rounds for the 91 temperatures from 0.5 to 5.0 in steps of 0.05.
--
-- Not modelled: log lines, opening files (a file is its bytes, or nothing where it does not open), the
-- text of the history file (its rows are kept; the file is taken to open), OpenMP (its loops write
-- disjoint cells), what src/app/main.cpp prints on its way from the options to the saved bundle, sockets,
-- TLS, compression, the headers of the answers and the count of the errors of src/app/serve.cpp, the
-- programs report, prof and bench of src/app, and the bindings. A negative label in the tools that score,
-- and a row of a data set that is shorter than the first, end a tool as `outside`.
pub mod Prelude
pub mod Double
pub mod Tensor
pub mod Split
pub mod Metrics
pub mod Activation
pub mod Quant
pub mod Model
pub mod Optim
pub mod Scaler
pub mod Trainer
pub mod Io
pub mod Json
pub mod Server
pub mod Tools
pub mod Args
pub mod Capi
pub mod Token
pub mod Grpc
pub mod Loading
pub mod Main
pub mod Gpu
pub mod Calibration
mod Tests
