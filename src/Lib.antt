-- ===== src/Lib.antt =====
-- AuroraRL: the trainer's micro batches, the sparse weight updates that go to the inference servers,
-- and the orchestrator's pool of these servers.
--
-- The trainer compares two versions of each weight (`_extract_changed_values`), encodes the indices
-- and the values of what changed, and writes them to a stream. Inference servers stage the stream,
-- and commit it on request: each worker decodes the indices, maps them to the shard of the weight
-- that it holds, and adds the values. The orchestrator sends the requests through a pool, which
-- leases its endpoints, takes those that fail out of use and replays the deltas to them before they
-- are used again. Before a step of training, samples are packed into micro batches and dealt out to
-- the ranks. All of it is in Python:
--
--   * Base: tests on numbers, lists, results, bits of bytes and int64 patterns, signed numbers,
--     and names as code points.
--   * Delta/Groups: the byte format of index lists, groups of seven bits, low bits first.
--   * Delta/Encode, Delta/Decode, Delta/Indices: src/prime_rl/utils/delta.py, the encoder
--     `encode_varint_delta_indices`, the decoders `decode_varint_delta_indices`,
--     `_decode_varint_delta_indices_numpy` and `_decode_varint_delta_indices_python`, and the choice
--     of encoding in `encode_sparse_indices` and `decode_sparse_indices`.
--   * Sparse: the additive update of a flat tensor, `index_select` and `index_copy_`.
--   * Delta/Values: `_extract_changed_values` and `reconstruct_sparse_delta_tensor` of the same file.
--   * Delta/Stream: `StreamingDeltaWriter` and `iter_streaming_delta_records` of the same file, on the
--     bytes of a file; a tensor is its dtype and its bytes.
--   * Layout: src/prime_rl/inference/vllm/worker/weight_layout.py, the class
--     `DenseVllmModelLayoutAdapter` (Layout/Adapter) and `_project_dimension` (Layout/Project).
--   * Worker: src/prime_rl/inference/vllm/worker/weight_transfer.py, `_apply_sparse_delta_tensor`,
--     `_apply_decoded_sparse_delta_tensor` and `_indices_cover_flat_tensor`.
--   * Staging: src/prime_rl/inference/vllm/server.py, the requests that stage weights whole, in chunks
--     or as a stream (Staging/Handlers), that commit them and reload the base (Staging/Commit), the
--     ranges of bytes received (Staging/Ranges) and the files (Staging/Files, Staging/State).
--     Staging/Steps puts requests in sequence.
--   * Batch: src/prime_rl/trainer/batch.py, with the types of src/prime_rl/transport/types.py
--     (Batch/Types): `prepare_sample` (Batch/Prepare), `packed_samples_into_micro_bs` (Batch/Pack),
--     `pad_micro_batch` (Batch/Pad) and `prepare_batch` (Batch/Distribute).
--   * Endpoints: src/prime_rl/utils/client.py: results, errors, statistics and leases
--     (Endpoints/Types), `setup_clients`, `setup_admin_clients` and the aliases (Endpoints/Urls),
--     `_run_endpoint_operations` (Endpoints/Fleet), the functions that send requests
--     (Endpoints/Calls, Endpoints/Start, and `stage_weights` in Endpoints/Uploads), and the class
--     `StaticInferencePool`: its state and leases (Endpoints/Pool), `_delta_replay_plan`
--     (Endpoints/Plan), `_record_admin_results` (Endpoints/Session), recovery (Endpoints/Recovery)
--     and the updates of weights (Endpoints/Updates). Endpoints/Sync puts its calls in sequence.
--
-- A request to the server is an action on its state, which keeps what was written before a refusal.
-- Whether the fan-out to peers fails, whether a call of the workers fails, and the names that `uuid4`
-- gives are arguments. Between two requests anything may come; within one nothing does, but for a
-- commit and a reload, which are split at their call of the workers: there, requests come in that do
-- not take `weight_update_lock`. Characters, paths and hashes are those of `Host`, a parameter. A
-- field of a request is a text or missing; a null in place of a version or a mode is left out.
--
-- The pool's servers, clock, files, hashes and the retries of tenacity are `Net`, and the texts of
-- numbers and quotes `Texts`, both parameters; `IsFleet` is what the servers are relied on for: one
-- that answers a request with success has done it, and none changes its weights unasked; `Receives`
-- is the same for a chunked upload, which each server keeps by version and mode. Requests to
-- several servers (`asyncio.gather`) are made one after the other, in the order of the list; times
-- are whole ticks. A file that is sent whole or in chunks is read when it is opened. Other tasks
-- run between two calls of the pool, not within one. A call of `update_weights` or `reload_weights`
-- of the pool records no version, so the sequences of Endpoints/Sync, which are those of a pool
-- with leases that takes deltas, do not have them. Loops with no end in the code take a number: the
-- passes of `get_eval_client` and the polls of a streaming upload, whose end by that number is a
-- failure of its own; pinging takes its timeout.
--
-- A micro batch is a value: the lists that a bin extends are its own, but for the teacher's
-- log-probabilities and the token types, which it shares with its first example and so changes there.
-- A float is the number that has its bits as a double, and is only moved.
--
-- An int64 is the number below 2 ^ 64 that has its bits; arithmetic on it wraps around as in numpy
-- and numba. A new array holds any contents, which a parameter gives. The arithmetic of tensor
-- elements belongs to torch: `Arithmetic` in Delta/Values is its interface, with the laws that `!=`
-- is the negation of `==` and that `==` is symmetric. Tensors are flat lists with a shape beside
-- them; sizes and shapes are numbers without a bound. Loops are recursion on lists or on the number
-- that is left to write, by its order. Only the reader of a stream takes fuel, the length of the
-- stream: a record takes bytes, so it is enough. Which bytes are a text in UTF-8 is a parameter.
--
-- Not modelled: devices and dtypes beyond what the code tests, the request
-- `/update_weights`, which sets the weights with no version, the stores of tensors that deltas are
-- made from, the elastic pool, metrics and logs, the other parts of the orchestrator and the trainer,
-- and the models themselves.
pub mod Base
pub mod Delta
pub mod Sparse
pub mod Layout
pub mod Worker
pub mod Staging
pub mod Batch
pub mod Endpoints
