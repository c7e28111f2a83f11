-- ===== src/Lib.antt =====
-- A model of the parts of monad-services that carry its own logic, and the theorems that make them
-- correct.
--
-- The parts and their files:
--   * Archive/CircuitBreaker: crates/monad-archive/src/failover_circuit_breaker.rs. `Breaker` is the
--     `CircuitBreakerState` behind the lock and whether the lock is poisoned. A check is a section under
--     the read lock (`read_route`) and one under the write lock (`finish_check`), so that other requests
--     may come in between. The clock is an argument. `execute` is `FallbackExecutor::execute`, with the
--     requests on the two providers as a function; it also lists the providers that were asked.
--   * Archive/RlpScanner: crates/monad-archive/src/rlp_offset_scanner.rs. Data are lists of bytes, a
--     `usize` has 64 bits, and sums wrap around as in a release build. `Encoding` is RLP's own
--     definition, which the source does not have. The `while` loops run on fuel, two rounds more than the
--     data has bytes: a round that does not wrap around
--     moves on by a byte at least, and a position past the end panics.
--     `out_of_fuel` is no outcome of the source.
--   * Rpc/BlockBuffer: crates/monad-rpc/src/data/buffer/mod.rs, and `View` view.rs beside it. The maps
--     shared by the buffer and its views are fields of one record; a view's reads take that record.
--     What alloy takes apart and converts in the filtered read is the parameter `Conversions`.
--   * Rpc/TxPool: crates/monad-rpc/src/txpool/state.rs. `Bridge` holds the three maps and the eviction
--     queue, which the source passes along. A watch channel is its value and the number of times that its
--     receivers were notified. Times are nanoseconds.
--   * Query/Schema: the keys of the query tables as bytes, crates/monad-query-schema/src/bitmap.rs and
--     the tables beside it, with crates/monad-query-types/src/id.rs and error.rs.
--   * Query/Writer: crates/monad-query-write/src/lib.rs and metadata.rs, on the data of Query/Tables:
--     block.rs beside them, and the state's row of
--     crates/monad-query-schema/src/tables/state/index.rs. `Tables` is what the writer reads back and
--     the rows of the metadata stage. The header hash of alloy is a parameter, and so is the stage that
--     the backend fails at, if any: a `put_batch` that fails has written nothing. The writer
--     sees the outcome alone of the stages of payloads and bitmaps. `History` is the specification of
--     a sequence of calls: the blocks that were accepted, and which of them are indexed.
--   * Query/Items: the stored items and the bitmap filters that each is found by,
--     crates/monad-query-schema/src/family. `Ancestors` has the tree of calls that a list of traces
--     is of.
--   * Query/Blobs: blob tables and their partitioned form, crates/monad-query-types/src/store/blob.
--     zstd's functions are parameters, `decompress` with the capacity of 128 MiB that
--     crates/monad-query-schema/src/tables/payload/payload.rs gives it. That `PayloadItem::encode` panics
--     above this size is the failure `payload_exceeds_limit`, which comes before anything of the
--     family is written.
--   * Query/Payload: the payload stage, crates/monad-query-write/src/payload.rs. `Log.Represents` is
--     its specification: the tables of a family stand for a sequence of items, numbered from a
--     first ID on. The groups of a batch are a list in the order of their first IDs, which is that of
--     the `BTreeMap`'s keys.
--   * Query/Flush: the batch that the writer prepares, in the payload stage.
--   * Query/BitmapIndex: the bitmap stage, crates/monad-query-write/src/bitmap_index.rs. A Roaring
--     bitmap is a parameter, `RoaringBitmap`, with its documented contents as `BitmapLaws`.
--     `Truth.Indexes` is the specification: the bitmaps list only items that match a filter, and
--     all of those that are committed.
--   * Query/Validate: the bounds of an item that the validator reads,
--     crates/monad-query-cli/src/validate/mod.rs.
--   * Rpc/GasEstimate: the search for a gas limit in crates/monad-rpc/src/handlers/eth/gas.rs. The
--     call on the virtual machine and the comparison of floating-point numbers are parameters. The
--     search runs on fuel, a round for each limit between the two that it starts with, since each
--     round leaves fewer of them; it is enough that the fuel is the request's gas limit.
--   * Rpc/CallRequest and Rpc/FillTransaction: the request of a call and the transactions that it is
--     made into, call.rs beside gas.rs, and the steps of eth_fillTransaction in gas.rs. What the
--     provider finds (the head, a nonce) is a parameter; signing and its encoding are left out.
--   * Rpc/FeeHistory: the rewards of eth_feeHistory in gas.rs. The gas at which a percentile stands is an
--     argument, since the source finds it with floating-point numbers.
--   * Prelude: lists, maps, options, results, tests and machine words that the parts share. A hash map
--     is an association list with one entry for a key; hashes and addresses are numbers there.
--
-- The parts meet in the services and not in these files: the archive's readers run their requests
-- through the circuit breaker and find transactions by the scanner's offsets; the RPC server feeds the
-- block buffer with execution events and the bridge with pool events, and its handlers read both;
-- eth_fillTransaction estimates gas with the search of eth_estimateGas; the payload stage writes what
-- the validator's bounds read, the bitmap stage adds what the items' filters say, and the writer's
-- tables are what the queries read.
--
-- Not modelled: adapters to databases and object stores, the command lines, web sockets, middleware and
-- documentation, since they are I/O or glue; most of the RPC handlers, which convert types of other
-- crates; and the archive's index, workers and checker, the rest of the fee history, the comparison of bitmaps by
-- the validator, and the in-memory stores.
pub mod Prelude
pub mod Archive
pub mod Rpc
pub mod Query
