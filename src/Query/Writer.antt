-- ===== src/Query/Writer.antt =====
-- crates/monad-query-write: the writer that indexes finalized blocks. `hash_slow` is the header hash of
-- alloy. The store keeps what the writer reads back, and the rows of the metadata stage; the rows of
-- the payload and bitmap stages are not in it, and of these stages only the outcome is.
pub mod Chain
pub mod History
pub mod Links
pub mod Ranges
pub mod Recovery
mod Runs
use monad_services.Prelude.{
  ℕ, zero, suc, ◌+◌, ◌-◌, ◌<◌, ◌≡◌, refl, Bool, true, false, not, ◌&&◌, ◌||◌, Option, none, some,
  List, [], ◌∷◌, ◌++◌, length, map, last?, ltb, leb, ◌==◌, if◌then◌else◌, u64_mod, u32_mod,
  checked_add64, Result, ok, err, ◌>>=◌,
}
use monad_services.Prelude.Map.{lookup, insert}
use monad_services.Query.Schema.{QueryError, Message, Family, FamilyMetadata}
use monad_services.Query.Items.{Header}
use monad_services.Query.Tables.{
  AssignedBlock, QueryWriter, QueryWriterBlock, QueryWriterFlushBatch, QueryWriterTx, StateIndex,
  Tables, columns, decode_columns, default_state, last_block_id,
}

unfoldable pub next_block_number : QueryWriter → Result QueryError ℕ
next_block_number w = elim (checked_add64 w.state.next_block_id (length w.pending)) [
  | some n ↦ ok n
  | none ↦ err (QueryError.invalid_block Message.block_number_overflow)
]

-- `count.try_into::<u32>()`
unfoldable pub range : ℕ → ℕ → Result QueryError FamilyMetadata
range first count =
    if ltb count u32_mod
    then ok (record { first_primary_id = first; count = count })
    else err (QueryError.invalid_block Message.too_many_records)

abbrev pub advance : Message → ℕ → ℕ → Result QueryError ℕ
advance overflow next count = elim (checked_add64 next count) [
  | some n ↦ ok n
  | none ↦ err (QueryError.invalid_block overflow)
]

abbrev pub log_count : List QueryWriterTx → ℕ
log_count [] = 0
log_count (tx ∷ txs) = length tx.logs + log_count txs

abbrev pub trace_count : List QueryWriterTx → ℕ
trace_count [] = 0
trace_count (tx ∷ txs) = length tx.traces + trace_count txs

-- The next IDs of transactions, logs and traces.
pub record NextIds : Type 0 where
  pub tx : ℕ
  pub log : ℕ
  pub trace : ℕ

-- One round of the loop of `prepare_flush`: the block with its ranges, and the next IDs.
unfoldable pub assign_block :
    NextIds → QueryWriterBlock → Result QueryError (AssignedBlock × NextIds)
assign_block next block = range next.tx (length block.txs) >>= λ txs.
    range next.log (log_count block.txs) >>= λ logs.
    range next.trace (trace_count block.txs) >>= λ traces.
    advance Message.transaction_id_overflow next.tx txs.count >>= λ tx.
    advance Message.log_id_overflow next.log logs.count >>= λ log.
    advance Message.trace_id_overflow next.trace traces.count >>= λ trace. ok (
      record { block = block; logs = logs; txs = txs; traces = traces },
      record { tx = tx; log = log; trace = trace },
    )

unfoldable pub assign_blocks :
    NextIds → List QueryWriterBlock → Result QueryError (List AssignedBlock × NextIds)
assign_blocks next [] = ok ([], next)
assign_blocks next (block ∷ blocks) = assign_block next block >>= λ one.
    assign_blocks one.1 blocks >>= λ more. ok (one.0 ∷ more.0, more.1)

abbrev pub first_number : List QueryWriterBlock → Option ℕ
first_number [] = none
first_number (block ∷ blocks) = some block.header.number

abbrev pub or_else : Option ℕ → Option ℕ → Option ℕ
or_else (some n) o = some n
or_else none o = o

abbrev pub after_last : List QueryWriterBlock → Result QueryError ℕ
after_last blocks = elim (last? blocks) [
  | none ↦ err (QueryError.invalid_block Message.block_number_overflow)
  | some block ↦ advance Message.block_number_overflow block.header.number 1
]

-- The batch of a writer that has pending blocks; an error leaves the writer as it is.
unfoldable pub prepare_flush : QueryWriter → Result QueryError (Option QueryWriterFlushBatch)
prepare_flush w = elim w.pending [
  | [] ↦ ok none
  | block ∷ blocks ↦
      assign_blocks
        (record {
          tx = w.state.next_tx_id;
          log = w.state.next_log_id;
          trace = w.state.next_trace_id;
        })
        (block ∷ blocks)
      >>= λ assigned. after_last (block ∷ blocks) >>= λ next_block. ok (
          some (record {
            blocks = assigned.0;
            state = record {
              indexed_start = or_else w.state.indexed_start (first_number (block ∷ blocks));
              next_block_id = next_block;
              next_log_id = assigned.1.log;
              next_tx_id = assigned.1.tx;
              next_trace_id = assigned.1.trace;
            };
          }))
]

unfoldable pub start_at : ℕ → QueryWriter → Result QueryError QueryWriter
start_at block_number w =
    if (elim w.state.indexed_start [ none ↦ false | some _ ↦ true ])
      || (not (w.state.next_block_id == 0) || not (length w.pending == 0))
    then err (QueryError.invalid_block Message.already_contains_blocks)
    else ok (record w {
      state = record w.state { indexed_start = some block_number; next_block_id = block_number };
    })

unfoldable pub read_state : Tables → Result QueryError StateIndex
read_state tables = elim tables.index [
  | none ↦ ok default_state
  | some cells ↦ decode_columns cells
]

-- `ok_or`: an indexed block has a hash.
abbrev pub known_hash : Option ℕ → Result QueryError (Option ℕ)
known_hash none = err (QueryError.missing_data Message.missing_block_hash)
known_hash (some hash) = ok (some hash)

unfoldable pub read_last_hash : Tables → Option ℕ → Result QueryError (Option ℕ)
read_last_hash tables none = ok none
read_last_hash tables (some height) = known_hash (lookup height tables.block_hash)

-- `open` once `init` has succeeded.
unfoldable pub open_writer : Tables → Result QueryError QueryWriter
open_writer tables = read_state tables >>= λ state.
    read_last_hash tables (last_block_id state) >>= λ hash.
    ok (record { state = state; last_block_hash = hash; pending = [] })

abbrev pub Row : Type 0
Row = Family × ℕ × FamilyMetadata

abbrev pub family_rows : AssignedBlock → List Row
family_rows a =
    let height = a.block.header.number in
    (Family.block_header, height, record { first_primary_id = height; count = 1 })
    ∷ (Family.transaction, height, a.txs)
    ∷ (Family.log, height, a.logs)
    ∷ (Family.trace, height, a.traces)
    ∷ []

-- The rows whose range is not empty, by the range's first ID.
unfoldable pub index_rows : List Row → List (Family × ℕ × ℕ)
index_rows [] = []
index_rows ((family, height, range) ∷ rows) =
    if ltb 0 range.count
    then (family, range.first_primary_id, height) ∷ index_rows rows
    else index_rows rows

unfoldable pub block_rows : List AssignedBlock → List Row
block_rows [] = []
block_rows (a ∷ blocks) = family_rows a ++ block_rows blocks

pub data Stage : Type 0 where
  payload bitmap block_hash family family_block_index state_index : Stage

unfoldable pub put_families : List AssignedBlock → Tables → Tables
put_families blocks tables = record tables { family = block_rows blocks ++ tables.family }

unfoldable pub put_family_blocks : List AssignedBlock → Tables → Tables
put_family_blocks blocks tables = record tables {
  family_block_index = index_rows (block_rows blocks) ++ tables.family_block_index;
}

unfoldable pub put_state : StateIndex → Tables → Tables
put_state state tables = record tables { index = some (columns state) }

-- Whether there is a previous block, and the block is not its child.
unfoldable pub breaks_chain : Option ℕ → QueryWriterBlock → Bool
breaks_chain none block = false
breaks_chain (some previous) block = not (block.header.parent_hash == previous)

module _ (hash_slow : Header → ℕ) where
  abbrev pub block_hash_of : QueryWriterBlock → ℕ
  block_hash_of block = hash_slow block.header

  -- The last pending block's hash, or else that of the last indexed block.
  unfoldable pub previous_hash : QueryWriter → Option ℕ
  previous_hash w = elim (last? w.pending) [
    | some block ↦ some (block_hash_of block)
    | none ↦ w.last_block_hash
  ]

  unfoldable pub append : QueryWriterBlock → QueryWriter → Result QueryError QueryWriter
  append block w = next_block_number w >>= λ expected.
      if not (block.header.number == expected)
      then err (QueryError.invalid_block Message.out_of_order)
      else if breaks_chain (previous_hash w) block
      then err (QueryError.invalid_block Message.not_extending)
      else ok (record w { pending = w.pending ++ (block ∷ []) })

  -- `put_batch` of the block hashes.
  unfoldable pub put_hashes : List AssignedBlock → List (ℕ × ℕ) → List (ℕ × ℕ)
  put_hashes [] table = table
  put_hashes (a ∷ blocks) table =
      put_hashes blocks (insert a.block.header.number (block_hash_of a.block) table)

  -- metadata.rs: the `put_batch` of each table. The rows of a batch go to the front: of the rows of a
  -- key, the first one counts.
  unfoldable pub put_block_hashes : List AssignedBlock → Tables → Tables
  put_block_hashes blocks tables = record tables {
    block_hash = put_hashes blocks tables.block_hash;
  }

  -- The stages in their order, up to one that the backend fails at, if any.
  unfoldable pub flush_batch :
      Option (Stage × QueryError)
      → QueryWriterFlushBatch
      → Tables
      → Tables × Result QueryError (Unit {0})
  flush_batch (some (Stage.payload, e)) batch tables = (tables, err e)
  flush_batch (some (Stage.bitmap, e)) batch tables = (tables, err e)
  flush_batch (some (Stage.block_hash, e)) batch tables = (tables, err e)
  flush_batch (some (Stage.family, e)) batch tables = (put_block_hashes batch.blocks tables, err e)
  flush_batch (some (Stage.family_block_index, e)) batch tables =
      (put_families batch.blocks (put_block_hashes batch.blocks tables), err e)
  flush_batch (some (Stage.state_index, e)) batch tables = (
    put_family_blocks batch.blocks
        (put_families batch.blocks (put_block_hashes batch.blocks tables)),
    err e,
  )
  flush_batch none batch tables = (
    put_state batch.state (
        put_family_blocks batch.blocks
          (put_families batch.blocks (put_block_hashes batch.blocks tables))),
    ok tt,
  )

  abbrev pub assigned_hash : Option AssignedBlock → Option ℕ
  assigned_hash none = none
  assigned_hash (some a) = some (block_hash_of a.block)

  abbrev pub last_hash : List AssignedBlock → Option ℕ
  last_hash blocks = assigned_hash (last? blocks)

  -- What follows `flush_batch`.
  abbrev pub after_flush :
      QueryWriter → QueryWriterFlushBatch → Result QueryError (Unit {0}) → QueryWriter
  after_flush w batch (ok _) = record {
    state = batch.state;
    last_block_hash = last_hash batch.blocks;
    pending = [];
  }
  after_flush w batch (err e) = record w { pending = map (λ a. a.block) batch.blocks }

  -- What `flush` does with the outcome of `prepare_flush`.
  abbrev pub flush_prepared :
      Option (Stage × QueryError)
      → QueryWriter
      → Tables
      → Result QueryError (Option QueryWriterFlushBatch)
      → (QueryWriter × Tables) × Result QueryError (Unit {0})
  flush_prepared fault w tables (err e) = ((w, tables), err e)
  flush_prepared fault w tables (ok none) = ((w, tables), ok tt)
  flush_prepared fault w tables (ok (some batch)) =
      let done = flush_batch fault batch tables in ((after_flush w batch done.1, done.0), done.1)

  unfoldable pub flush :
      Option (Stage × QueryError)
      → QueryWriter
      → Tables
      → (QueryWriter × Tables) × Result QueryError (Unit {0})
  flush fault w tables = flush_prepared fault w tables (prepare_flush w)
