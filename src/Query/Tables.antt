-- ===== src/Query/Tables.antt =====
-- crates/monad-query-write/src/block.rs and the batches of lib.rs, and the tables that the writer reads
-- back, with the state's row of crates/monad-query-schema/src/tables/state/index.rs.
use monad_services.Prelude.{
  ℕ, Option, none, some, List, [], ◌∷◌, Result, ok, err, ◌>>=◌, ◌-◌, ◌==◌, leb, if◌then◌else◌,
}
use monad_services.Query.Schema.{QueryError, Message, Family, FamilyMetadata}
use monad_services.Query.Blobs.{Blobs}
use monad_services.Query.Items.{Header, StoredTxQueryItem, StoredLogQueryItem, StoredTraceQueryItem}

-- crates/monad-query-schema/src/tables/state/index.rs
pub record StateIndex : Type 0 where
  pub indexed_start : Option ℕ
  pub next_block_id : ℕ
  pub next_log_id : ℕ
  pub next_tx_id : ℕ
  pub next_trace_id : ℕ

-- `StateIndex::default`
abbrev pub default_state : StateIndex
default_state = record {
  indexed_start = none;
  next_block_id = 0;
  next_log_id = 0;
  next_tx_id = 0;
  next_trace_id = 0;
}

pub data ColumnName : Type 0 where
  indexed_start next_block_id next_log_id next_tx_id next_trace_id : ColumnName
  other : ℕ → ColumnName

-- A number cell holds decimal digits: `none` where they are no 64-bit number.
pub data CellValue : Type 0 where
  number : Option ℕ → CellValue
  bytes : List ℕ → CellValue

abbrev pub Cell : Type 0
Cell = ColumnName × CellValue

abbrev pub new_number : ColumnName → ℕ → Cell
new_number name n = (name, CellValue.number (some n))

abbrev pub unwrap_or : ℕ → Option ℕ → ℕ
unwrap_or d none = d
unwrap_or d (some n) = n

unfoldable pub columns : StateIndex → List Cell
columns state =
    new_number ColumnName.indexed_start (unwrap_or 0 state.indexed_start)
    ∷ new_number ColumnName.next_block_id state.next_block_id
    ∷ new_number ColumnName.next_log_id state.next_log_id
    ∷ new_number ColumnName.next_tx_id state.next_tx_id
    ∷ new_number ColumnName.next_trace_id state.next_trace_id
    ∷ []

abbrev pub parse_number : CellValue → Result QueryError ℕ
parse_number (CellValue.number (some n)) = ok n
parse_number _ = err (QueryError.decoding Message.invalid_state_number)

unfoldable pub decode_columns : List Cell → Result QueryError StateIndex
decode_columns
      ((ColumnName.indexed_start, start)
        ∷ (ColumnName.next_block_id, block)
        ∷ (ColumnName.next_log_id, log)
        ∷ (ColumnName.next_tx_id, tx)
        ∷ (ColumnName.next_trace_id, trace)
        ∷ []) =
    parse_number start >>= λ start. parse_number block >>= λ block. parse_number log >>= λ log.
    parse_number tx >>= λ tx. parse_number trace >>= λ trace. ok (record {
      indexed_start = some start;
      next_block_id = block;
      next_log_id = log;
      next_tx_id = tx;
      next_trace_id = trace;
    })
decode_columns _ = err (QueryError.decoding Message.invalid_state_columns)

-- crates/monad-query-write/src/block.rs
pub record QueryWriterTx : Type 0 where
  pub envelope : StoredTxQueryItem
  pub logs : List StoredLogQueryItem
  pub traces : List StoredTraceQueryItem

pub record QueryWriterBlock : Type 0 where
  pub header : Header
  pub txs : List QueryWriterTx

pub record AssignedBlock : Type 0 where
  pub block : QueryWriterBlock
  pub logs : FamilyMetadata
  pub txs : FamilyMetadata
  pub traces : FamilyMetadata

pub record QueryWriterFlushBatch : Type 0 where
  pub blocks : List AssignedBlock
  pub state : StateIndex

pub record QueryWriter : Type 0 where
  pub state : StateIndex
  pub last_block_hash : Option ℕ
  pub pending : List QueryWriterBlock

-- A value for each family.
pub record PerFamily {ℓ} (V : Type ℓ) : Type ℓ where
  pub block_header : V
  pub transaction : V
  pub log : V
  pub trace : V

module _ {ℓ} {V : Type ℓ} where
  abbrev pub at_family : Family → PerFamily V → V
  at_family Family.block_header all = all.block_header
  at_family Family.transaction all = all.transaction
  at_family Family.log all = all.log
  at_family Family.trace all = all.trace

  abbrev pub set_family : Family → V → PerFamily V → PerFamily V
  set_family Family.block_header v all = record all { block_header = v }
  set_family Family.transaction v all = record all { transaction = v }
  set_family Family.log v all = record all { log = v }
  set_family Family.trace v all = record all { trace = v }

-- Blobs of items by partition, and where each item ends in its blob, by ID.
pub record PayloadTables : Type 0 where
  pub blobs : PerFamily Blobs
  pub locations : PerFamily (List (ℕ × ℕ))

-- The tables: block hashes by height, families' ranges by family and height, heights by family and
-- first ID, and the cells of the state's one row.
pub record Tables : Type 0 where
  pub block_hash : List (ℕ × ℕ)
  pub family : List (Family × ℕ × FamilyMetadata)
  pub family_block_index : List (Family × ℕ × ℕ)
  pub index : Option (List Cell)

-- lib.rs, `open`, and payload.rs: `checked_sub(1)` and the filter by `indexed_start`.
unfoldable pub last_block_id : StateIndex → Option ℕ
last_block_id state = if state.next_block_id == 0 then none else elim state.indexed_start [
  | none ↦ some (state.next_block_id - 1)
  | some start ↦
      if leb start (state.next_block_id - 1) then some (state.next_block_id - 1) else none
]
