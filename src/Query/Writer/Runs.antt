-- ===== src/Query/Writer/Runs.antt =====
-- Concrete runs of the writer, and its theorems at concrete inputs.
use monad_services.Prelude.{
  true, ℕ, ◌≤◌, ◌≡◌, ◌≢◌, refl, none, some, List, [], ◌∷◌, ◌++◌, ok, err, arith,
}
use monad_services.Prelude.Map.{lookup}
use monad_services.Query.Schema.{QueryError, Message}
use monad_services.Query.Items.{
  Header, StoredTxQueryItem, StoredLogQueryItem, StoredTraceQueryItem, CallKind,
}
use monad_services.Query.Tables.{
  last_block_id, StateIndex, default_state, QueryWriterBlock, QueryWriterFlushBatch, QueryWriter,
  Tables, columns, decode_columns,
}
use monad_services.Query.Writer.{
  Stage, append, previous_hash, next_block_number, breaks_chain, start_at, prepare_flush,
  assign_blocks, assign_block, range, flush, flush_batch, open_writer, read_state, read_last_hash,
  last_block_id,
}
use monad_services.Query.Writer.Ranges.{Prepared, prepare_flush-Prepared}
use monad_services.Query.Writer.Chain.{IsValid, IsAccepted, append_iff, flush_err}
use monad_services.Query.Writer.History.{Command, run, history, no_history, Follows, run-Follows}
use monad_services.Query.Writer.Recovery.{open_writer-flush, open_writer-flush_err}

abbrev hash_of : Header → ℕ
hash_of h = h.contents

abbrev empty_tables : Tables
empty_tables = record { block_hash = []; family = []; family_block_index = []; index = none }

abbrev tx_item : ℕ → StoredTxQueryItem
tx_item n = record { tx_hash = n; sender = []; signed_tx_bytes = n ∷ [] }

abbrev log_item : ℕ → StoredLogQueryItem
log_item n = record { tx_index = 0; log_index = n; address = []; topics = []; data_bytes = n ∷ [] }

abbrev trace_item : ℕ → StoredTraceQueryItem
trace_item n = record {
  kind = CallKind.call;
  sender = [];
  callee = none;
  value = n;
  gas = 0;
  gas_used = 0;
  input = [];
  output = [];
  status = 0;
  depth = 0;
  tx_index = 0;
  trace_address = [];
  tx_status = true;
}

abbrev block5 : QueryWriterBlock
block5 = record {
  header = record { number = 5; parent_hash = 400; beneficiary = []; contents = 500 };
  txs =
      record {
        envelope = tx_item 1;
        logs = log_item 7 ∷ log_item 8 ∷ [];
        traces = trace_item 9 ∷ [];
      }
      ∷ [];
}

abbrev block6 : QueryWriterBlock
block6 = record {
  header = record { number = 6; parent_hash = 500; beneficiary = []; contents = 600 };
  txs =
      record { envelope = tx_item 2; logs = []; traces = [] }
      ∷ record { envelope = tx_item 3; logs = log_item 10 ∷ []; traces = [] }
      ∷ [];
}

abbrev block7 : QueryWriterBlock
block7 = record {
  header = record { number = 7; parent_hash = 600; beneficiary = []; contents = 700 };
  txs = [];
}

-- Blocks 0 to 4 are indexed.
abbrev state4 : StateIndex
state4 = record {
  indexed_start = some 0;
  next_block_id = 5;
  next_log_id = 20;
  next_tx_id = 10;
  next_trace_id = 30;
}

abbrev tables4 : Tables
tables4 = record empty_tables { block_hash = (4, 400) ∷ []; index = some (columns state4) }

abbrev writer4 : QueryWriter
writer4 = record { state = state4; last_block_hash = some 400; pending = [] }

abbrev writer56 : QueryWriter
writer56 = record writer4 { pending = block5 ∷ block6 ∷ [] }

abbrev batch56 : QueryWriterFlushBatch
batch56 = record {
  blocks =
      record {
        block = block5;
        logs = record { first_primary_id = 20; count = 2 };
        txs = record { first_primary_id = 10; count = 1 };
        traces = record { first_primary_id = 30; count = 1 };
      }
      ∷ record {
        block = block6;
        logs = record { first_primary_id = 22; count = 1 };
        txs = record { first_primary_id = 11; count = 2 };
        traces = record { first_primary_id = 31; count = 0 };
      }
      ∷ [];
  state = record {
    indexed_start = some 0;
    next_block_id = 7;
    next_log_id = 23;
    next_tx_id = 13;
    next_trace_id = 31;
  };
}

prepare_flush_test : prepare_flush writer56 ≡ ok (some batch56)
unfolding prepare_flush assign_blocks assign_block range
prepare_flush_test = refl

-- A block that skips a number, and one that is no child of the last block.
append_test :
    (append hash_of block6 writer4 ≡ err (QueryError.invalid_block Message.out_of_order))
    × (append hash_of block5 (record writer4 { last_block_hash = some 1 })
        ≡ err (QueryError.invalid_block Message.not_extending))
unfolding append previous_hash next_block_number breaks_chain
append_test = (refl, refl)

start_at_test :
    (start_at 3 writer4 ≡ err (QueryError.invalid_block Message.already_contains_blocks))
    × (start_at 3 (record { state = default_state; last_block_hash = none; pending = [] })
        ≡ ok (record {
          state = record default_state { indexed_start = some 3; next_block_id = 3 };
          last_block_hash = none;
          pending = [];
        }))
unfolding start_at
start_at_test = (refl, refl)

open_writer_test : open_writer tables4 ≡ ok writer4
unfolding open_writer read_state read_last_hash last_block_id columns decode_columns lookup
open_writer_test = refl

-- Block 6 extends block 5, which is pending, and not block 4, which is indexed.
abbrev writer5 : QueryWriter
writer5 = record writer4 { pending = block5 ∷ [] }

append_pending_test :
    append hash_of block6 writer5 ≡ ok (record writer4 { pending = block5 ∷ block6 ∷ [] })
unfolding append previous_hash next_block_number breaks_chain
append_pending_test = refl

append_iff_example :
    (IsAccepted hash_of block6 writer5
      → append hash_of block6 writer5
        ≡ ok (record writer5 { pending = writer5.pending ++ (block6 ∷ []) }))
    × ((after : QueryWriter)
        → append hash_of block6 writer5 ≡ ok after
        → IsAccepted hash_of block6 writer5)
append_iff_example = append_iff hash_of block6 writer5

prepare_flush-Prepared_example : Prepared writer56 batch56
prepare_flush-Prepared_example = prepare_flush-Prepared writer56 batch56 prepare_flush_test

failing :
    (flush hash_of (some (Stage.state_index, QueryError.backend 1)) writer56 tables4).1
    ≡ err (QueryError.backend 1)
unfolding flush flush_batch prepare_flush assign_blocks assign_block range
failing = refl

flush_err_example :
    (flush hash_of (some (Stage.state_index, QueryError.backend 1)) writer56 tables4).0.0 ≡ writer56
flush_err_example =
    flush_err hash_of (some (Stage.state_index, QueryError.backend 1)) writer56 tables4
      (QueryError.backend 1) failing

abbrev commands : List (Command hash_of)
commands =
    Command.append_block block5
    ∷ Command.append_block block6
    ∷ Command.flush_writer (some (Stage.bitmap, QueryError.backend 1))
    ∷ Command.flush_writer none
    ∷ Command.append_block block5
    ∷ Command.append_block block7
    ∷ []

-- The first flush fails and the second one indexes two blocks; block 5 is then refused.
history_test :
    (history hash_of commands (writer4, tables4) (no_history hash_of writer4) ≡ record {
      first = 5;
      previous = some 400;
      accepted = block5 ∷ block6 ∷ block7 ∷ [];
      indexed = block5 ∷ block6 ∷ [];
    })
    × ((run hash_of commands (writer4, tables4)).0
        ≡ record { state = batch56.state; last_block_hash = some 600; pending = block7 ∷ [] })
unfolding append previous_hash next_block_number breaks_chain flush flush_batch prepare_flush
    assign_blocks assign_block range
history_test = (refl, refl)

run-Follows_example :
    Follows hash_of
      (history hash_of commands (writer4, tables4) (no_history hash_of writer4))
      (run hash_of commands (writer4, tables4)).0
    × IsValid hash_of (run hash_of commands (writer4, tables4)).0
run-Follows_example = run-Follows hash_of commands tables4 writer4 open_writer_test

writer56-IsValid : IsValid hash_of writer56
writer56-IsValid = (refl, refl, (refl, refl, tt))

some_pending : writer56.pending ≢ []
some_pending e = cc

flushing : (flush hash_of none writer56 tables4).1 ≡ ok tt
unfolding flush flush_batch prepare_flush assign_blocks assign_block range
flushing = refl

below : (s : ℕ) → state4.indexed_start ≡ some s → s ≤ 5
below s e = ground arith

open_writer-flush_example :
    open_writer (flush hash_of none writer56 tables4).0.1
    ≡ ok (flush hash_of none writer56 tables4).0.0
open_writer-flush_example =
    open_writer-flush hash_of writer56 tables4 writer56-IsValid below some_pending flushing

open_writer-flush_err_example :
    open_writer
      (flush hash_of (some (Stage.state_index, QueryError.backend 1)) writer56 tables4).0.1
    ≡ ok writer4
open_writer-flush_err_example =
    open_writer-flush_err hash_of (some (Stage.state_index, QueryError.backend 1)) writer56 writer4
      tables4 (QueryError.backend 1) writer56-IsValid open_writer_test (omega arith) failing
