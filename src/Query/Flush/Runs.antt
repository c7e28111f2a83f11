-- ===== src/Query/Flush/Runs.antt =====
-- A first block in the payload stage.
use monad_services.Prelude.{
  ℕ, All, ◌+◌, ◌<◌, ◌≡◌, refl, none, some, List, [], ◌∷◌, ◌++◌, length, arith, u64_mod, ok,
}
use monad_services.Prelude.Map.{lookup}
use monad_services.Query.Schema.{Family}
use monad_services.Query.Items.{Header}
use monad_services.Query.Tables.{
  QueryWriter, QueryWriterBlock, QueryWriterFlushBatch, PayloadTables, PerFamily, at_family,
  default_state, last_block_id,
}
use monad_services.Query.Writer.{prepare_flush, assign_blocks, assign_block, range}
use monad_services.Query.Writer.Chain.{IsValid}
use monad_services.Query.Payload.{Encoders, committed_id, flush_payload}
use monad_services.Query.Payload.Append.{IsStorable}
use monad_services.Query.Payload.Log.{Represents, last_id}
use monad_services.Query.Payload.Flush.{batch_rows}
use monad_services.Query.Flush.{next_id, flush_payload-prepare_flush}

abbrev numbers : Encoders
numbers = record {
  header = λ h. h.number ∷ [];
  tx = λ tx. tx.signed_tx_bytes;
  log = λ log. log.data_bytes;
  trace = λ trace. trace.input;
}

abbrev plain : List ℕ → List ℕ
plain bytes = 7 ∷ bytes

abbrev hash_of : Header → ℕ
hash_of header = header.number + 100

abbrev genesis : QueryWriterBlock
genesis = record {
  header = record { number = 0; parent_hash = 0; beneficiary = []; contents = 0 };
  txs =
      record {
        envelope = record { tx_hash = 1; sender = []; signed_tx_bytes = 8 ∷ [] };
        logs = [];
        traces = [];
      }
      ∷ [];
}

abbrev new_writer : QueryWriter
new_writer = record { state = default_state; last_block_hash = none; pending = genesis ∷ [] }

abbrev genesis_batch : QueryWriterFlushBatch
genesis_batch = record {
  blocks =
      record {
        block = genesis;
        logs = record { first_primary_id = 0; count = 0 };
        txs = record { first_primary_id = 0; count = 1 };
        traces = record { first_primary_id = 0; count = 0 };
      }
      ∷ [];
  state = record default_state { indexed_start = some 0; next_block_id = 1; next_tx_id = 1 };
}

genesis_prepared : prepare_flush new_writer ≡ ok (some genesis_batch)
unfolding prepare_flush assign_blocks assign_block range
genesis_prepared = refl

abbrev all {ℓ} : {V : Type ℓ} → V → PerFamily V
all v = record { block_header = v; transaction = v; log = v; trace = v }

abbrev no_tables : PayloadTables
no_tables = record { blobs = all []; locations = all [] }

no_items : Represents plain 0 [] [] []
unfolding lookup
no_items = record { begins = λ p. ([], refl); located_at = λ k h. absurd (omega (arith, h)) }

all_before :
    (f : Family)
    → Represents plain
        (at_family f (all 0))
        (at_family f (all []))
        (at_family f no_tables.locations)
        (at_family f no_tables.blobs)
all_before Family.block_header = no_items
all_before Family.transaction = no_items
all_before Family.log = no_items
all_before Family.trace = no_items

all_committed :
    (f : Family)
    → committed_id f default_state ≡ last_id (at_family f (all 0)) (at_family f (all []))
unfolding last_block_id
all_committed Family.block_header = refl
all_committed Family.transaction = refl
all_committed Family.log = refl
all_committed Family.trace = refl

all_next :
    (f : Family)
    → at_family f (all 0) + length (at_family f (all {V = List (List ℕ)} []))
      ≡ next_id f default_state
all_next Family.block_header = refl
all_next Family.transaction = refl
all_next Family.log = refl
all_next Family.trace = refl

all_fit :
    (f : Family)
    → next_id f default_state + length (batch_rows numbers f genesis_batch.blocks) < u64_mod
all_fit Family.block_header = omega arith
all_fit Family.transaction = omega arith
all_fit Family.log = omega arith
all_fit Family.trace = omega arith

batch_rows-IsStorable : (f : Family) → All IsStorable (batch_rows numbers f genesis_batch.blocks)
batch_rows-IsStorable Family.block_header = (omega arith, tt)
batch_rows-IsStorable Family.transaction = (omega arith, tt)
batch_rows-IsStorable Family.log = tt
batch_rows-IsStorable Family.trace = tt

genesis_IsValid : IsValid hash_of new_writer
genesis_IsValid = (refl, tt, tt)

flush_payload-prepare_flush_example :
    (after : PayloadTables) × (flush_payload numbers plain default_state genesis_batch.blocks
        no_tables
      ≡ (after, ok tt))
    × ((f : Family)
        → Represents plain
            (at_family f (all 0))
            (at_family f (all []) ++ batch_rows numbers f genesis_batch.blocks)
            (at_family f after.locations)
            (at_family f after.blobs))
flush_payload-prepare_flush_example =
    flush_payload-prepare_flush numbers plain hash_of new_writer genesis_batch no_tables (all 0)
      (all []) genesis_IsValid genesis_prepared all_before all_committed all_next all_fit
      batch_rows-IsStorable
