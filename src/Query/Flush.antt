-- ===== src/Query/Flush.antt =====
-- crates/monad-query-write: the batch that the writer prepares, in the payload stage.
mod Runs
use monad_services.Prelude.{
  ℕ, All, suc, ◌+◌, ◌<◌, ◌≡◌, refl, sym, ap, ◌∙◌, subst, Option, some, none, List, [], ◌∷◌, ◌++◌,
  length, map, length-append, arith, u64_mod, Result, ok,
}
use monad_services.Query.Schema.{Family}
use monad_services.Query.Items.{Header}
use monad_services.Query.Tables.{
  AssignedBlock, QueryWriter, QueryWriterBlock, QueryWriterTx, QueryWriterFlushBatch, StateIndex,
  PayloadTables, PerFamily, at_family,
}
use monad_services.Query.Writer.{prepare_flush, log_count, trace_count, NextIds}
use monad_services.Query.Writer.Ranges.{
  Takes, Assigns, Contiguous, next_ids, prepare_flush-Prepared,
}
use monad_services.Query.Writer.Chain.{IsChain, IsValid}
use monad_services.Query.Payload.{Encoders, committed_id, flush_payload, log_rows, trace_rows}
use monad_services.Query.Payload.Log.{Represents, last_id}
use monad_services.Query.Payload.Append.{IsStorable}
use monad_services.Query.Payload.Flush.{
  Follows, batch_rows, four_families, flush_payload-Represents,
}

length-map {ℓ κ} :
    {A : Type ℓ} {B : Type κ} (f : A → B) (xs : List A) → length (map f xs) ≡ length xs
length-map f [] = refl
length-map f (x ∷ xs) = ap suc (length-map f xs)

length-log_rows :
    (e : Encoders) (txs : List QueryWriterTx) → length (log_rows e txs) ≡ log_count txs
length-log_rows e [] = refl
length-log_rows e (tx ∷ txs) =
    length-append (map e.log tx.logs) (log_rows e txs)
    ∙ omega (arith, length-map e.log tx.logs, length-log_rows e txs)

length-trace_rows :
    (e : Encoders) (txs : List QueryWriterTx) → length (trace_rows e txs) ≡ trace_count txs
length-trace_rows e [] = refl
length-trace_rows e (tx ∷ txs) =
    length-append (map e.trace tx.traces) (trace_rows e txs)
    ∙ omega (arith, length-map e.trace tx.traces, length-trace_rows e txs)

-- Ranges that follow each other number the rows one after the other.
Follows-tx :
    (e : Encoders) (next end : NextIds) (blocks : List AssignedBlock)
    → Contiguous next blocks end
    → Follows e Family.transaction next.tx blocks
Follows-tx e next end [] c = tt
Follows-tx e next end (a ∷ blocks) (middle, (takes, _, _), rest) =
    let size : middle.tx ≡ next.tx + length (map (λ tx. e.tx tx.envelope) a.block.txs) =
      takes.2
      ∙ ap (◌+◌ next.tx)
          (sym (length-map (λ (tx : QueryWriterTx). e.tx tx.envelope) a.block.txs)) in
    (
      takes.0,
      subst (λ n. Follows e Family.transaction n blocks) size (Follows-tx e middle end blocks rest),
    )

Follows-log :
    (e : Encoders) (next end : NextIds) (blocks : List AssignedBlock)
    → Contiguous next blocks end
    → Follows e Family.log next.log blocks
Follows-log e next end [] c = tt
Follows-log e next end (a ∷ blocks) (middle, (_, takes, _), rest) =
    let size : middle.log ≡ next.log + length (log_rows e a.block.txs) =
      takes.2 ∙ ap (◌+◌ next.log) (sym (length-log_rows e a.block.txs)) in
    (
      takes.0,
      subst (λ n. Follows e Family.log n blocks) size (Follows-log e middle end blocks rest),
    )

Follows-trace :
    (e : Encoders) (next end : NextIds) (blocks : List AssignedBlock)
    → Contiguous next blocks end
    → Follows e Family.trace next.trace blocks
Follows-trace e next end [] c = tt
Follows-trace e next end (a ∷ blocks) (middle, (_, _, takes), rest) =
    let size : middle.trace ≡ next.trace + length (trace_rows e a.block.txs) =
      takes.2 ∙ ap (◌+◌ next.trace) (sym (length-trace_rows e a.block.txs)) in
    (
      takes.0,
      subst (λ n. Follows e Family.trace n blocks) size (Follows-trace e middle end blocks rest),
    )

-- Consecutive block numbers number the headers one after the other.
Follows-header :
    (e : Encoders) (hash_slow : Header → ℕ) (n : ℕ) (previous : Option ℕ)
    (blocks : List AssignedBlock)
    → IsChain hash_slow n previous (map (λ a. a.block) blocks)
    → Follows e Family.block_header n blocks
Follows-header e hash_slow n previous [] c = tt
Follows-header e hash_slow n previous (a ∷ blocks) (number, _, rest) =
    let next : suc n ≡ n + 1 = omega arith in
    (
      number,
      subst (λ m. Follows e Family.block_header m blocks) next
          (Follows-header e hash_slow (suc n) _ blocks rest),
    )

abbrev pub next_id : Family → StateIndex → ℕ
next_id Family.block_header state = state.next_block_id
next_id Family.transaction state = state.next_tx_id
next_id Family.log state = state.next_log_id
next_id Family.trace state = state.next_trace_id

Prepared-Follows :
    (e : Encoders) (hash_slow : Header → ℕ) (w : QueryWriter) (batch : QueryWriterFlushBatch)
    → IsValid hash_slow w
    → prepare_flush w ≡ ok (some batch)
    → (f : Family) → Follows e f (next_id f w.state) batch.blocks
Prepared-Follows e hash_slow w batch v p f =
    let (blocks, ranges, _, _) = prepare_flush-Prepared w batch p in
    let chain = subst (IsChain hash_slow w.state.next_block_id w.last_block_hash) (sym blocks) v in
    four_families (λ f. Follows e f (next_id f w.state) batch.blocks)
      (Follows-header e hash_slow w.state.next_block_id w.last_block_hash batch.blocks chain)
      (Follows-tx e (next_ids w.state) (next_ids batch.state) batch.blocks ranges)
      (Follows-log e (next_ids w.state) (next_ids batch.state) batch.blocks ranges)
      (Follows-trace e (next_ids w.state) (next_ids batch.state) batch.blocks ranges) f

-- What a valid writer prepares can be flushed to the payload tables: when they stand for the items up to the writer's
-- next ID of each family, the IDs stay below 2 ^ 64 and no encoded item has more than 128 MiB, the payload stage succeeds and adds the encoded items of the
-- pending blocks.
pub flush_payload-prepare_flush :
    (e : Encoders) (compress : List ℕ → List ℕ) (hash_slow : Header → ℕ) (w : QueryWriter)
    (batch : QueryWriterFlushBatch) (tables : PayloadTables) (first : PerFamily ℕ)
    (old : PerFamily (List (List ℕ)))
    → IsValid hash_slow w
    → prepare_flush w ≡ ok (some batch)
    → ((f : Family)
        → Represents compress
            (at_family f first)
            (at_family f old)
            (at_family f tables.locations)
            (at_family f tables.blobs))
    → ((f : Family) → committed_id f w.state ≡ last_id (at_family f first) (at_family f old))
    → ((f : Family) → at_family f first + length (at_family f old) ≡ next_id f w.state)
    → ((f : Family) → next_id f w.state + length (batch_rows e f batch.blocks) < u64_mod)
    → ((f : Family) → All IsStorable (batch_rows e f batch.blocks))
    → (after : PayloadTables) × (flush_payload e compress w.state batch.blocks tables
        ≡ (after, ok tt))
      × ((f : Family)
          → Represents compress
              (at_family f first)
              (at_family f old ++ batch_rows e f batch.blocks)
              (at_family f after.locations)
              (at_family f after.blobs))
flush_payload-prepare_flush e compress hash_slow w batch tables first old valid prepared before
      committed next fits storable =
    flush_payload-Represents e compress w.state batch.blocks tables first old before committed
      (λ f.
        subst (λ n. Follows e f n batch.blocks) (sym (next f))
          (Prepared-Follows e hash_slow w batch valid prepared f))
      (λ f. subst (λ n. n + length (batch_rows e f batch.blocks) < u64_mod) (sym (next f)) (fits f))
      storable
