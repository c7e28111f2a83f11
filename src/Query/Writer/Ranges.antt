-- ===== src/Query/Writer/Ranges.antt =====
-- The ID ranges of a batch.
use monad_services.Prelude.{
  ℕ, ◌+◌, ◌≡◌, refl, ap, ◌∙◌, Option, none, some, List, [], ◌∷◌, length, map, ltb, u64_mod, u32_mod,
  ok, >>=-eq-ok, ok-inj, arith, Bool-cases, inl, inr, some-inj, ◌≢◌, subst,
}
use monad_services.Query.Schema.{Message, FamilyMetadata}
use monad_services.Query.Tables.{
  StateIndex, QueryWriter, QueryWriterBlock, AssignedBlock, QueryWriterFlushBatch,
}
use monad_services.Query.Writer.{
  NextIds, range, advance, assign_block, assign_blocks, prepare_flush, log_count, trace_count,
  after_last, or_else, first_number,
}

-- A range starts at the next free ID, counts the block's records and leaves the next free ID.
abbrev pub Takes : ℕ → ℕ → FamilyMetadata → ℕ → Type 0
Takes next records r end =
    (r.first_primary_id ≡ next) × (r.count ≡ records) × (end ≡ next + records)

-- The ranges of one block, and of a list of blocks one after the other.
abbrev pub Assigns : NextIds → AssignedBlock → NextIds → Type 0
Assigns next a end =
    Takes next.tx (length a.block.txs) a.txs end.tx
    × Takes next.log (log_count a.block.txs) a.logs end.log
    × Takes next.trace (trace_count a.block.txs) a.traces end.trace

abbrev pub Contiguous : NextIds → List AssignedBlock → NextIds → Type 0
Contiguous next [] end = end ≡ next
Contiguous next (a ∷ blocks) end =
    (middle : NextIds) × Assigns next a middle × Contiguous middle blocks end

range_ok :
    (first count : ℕ) (r : FamilyMetadata)
    → range first count ≡ ok r
    → (r.first_primary_id ≡ first) × (r.count ≡ count)
unfolding range
range_ok first count r e = elim (Bool-cases (ltb count u32_mod)) [
  | inl t ↦
      let same : r ≡ record { first_primary_id = first; count = count } = ground (arith, t) in
      (ap (λ x. x.first_primary_id) same, ap (λ x. x.count) same)
  | inr t ↦ absurd (ground (arith, t))
]

advance_ok : (m : Message) (next count n : ℕ) → advance m next count ≡ ok n → n ≡ next + count
advance_ok m next count n e = elim (Bool-cases (ltb (next + count) u64_mod)) [
  | inl t ↦ ground (arith, t)
  | inr t ↦ absurd (ground (arith, t))
]

none-ne-some : {A : Type 0} {a : A} → none ≢ some a
none-ne-some e = cc

pub assign_block-Assigns :
    (next end : NextIds) (block : QueryWriterBlock) (a : AssignedBlock)
    → assign_block next block ≡ ok (a, end)
    → (a.block ≡ block) × Assigns next a end
unfolding assign_block
assign_block-Assigns next end block a e =
    let (txs, e1, f1) = >>=-eq-ok (range next.tx (length block.txs)) _ e in
    let (logs, e2, f2) = >>=-eq-ok (range next.log (log_count block.txs)) _ f1 in
    let (traces, e3, f3) = >>=-eq-ok (range next.trace (trace_count block.txs)) _ f2 in
    let (tx, e4, f4) = >>=-eq-ok (advance Message.transaction_id_overflow next.tx txs.count) _ f3 in
    let (log, e5, f5) = >>=-eq-ok (advance Message.log_id_overflow next.log logs.count) _ f4 in
    let (trace, e6, f6) =
      >>=-eq-ok (advance Message.trace_id_overflow next.trace traces.count) _ f5 in
    let both = ok-inj f6 in
    let pa = ap (λ p. p.0) both in
    let pe = ap (λ p. p.1) both in
    let (r1, c1) = range_ok next.tx (length block.txs) txs e1 in
    let (r2, c2) = range_ok next.log (log_count block.txs) logs e2 in
    let (r3, c3) = range_ok next.trace (trace_count block.txs) traces e3 in
    let a1 = advance_ok Message.transaction_id_overflow next.tx txs.count tx e4 in
    let a2 = advance_ok Message.log_id_overflow next.log logs.count log e5 in
    let a3 = advance_ok Message.trace_id_overflow next.trace traces.count trace e6 in
    subst (λ x. (x.block ≡ block) × Assigns next x end) pa
      (subst
        (λ x.
          (block ≡ block)
          × Assigns next (record { block = block; logs = logs; txs = txs; traces = traces }) x)
        pe
        (
          refl,
          (
            (r1, c1, a1 ∙ ap (◌+◌ next.tx) c1),
            (r2, c2, a2 ∙ ap (◌+◌ next.log) c2),
            (r3, c3, a3 ∙ ap (◌+◌ next.trace) c3),
          ),
        ))

pub assign_blocks-Contiguous :
    (blocks : List QueryWriterBlock) (next : NextIds) (done : List AssignedBlock × NextIds)
    → assign_blocks next blocks ≡ ok done
    → (map (λ a. a.block) done.0 ≡ blocks) × Contiguous next done.0 done.1
unfolding assign_blocks
assign_blocks-Contiguous [] next done e =
    subst (λ x. (map (λ a. a.block) x.0 ≡ []) × Contiguous next x.0 x.1) (ok-inj e) (refl, refl)
assign_blocks-Contiguous (block ∷ blocks) next done e =
    let (one, e1, f1) = >>=-eq-ok (assign_block next block) _ e in
    let (more, e2, f2) = >>=-eq-ok (assign_blocks one.1 blocks) _ f1 in
    let (b, h) = assign_block-Assigns next one.1 block one.0 e1 in
    let (bs, hs) = assign_blocks-Contiguous blocks one.1 more e2 in
    subst (λ x. (map (λ a. a.block) x.0 ≡ block ∷ blocks) × Contiguous next x.0 x.1) (ok-inj f2)
      (ap (λ y. y ∷ map (λ a. a.block) more.0) b ∙ ap (◌∷◌ block) bs, (one.1, h, hs))

-- The next IDs of a state.
abbrev pub next_ids : StateIndex → NextIds
next_ids state = record {
  tx = state.next_tx_id;
  log = state.next_log_id;
  trace = state.next_trace_id;
}

-- How a prepared batch stands to the writer's pending blocks and its state.
abbrev pub Prepared : QueryWriter → QueryWriterFlushBatch → Type 0
Prepared w batch =
    (map (λ a. a.block) batch.blocks ≡ w.pending)
    × Contiguous (next_ids w.state) batch.blocks (next_ids batch.state)
    × (batch.state.indexed_start ≡ or_else w.state.indexed_start (first_number w.pending))
    × (after_last w.pending ≡ ok batch.state.next_block_id)

prepare_flush_of_pending :
    (state : StateIndex) (hash : Option ℕ) (pending : List QueryWriterBlock)
    (batch : QueryWriterFlushBatch)
    → prepare_flush (record { state = state; last_block_hash = hash; pending = pending })
      ≡ ok (some batch)
    → Prepared (record { state = state; last_block_hash = hash; pending = pending }) batch
unfolding prepare_flush
prepare_flush_of_pending state hash [] batch e = absurd (none-ne-some (ok-inj e))
prepare_flush_of_pending state hash (block ∷ blocks) batch e =
    let (done, e1, f1) = >>=-eq-ok (assign_blocks (next_ids state) (block ∷ blocks)) _ e in
    let (next_block, e2, f2) = >>=-eq-ok (after_last (block ∷ blocks)) _ f1 in
    let (same, ranges) = assign_blocks-Contiguous (block ∷ blocks) (next_ids state) done e1 in
    subst (Prepared (record { state = state; last_block_hash = hash; pending = block ∷ blocks }))
      (some-inj (ok-inj f2)) (same, ranges, refl, e2)

-- A prepared batch holds the pending blocks in order. Its ranges of transaction, log and trace IDs
-- follow each other without a gap or an overlap, from the state's next IDs on: each counts its block's
-- records, and the new state's next IDs are those behind the last. The new state starts where the old
-- one does, or else at the first block, and its next block follows the last one.
pub prepare_flush-Prepared :
    (w : QueryWriter) (batch : QueryWriterFlushBatch)
    → prepare_flush w ≡ ok (some batch)
    → Prepared w batch
prepare_flush-Prepared w batch e =
    prepare_flush_of_pending w.state w.last_block_hash w.pending batch e
