-- ===== src/Query/Writer/Recovery.antt =====
-- Reopening the tables after a flush, done or failed.
use monad_services.Prelude.{
  ℕ, suc, ◌+◌, ◌-◌, ◌<◌, ◌≤◌, ◌≡◌, ◌≢◌, refl, sym, ap, ◌∙◌, subst, Option, none, some, List, [],
  ◌∷◌, map, last?, ltb, leb, u64_mod, Result, ok, err, >>=-eq-ok, ok-inj, some-inj, arith,
  Bool-cases, Option-cases, Result-cases, ◌⊎◌, inl, inr, ==-cases,
}
use monad_services.Prelude.Map.{lookup, insert, lookup-insert_self, lookup-insert_ne}
use monad_services.Query.Schema.{QueryError}
use monad_services.Query.Items.{Header}
use monad_services.Query.Tables.{
  last_block_id, StateIndex, QueryWriter, QueryWriterBlock, QueryWriterFlushBatch, AssignedBlock,
  Tables, columns, decode_columns,
}
use monad_services.Query.Writer.{
  Stage, block_hash_of, flush, flush_batch, prepare_flush, assign_blocks, open_writer, read_state,
  read_last_hash, known_hash, put_hashes, put_block_hashes, put_families, put_family_blocks,
  put_state, last_hash, assigned_hash, after_last, or_else, first_number,
}
use monad_services.Query.Writer.Ranges.{prepare_flush-Prepared, next_ids}
use monad_services.Query.Writer.Chain.{IsChain, IsValid, flush-some, flush-none, flush_refused}

-- A state that starts somewhere is read back from its cells.
pub decode_columns-columns :
    (state : StateIndex) (start : ℕ)
    → state.indexed_start ≡ some start
    → decode_columns (columns state) ≡ ok state
unfolding decode_columns columns
decode_columns-columns state start e =
    let same : state ≡ record state { indexed_start = some start } =
      ap (λ s. record state { indexed_start = s }) e in
    subst (λ s. decode_columns (columns s) ≡ ok s) (sym same) refl

last_block_id-suc :
    (state : StateIndex) (start m : ℕ)
    → state.next_block_id ≡ m + 1
    → state.indexed_start ≡ some start
    → start ≤ m
    → last_block_id state ≡ some m
unfolding last_block_id
last_block_id-suc state start m e s h = ground (arith, e, s, h)

last_block_id_lt :
    (state : StateIndex) (m : ℕ) → last_block_id state ≡ some m → m < state.next_block_id
unfolding last_block_id
last_block_id_lt state m e = elim (==-cases state.next_block_id 0) [
  | inl (p, t) ↦ absurd (ground (arith, t))
  | inr (p, t) ↦ elim (Option-cases state.indexed_start) [
    | inl unset ↦ ground (arith, t, unset)
    | inr (start, set) ↦ elim (Bool-cases (leb start (state.next_block_id - 1))) [
      | inl l ↦ ground (arith, t, set, l)
      | inr l ↦ absurd (ground (arith, t, set, l))
    ]
  ]
]

pub after_last_ok :
    (bs : List QueryWriterBlock) (n : ℕ)
    → after_last bs ≡ ok n
    → (b : QueryWriterBlock) × (last? bs ≡ some b) × (n ≡ b.header.number + 1)
after_last_ok bs n e = elim (Option-cases (last? bs)) [
  | inl missing ↦ absurd (ground (arith, missing))
  | inr (b, found) ↦ elim (Bool-cases (ltb (b.header.number + 1) u64_mod)) [
    | inl t ↦ (b, found, ground (arith, found, t))
    | inr t ↦ absurd (ground (arith, found, t))
  ]
]

last?-map :
    (blocks : List AssignedBlock) (b : QueryWriterBlock)
    → last? (map (λ a. a.block) blocks) ≡ some b
    → (a : AssignedBlock) × (last? blocks ≡ some a) × (a.block ≡ b)
last?-map [] b e = absurd cc
last?-map (a ∷ []) b e = (a, refl, some-inj e)
last?-map (a ∷ next ∷ blocks) b e = last?-map (next ∷ blocks) b e

pub prepare_flush-none :
    (state : StateIndex) (hash : Option ℕ) (pending : List QueryWriterBlock)
    → prepare_flush (record { state = state; last_block_hash = hash; pending = pending }) ≡ ok none
    → pending ≡ []
unfolding prepare_flush
prepare_flush-none state hash [] e = refl
prepare_flush-none state hash (block ∷ blocks) e =
    let (done, e1, f1) = >>=-eq-ok (assign_blocks (next_ids state) (block ∷ blocks)) _ e in
    let (next_block, e2, f2) = >>=-eq-ok (after_last (block ∷ blocks)) _ f1 in
    absurd (differ (ok-inj f2))
  where
    differ : {A : Type 0} {a : A} → some a ≢ none
    differ e = cc

module _ (hash_slow : Header → ℕ) where
  lookup-put_hashes :
      (blocks : List AssignedBlock) (table : List (ℕ × ℕ)) (a : AssignedBlock)
      → last? blocks ≡ some a
      → lookup a.block.header.number (put_hashes hash_slow blocks table)
        ≡ some (block_hash_of hash_slow a.block)
  unfolding put_hashes
  lookup-put_hashes [] table a e = absurd cc
  lookup-put_hashes (b ∷ []) table a e =
      subst
        (λ x.
          lookup x.block.header.number
            (insert b.block.header.number (block_hash_of hash_slow b.block) table)
          ≡ some (block_hash_of hash_slow x.block))
        (some-inj e)
        (lookup-insert_self b.block.header.number (block_hash_of hash_slow b.block) table)
  lookup-put_hashes (b ∷ next ∷ blocks) table a e =
      lookup-put_hashes (next ∷ blocks)
        (insert b.block.header.number (block_hash_of hash_slow b.block) table) a e

  -- Rows below the batch stay.
  lookup-put_hashes_below :
      (n m : ℕ) (previous : Option ℕ) (blocks : List AssignedBlock) (table : List (ℕ × ℕ))
      → IsChain hash_slow n previous (map (λ a. a.block) blocks)
      → m < n
      → lookup m (put_hashes hash_slow blocks table) ≡ lookup m table
  unfolding put_hashes
  lookup-put_hashes_below n m previous [] table h lt = refl
  lookup-put_hashes_below n m previous (b ∷ blocks) table h lt =
      lookup-put_hashes_below (suc n) m (some (block_hash_of hash_slow b.block)) blocks
        (insert b.block.header.number (block_hash_of hash_slow b.block) table) h.2
        (omega (arith, lt))
      ∙ lookup-insert_ne b.block.header.number m (block_hash_of hash_slow b.block) table
          (λ e. omega (arith, h.0, lt))

  IsChain-last :
      (n : ℕ) (previous : Option ℕ) (bs : List QueryWriterBlock) (b : QueryWriterBlock)
      → IsChain hash_slow n previous bs
      → last? bs ≡ some b
      → n ≤ b.header.number
  IsChain-last n previous [] b h e = absurd cc
  IsChain-last n previous (x ∷ []) b h e =
      omega (arith, h.0, ap (λ y. y.header.number) (some-inj e))
  IsChain-last n previous (x ∷ y ∷ bs) b h e =
      omega (arith, IsChain-last (suc n) (some (block_hash_of hash_slow x)) (y ∷ bs) b h.2 e)

  -- Where the new state starts.
  start_of :
      (n : ℕ) (previous : Option ℕ) (bs : List QueryWriterBlock) (b : QueryWriterBlock)
      (start : Option ℕ)
      → IsChain hash_slow n previous bs
      → last? bs ≡ some b
      → ((s : ℕ) → start ≡ some s → s ≤ n)
      → (s : ℕ) × (or_else start (first_number bs) ≡ some s) × (s ≤ b.header.number)
  start_of n previous [] b start h e below = absurd cc
  start_of n previous (x ∷ bs) b none h e below =
      (x.header.number, refl, omega (arith, h.0, IsChain-last n previous (x ∷ bs) b h e))
  start_of n previous (x ∷ bs) b (some s) h e below =
      (s, refl, omega (arith, below s refl, IsChain-last n previous (x ∷ bs) b h e))

  -- The indexed range does not start above its end.
  abbrev pub StartsBelow : QueryWriter → Type 0
  StartsBelow w = (s : ℕ) → w.state.indexed_start ≡ some s → s ≤ w.state.next_block_id

  read_last_hash-some :
      (tables : Tables) (m hash : ℕ)
      → lookup m tables.block_hash ≡ some hash
      → read_last_hash tables (some m) ≡ ok (some hash)
  unfolding read_last_hash
  read_last_hash-some tables m hash e = ap known_hash e

  open_flushed :
      (w : QueryWriter) (tables : Tables) (batch : QueryWriterFlushBatch)
      → IsValid hash_slow w
      → StartsBelow w
      → prepare_flush w ≡ ok (some batch)
      → open_writer (flush_batch hash_slow none batch tables).0
        ≡ ok (record {
          state = batch.state;
          last_block_hash = last_hash hash_slow batch.blocks;
          pending = [];
        })
  unfolding open_writer read_state flush_batch put_state put_family_blocks put_families
      put_block_hashes
  open_flushed w tables batch h below p =
      let (blocks, ids, start, next) = prepare_flush-Prepared w batch p in
      let (b, is_last, number) = after_last_ok w.pending batch.state.next_block_id next in
      let (s, starts, low) =
        start_of w.state.next_block_id w.last_block_hash w.pending b w.state.indexed_start h is_last
          below in
      let (a, last_assigned, same) = last?-map batch.blocks b (ap last? blocks ∙ is_last) in
      let read = decode_columns-columns batch.state s (start ∙ starts) in
      let height =
        last_block_id-suc batch.state s a.block.header.number
          (number ∙ ap (λ x. x.header.number + 1) (sym same)) (start ∙ starts)
          (omega (arith, low, ap (λ x. x.header.number) same)) in
      let hash = lookup-put_hashes batch.blocks tables.block_hash a last_assigned in
      let stored =
        read_last_hash-some (flush_batch hash_slow none batch tables).0 a.block.header.number
          (block_hash_of hash_slow a.block) hash in
      rw (read, height, stored)
        (ap (λ x. ok (record { state = batch.state; last_block_hash = x; pending = [] }))
          (sym (ap (assigned_hash hash_slow) last_assigned)))

  -- A flush that the backend does not fail at, of a writer with pending blocks that extend what is
  -- indexed and whose indexed range does not start above its end: where it succeeds, opening the tables
  -- anew gives exactly the writer that it leaves.
  pub open_writer-flush :
      (w : QueryWriter) (tables : Tables)
      → IsValid hash_slow w
      → StartsBelow w
      → w.pending ≢ []
      → (flush hash_slow none w tables).1 ≡ ok tt
      → open_writer (flush hash_slow none w tables).0.1 ≡ ok (flush hash_slow none w tables).0.0
  open_writer-flush w tables h below some_pending e = elim (Result-cases (prepare_flush w)) [
    | inr (d, p) ↦
        absurd (refused d (sym (ap (λ x. x.1) (flush_refused hash_slow none w tables d p)) ∙ e))
    | inl (none, p) ↦
        absurd (some_pending (prepare_flush-none w.state w.last_block_hash w.pending p))
    | inl (some batch, p) ↦
        rw (flush-some hash_slow none w tables batch p)
          (unfold flush_batch in open_flushed w tables batch h below p)
  ]
    where
      refused : (d : QueryError) → ◌≢◌ {A = Result QueryError (Unit {0})} (err d) (ok tt)
      refused d e = cc

  -- What a failed batch leaves of the tables.
  failed_batch :
      (fault : Option (Stage × QueryError)) (batch : QueryWriterFlushBatch) (tables : Tables)
      (e : QueryError)
      → (flush_batch hash_slow fault batch tables).1 ≡ err e
      → ((flush_batch hash_slow fault batch tables).0.index ≡ tables.index)
        × (((flush_batch hash_slow fault batch tables).0.block_hash ≡ tables.block_hash)
            ⊎ ((flush_batch hash_slow fault batch tables).0.block_hash
                ≡ put_hashes hash_slow batch.blocks tables.block_hash))
  unfolding flush_batch put_state put_family_blocks put_families put_block_hashes
  failed_batch none batch tables e h = absurd cc
  failed_batch (some (Stage.payload, d)) batch tables e h = (refl, inl refl)
  failed_batch (some (Stage.bitmap, d)) batch tables e h = (refl, inl refl)
  failed_batch (some (Stage.block_hash, d)) batch tables e h = (refl, inl refl)
  failed_batch (some (Stage.family, d)) batch tables e h = (refl, inr refl)
  failed_batch (some (Stage.family_block_index, d)) batch tables e h = (refl, inr refl)
  failed_batch (some (Stage.state_index, d)) batch tables e h = (refl, inr refl)

  read_last_hash_same :
      (before after : Tables) (height : Option ℕ)
      → ((m : ℕ) → height ≡ some m → lookup m after.block_hash ≡ lookup m before.block_hash)
      → read_last_hash after height ≡ read_last_hash before height
  unfolding read_last_hash
  read_last_hash_same before after none same = refl
  read_last_hash_same before after (some m) same = ap known_hash (same m refl)

  read_state_same :
      (before after : Tables) → after.index ≡ before.index → read_state after ≡ read_state before
  unfolding read_state
  read_state_same before after same = rw same

  open_same :
      (before after : Tables) (w : QueryWriter)
      → after.index ≡ before.index
      → open_writer before ≡ ok w
      → ((m : ℕ)
          → m < w.state.next_block_id
          → lookup m after.block_hash ≡ lookup m before.block_hash)
      → open_writer after ≡ ok w
  unfolding open_writer
  open_same before after w same e rows =
      let (state, e1, f1) = >>=-eq-ok (read_state before) _ e in
      let (hash, e2, f2) = >>=-eq-ok (read_last_hash before (last_block_id state)) _ f1 in
      let is_state = ap (λ x. x.state) (ok-inj f2) in
      let read : read_state after ≡ ok state = read_state_same before after same ∙ e1 in
      let last = read_last_hash_same before after (last_block_id state) (λ m found.
        rows m
          (omega (arith, last_block_id_lt state m found, ap (λ x. x.next_block_id) is_state))) in
      rw (read, last, e2) f2

  -- A flush of a writer whose pending blocks extend what is indexed, at a stage of which the backend
  -- fails: the tables open as they did before, if they did with no more blocks than the writer has indexed.
  pub open_writer-flush_err :
      (fault : Option (Stage × QueryError)) (w opened : QueryWriter) (tables : Tables)
      (e : QueryError)
      → IsValid hash_slow w
      → open_writer tables ≡ ok opened
      → opened.state.next_block_id ≤ w.state.next_block_id
      → (flush hash_slow fault w tables).1 ≡ err e
      → open_writer (flush hash_slow fault w tables).0.1 ≡ ok opened
  open_writer-flush_err fault w opened tables e h o le failed =
      elim (Result-cases (prepare_flush w)) [
        | inr (d, p) ↦ rw (flush_refused hash_slow fault w tables d p) o
        | inl (none, p) ↦ rw (flush-none hash_slow fault w tables p) o
        | inl (some batch, p) ↦
            let whole = flush-some hash_slow fault w tables batch p in
            let (index, hashes) =
              failed_batch fault batch tables e (sym (ap (λ x. x.1) whole) ∙ failed) in
            rw whole (
              open_same tables (flush_batch hash_slow fault batch tables).0 opened index o (λ m lt.
                elim hashes [
                  | inl same ↦ ap (lookup m) same
                  | inr put ↦
                      ap (lookup m) put
                      ∙ lookup-put_hashes_below w.state.next_block_id m w.last_block_hash
                          batch.blocks tables.block_hash
                          (subst (IsChain hash_slow w.state.next_block_id w.last_block_hash)
                            (sym (prepare_flush-Prepared w batch p).0) h)
                          (omega (arith, lt, le))
                ]))
      ]
