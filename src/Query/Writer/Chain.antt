-- ===== src/Query/Writer/Chain.antt =====
-- The chain of pending blocks, and the calls that extend it or leave it as it is.
use monad_services.Prelude.{
  ℕ, suc, ◌+◌, ◌<◌, ◌≡◌, refl, sym, ap, ◌∙◌, subst, true, false, Option, none, some, List, [], ◌∷◌,
  ◌++◌, length, last?, ltb, u64_mod, Result, ok, err, >>=-eq-ok, ok-inj, arith, Bool-cases,
  Result-cases, inl, inr, ==-cases,
}
use monad_services.Query.Schema.{QueryError}
use monad_services.Query.Items.{Header}
use monad_services.Query.Tables.{QueryWriter, QueryWriterBlock, QueryWriterFlushBatch, Tables}
use monad_services.Query.Writer.{
  Stage, append, breaks_chain, previous_hash, next_block_number, block_hash_of, flush, flush_batch,
  after_flush, flush_prepared, prepare_flush,
}
use monad_services.Query.Writer.Ranges.{prepare_flush-Prepared}

module _ (hash_slow : Header → ℕ) where
  abbrev pub Extends : Option ℕ → QueryWriterBlock → Type 0
  Extends none block = Unit
  Extends (some previous) block = block.header.parent_hash ≡ previous

  -- Blocks whose numbers count up from `n`, each the child of the one before.
  abbrev pub IsChain : ℕ → Option ℕ → List QueryWriterBlock → Type 0
  IsChain n previous [] = Unit
  IsChain n previous (block ∷ blocks) =
      (block.header.number ≡ n)
      × Extends previous block
      × IsChain (suc n) (some (block_hash_of hash_slow block)) blocks

  -- The pending blocks extend what is indexed.
  abbrev pub IsValid : QueryWriter → Type 0
  IsValid w = IsChain w.state.next_block_id w.last_block_hash w.pending

  -- The hash that the block after `blocks` must name as its parent's.
  abbrev pub hash_before : Option ℕ → List QueryWriterBlock → Option ℕ
  hash_before previous [] = previous
  hash_before previous (block ∷ blocks) = hash_before (some (block_hash_of hash_slow block)) blocks

  abbrev last_or : Option ℕ → List QueryWriterBlock → Option ℕ
  last_or previous blocks = elim (last? blocks) [
    | some block ↦ some (block_hash_of hash_slow block)
    | none ↦ previous
  ]

  last_or-cons :
      (previous : Option ℕ) (block : QueryWriterBlock) (blocks : List QueryWriterBlock)
      → last_or previous (block ∷ blocks) ≡ last_or (some (block_hash_of hash_slow block)) blocks
  last_or-cons previous block [] = refl
  last_or-cons previous block (next ∷ blocks) =
      last_or-cons previous next blocks
      ∙ sym (last_or-cons (some (block_hash_of hash_slow block)) next blocks)

  last_or-hash_before :
      (previous : Option ℕ) (blocks : List QueryWriterBlock)
      → last_or previous blocks ≡ hash_before previous blocks
  last_or-hash_before previous [] = refl
  last_or-hash_before previous (block ∷ blocks) =
      last_or-cons previous block blocks
      ∙ last_or-hash_before (some (block_hash_of hash_slow block)) blocks

  previous_hash-hash_before :
      (w : QueryWriter) → previous_hash hash_slow w ≡ hash_before w.last_block_hash w.pending
  unfolding previous_hash
  previous_hash-hash_before w = last_or-hash_before w.last_block_hash w.pending

  next_block_number_ok :
      (w : QueryWriter) (n : ℕ)
      → next_block_number w ≡ ok n
      → (n ≡ w.state.next_block_id + length w.pending) × (n < u64_mod)
  unfolding next_block_number
  next_block_number_ok w n e =
      elim (Bool-cases (ltb (w.state.next_block_id + length w.pending) u64_mod)) [
        | inl t ↦ (ground (arith, t), ground (arith, t))
        | inr t ↦ absurd (ground (arith, t))
      ]

  abbrev pub IsAccepted : QueryWriterBlock → QueryWriter → Type 0
  IsAccepted block w =
      (block.header.number ≡ w.state.next_block_id + length w.pending)
      × (block.header.number < u64_mod)
      × Extends (hash_before w.last_block_hash w.pending) block

  breaks_chain-false :
      (previous : Option ℕ) (block : QueryWriterBlock)
      → breaks_chain previous block ≡ false
      → Extends previous block
  unfolding breaks_chain
  breaks_chain-false none block h = tt
  breaks_chain-false (some p) block h = ground arith

  breaks_chain-true :
      (previous : Option ℕ) (block : QueryWriterBlock)
      → breaks_chain previous block ≡ true
      → Extends previous block
      → ⊥
  unfolding breaks_chain
  breaks_chain-true none block h e = cc
  breaks_chain-true (some p) block h e = ground arith

  -- What a successful `append` says of the block, and the writer that it leaves.
  pub append_ok :
      (block : QueryWriterBlock) (w after : QueryWriter)
      → append hash_slow block w ≡ ok after
      → IsAccepted block w × (after ≡ record w { pending = w.pending ++ (block ∷ []) })
  unfolding append
  append_ok block w after e =
      let (expected, e1, f1) = >>=-eq-ok (next_block_number w) _ e in
      let (sum, fits) = next_block_number_ok w expected e1 in
      elim (==-cases block.header.number expected) [
        | inl (same, t) ↦ elim (Bool-cases (breaks_chain (previous_hash hash_slow w) block)) [
          | inl b ↦ absurd (ground (arith, t, b))
          | inr b ↦ (
            (
              omega arith,
              omega arith,
              subst (λ p. Extends p block) (previous_hash-hash_before w)
                  (breaks_chain-false (previous_hash hash_slow w) block b),
            ),
            ok-inj (rw (t, b) at (sym f1)),
          )
        ]
        | inr (diff, t) ↦ absurd (ground (arith, t))
      ]

  -- Of a writer, `append` accepts exactly the block with the next number (of 64 bits) that extends the
  -- last pending block, or else the last indexed one: it goes to the end of the pending blocks, and
  -- nothing else changes.
  pub append_iff :
      (block : QueryWriterBlock) (w : QueryWriter)
      → (IsAccepted block w
          → append hash_slow block w ≡ ok (record w { pending = w.pending ++ (block ∷ []) }))
        × ((after : QueryWriter) → append hash_slow block w ≡ ok after → IsAccepted block w)
  unfolding append next_block_number
  append_iff block w = (
    λ h. elim (Bool-cases (breaks_chain (previous_hash hash_slow w) block)) [
      | inl b ↦ absurd (
          breaks_chain-true (previous_hash hash_slow w) block b
            (subst (λ p. Extends p block) (sym (previous_hash-hash_before w)) h.2))
      | inr b ↦ rw b (ground (arith, h.0, h.1))
    ],
    λ after e. (append_ok block w after e).0,
  )

  pub flush-some :
      (fault : Option (Stage × QueryError)) (w : QueryWriter) (tables : Tables)
      (batch : QueryWriterFlushBatch)
      → prepare_flush w ≡ ok (some batch)
      → flush hash_slow fault w tables ≡ (
        (
          after_flush hash_slow w batch (flush_batch hash_slow fault batch tables).1,
          (flush_batch hash_slow fault batch tables).0,
        ),
        (flush_batch hash_slow fault batch tables).1,
      )
  unfolding flush
  flush-some fault w tables batch p = ap (flush_prepared hash_slow fault w tables) p

  pub flush-none :
      (fault : Option (Stage × QueryError)) (w : QueryWriter) (tables : Tables)
      → prepare_flush w ≡ ok none
      → flush hash_slow fault w tables ≡ ((w, tables), ok tt)
  unfolding flush
  flush-none fault w tables p = ap (flush_prepared hash_slow fault w tables) p

  pub flush_refused :
      (fault : Option (Stage × QueryError)) (w : QueryWriter) (tables : Tables) (e : QueryError)
      → prepare_flush w ≡ err e
      → flush hash_slow fault w tables ≡ ((w, tables), err e)
  unfolding flush
  flush_refused fault w tables e p = ap (flush_prepared hash_slow fault w tables) p

  pub after_flush_err :
      (w : QueryWriter) (batch : QueryWriterFlushBatch) (r : Result QueryError (Unit {0}))
      (e : QueryError)
      → prepare_flush w ≡ ok (some batch)
      → r ≡ err e
      → after_flush hash_slow w batch r ≡ w
  after_flush_err w batch (ok u) e p h = absurd cc
  after_flush_err w batch (err d) e p h =
      ap (λ bs. record w { pending = bs }) (prepare_flush-Prepared w batch p).0

  -- A failed flush, at whatever stage the backend fails, leaves the writer as it was: its state, and its
  -- pending blocks in their order.
  pub flush_err :
      (fault : Option (Stage × QueryError)) (w : QueryWriter) (tables : Tables) (e : QueryError)
      → (flush hash_slow fault w tables).1 ≡ err e
      → (flush hash_slow fault w tables).0.0 ≡ w
  flush_err fault w tables e h = elim (Result-cases (prepare_flush w)) [
    | inr (d, p) ↦ ap (λ x. x.0.0) (flush_refused fault w tables d p)
    | inl (none, p) ↦ ap (λ x. x.0.0) (flush-none fault w tables p)
    | inl (some batch, p) ↦
        let whole = flush-some fault w tables batch p in
        ap (λ x. x.0.0) whole
        ∙ after_flush_err w batch (flush_batch hash_slow fault batch tables).1 e p
            (sym (ap (λ x. x.1) whole) ∙ h)
  ]
