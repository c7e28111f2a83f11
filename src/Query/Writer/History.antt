-- ===== src/Query/Writer/History.antt =====
-- Sequences of calls on a writer, against a history of the blocks that it accepted.
use monad_services.Prelude.{
  ℕ, ◌+◌, ◌≡◌, refl, sym, ap, ◌∙◌, subst, Option, none, some, List, [], ◌∷◌, ◌++◌, length, last?,
  length-append, append-nil, append_assoc, Result, ok, err, >>=-eq-ok, ok-inj, arith, Option-cases,
  Result-cases, inl, inr, ==-cases,
}
use monad_services.Query.Schema.{QueryError}
use monad_services.Query.Items.{Header}
use monad_services.Query.Tables.{
  last_block_id, StateIndex, QueryWriter, QueryWriterBlock, QueryWriterFlushBatch, Tables,
}
use monad_services.Query.Writer.{
  Stage, append, start_at, flush, flush_batch, after_flush, prepare_flush, open_writer, read_state,
  read_last_hash,
}
use monad_services.Query.Writer.Ranges.{prepare_flush-Prepared}
use monad_services.Query.Writer.Recovery.{after_last_ok, prepare_flush-none}
use monad_services.Query.Writer.Links.{
  IsChain-snoc, hash_before-append, IsChain-append, last_number, last_hash-hash_before,
}
use monad_services.Query.Writer.Chain.{
  Extends, IsChain, IsValid, hash_before, append_ok, flush-some, flush-none, flush_refused,
  after_flush_err,
}

module _ (hash_slow : Header → ℕ) where
  -- What a client may do, and the writer and the tables after it: a refused call changes nothing.
  pub data Command : Type 0 where
    append_block : QueryWriterBlock → Command
    start_writer : ℕ → Command
    flush_writer : Option (Stage × QueryError) → Command

  abbrev pub settle : QueryWriter → Tables → Result QueryError QueryWriter → QueryWriter × Tables
  settle w tables (ok after) = (after, tables)
  settle w tables (err e) = (w, tables)

  abbrev pub step : Command → QueryWriter × Tables → QueryWriter × Tables
  step (Command.append_block block) (w, tables) = settle w tables (append hash_slow block w)
  step (Command.start_writer n) (w, tables) = settle w tables (start_at n w)
  step (Command.flush_writer fault) (w, tables) = (flush hash_slow fault w tables).0

  abbrev pub run : List Command → QueryWriter × Tables → QueryWriter × Tables
  run [] s = s
  run (c ∷ cs) s = run cs (step c s)

  -- The number of the first block, the hash of the block before it, the blocks whose append succeeded
  -- since, and those of them that a flush which succeeded has indexed.
  pub record History : Type 0 where
    pub first : ℕ
    pub previous : Option ℕ
    pub accepted : List QueryWriterBlock
    pub indexed : List QueryWriterBlock

  abbrev pub note_append : QueryWriterBlock → Result QueryError QueryWriter → History → History
  note_append block (ok w) h = record h { accepted = h.accepted ++ (block ∷ []) }
  note_append block (err e) h = h

  abbrev pub note_start : ℕ → Result QueryError QueryWriter → History → History
  note_start n (ok w) h = record h { first = n; accepted = []; indexed = [] }
  note_start n (err e) h = h

  abbrev pub note_flush : Result QueryError (Unit {0}) → History → History
  note_flush (ok u) h = record h { indexed = h.accepted }
  note_flush (err e) h = h

  -- What a call's outcome adds to the history.
  abbrev pub note : Command → QueryWriter × Tables → History → History
  note (Command.append_block block) (w, tables) h = note_append block (append hash_slow block w) h
  note (Command.start_writer n) (w, tables) h = note_start n (start_at n w) h
  note (Command.flush_writer fault) (w, tables) h = note_flush (flush hash_slow fault w tables).1 h

  abbrev pub history : List Command → QueryWriter × Tables → History → History
  history [] s h = h
  history (c ∷ cs) s h = history cs (step c s) (note c s h)

  abbrev pub no_history : QueryWriter → History
  no_history w = record {
    first = w.state.next_block_id;
    previous = w.last_block_hash;
    accepted = [];
    indexed = [];
  }

  -- The accepted blocks are a chain: the indexed ones, whose count and last hash the writer holds, and
  -- then the pending ones.
  pub record Follows (h : History) (w : QueryWriter) : Type 0 where
    pub chained : IsChain hash_slow h.first h.previous h.accepted
    pub whole : h.accepted ≡ h.indexed ++ w.pending
    pub counted : w.state.next_block_id ≡ h.first + length h.indexed
    pub hashed : w.last_block_hash ≡ hash_before hash_slow h.previous h.indexed

  Follows-IsValid : (h : History) (w : QueryWriter) → Follows h w → IsValid hash_slow w
  Follows-IsValid h w f =
      let chain =
        IsChain-append hash_slow h.first h.previous h.indexed w.pending
          (subst (IsChain hash_slow h.first h.previous) f.whole f.chained) in
      subst (λ p. IsChain hash_slow w.state.next_block_id p w.pending) (sym f.hashed)
        (subst (λ n. IsChain hash_slow n (hash_before hash_slow h.previous h.indexed) w.pending)
          (sym f.counted) chain)

  -- The writer after a block that it accepts.
  note_append-Follows :
      (block : QueryWriterBlock) (h : History) (w : QueryWriter) (tables : Tables)
      (r : Result QueryError QueryWriter)
      → append hash_slow block w ≡ r
      → Follows h w
      → Follows (note_append block r h) (settle w tables r).0
  note_append-Follows block h w tables (err e) same f = f
  note_append-Follows block h w tables (ok after) same f =
      let (a, grown) = append_ok hash_slow block w after same in
      let before : hash_before hash_slow w.last_block_hash w.pending
          ≡ hash_before hash_slow h.previous h.accepted =
        ap (λ p. hash_before hash_slow p w.pending) f.hashed
        ∙ sym (hash_before-append hash_slow h.previous h.indexed w.pending)
        ∙ ap (hash_before hash_slow h.previous) (sym f.whole) in
      let count : length h.accepted ≡ length h.indexed + length w.pending =
        ap length f.whole ∙ length-append h.indexed w.pending in
      subst (Follows (record h { accepted = h.accepted ++ (block ∷ []) })) (sym grown) (record {
        chained =
            IsChain-snoc hash_slow h.first h.previous h.accepted block f.chained
              (omega (arith, a.0, count, f.counted))
              (subst (λ p. Extends hash_slow p block) before a.2);
        whole =
            ap (λ bs. bs ++ (block ∷ [])) f.whole ∙ append_assoc h.indexed w.pending (block ∷ []);
        counted = f.counted;
        hashed = f.hashed;
      })

  start_at_ok :
      (n : ℕ) (state : StateIndex) (hash : Option ℕ) (pending : List QueryWriterBlock)
      (after : QueryWriter)
      → start_at n (record { state = state; last_block_hash = hash; pending = pending }) ≡ ok after
      → (state.next_block_id ≡ 0)
        × (pending ≡ [])
        × (after ≡ record {
          state = record state { indexed_start = some n; next_block_id = n };
          last_block_hash = hash;
          pending = pending;
        })
  unfolding start_at
  start_at_ok n state hash [] after e = elim (Option-cases state.indexed_start) [
    | inl unset ↦ elim (==-cases state.next_block_id 0) [
      | inl (zero_id, t) ↦ (zero_id, refl, sym (ok-inj (rw (unset, t) at e)))
      | inr (more, t) ↦ absurd (ground (arith, unset, t))
    ]
    | inr (start, set) ↦ absurd (ground (arith, set))
  ]
  start_at_ok n state hash (b ∷ bs) after e = absurd (ground arith)

  -- Nothing was indexed before a start.
  empty_of_length : (blocks : List QueryWriterBlock) → length blocks ≡ 0 → blocks ≡ []
  empty_of_length [] e = refl
  empty_of_length (b ∷ bs) e = absurd (omega arith)

  note_start-Follows :
      (n : ℕ) (h : History) (w : QueryWriter) (tables : Tables) (r : Result QueryError QueryWriter)
      → start_at n w ≡ r
      → Follows h w
      → Follows (note_start n r h) (settle w tables r).0
  note_start-Follows n h w tables (err e) same f = f
  note_start-Follows n h w tables (ok after) same f =
      let (zero_id, none_pending, started) =
        start_at_ok n w.state w.last_block_hash w.pending after same in
      let none_indexed : h.indexed ≡ [] =
        empty_of_length h.indexed (omega (arith, zero_id, f.counted)) in
      subst (Follows (record h { first = n; accepted = []; indexed = [] })) (sym started) (record {
        chained = tt;
        whole = sym none_pending;
        counted = omega arith;
        hashed = f.hashed ∙ ap (hash_before hash_slow h.previous) none_indexed;
      })

  note_flush-prepared :
      (h : History) (w : QueryWriter) (batch : QueryWriterFlushBatch)
      (r : Result QueryError (Unit {0}))
      → prepare_flush w ≡ ok (some batch)
      → Follows h w
      → Follows (note_flush r h) (after_flush hash_slow w batch r)
  note_flush-prepared h w batch (err e) p f =
      subst (Follows h) (sym (after_flush_err hash_slow w batch (err e) e p refl)) f
  note_flush-prepared h w batch (ok u) p f =
      let (same, ranges, start, next) = prepare_flush-Prepared w batch p in
      let (b, found, number) = after_last_ok w.pending batch.state.next_block_id next in
      let last =
        last_number hash_slow w.state.next_block_id w.last_block_hash w.pending b
          (Follows-IsValid h w f) found in
      let count : length h.accepted ≡ length h.indexed + length w.pending =
        ap length f.whole ∙ length-append h.indexed w.pending in
      record {
        chained = f.chained;
        whole = sym (append-nil h.accepted);
        counted = omega (arith, number, last, count, f.counted);
        hashed =
            last_hash-hash_before hash_slow w.last_block_hash batch.blocks b (ap last? same ∙ found)
            ∙ ap (hash_before hash_slow w.last_block_hash) same
            ∙ ap (λ p. hash_before hash_slow p w.pending) f.hashed
            ∙ sym (hash_before-append hash_slow h.previous h.indexed w.pending)
            ∙ ap (hash_before hash_slow h.previous) (sym f.whole);
      }

  note_flush-Follows :
      (fault : Option (Stage × QueryError)) (h : History) (w : QueryWriter) (tables : Tables)
      → Follows h w
      → Follows
          (note_flush (flush hash_slow fault w tables).1 h)
          (flush hash_slow fault w tables).0.0
  note_flush-Follows fault h w tables f = elim (Result-cases (prepare_flush w)) [
    | inr (d, p) ↦ rw (flush_refused hash_slow fault w tables d p) f
    | inl (none, p) ↦ rw (flush-none hash_slow fault w tables p) (record {
      chained = f.chained;
      whole = sym (append-nil h.accepted) ∙ ap (λ ps. h.accepted ++ ps) (sym (nothing p));
      counted = subst (λ bs. w.state.next_block_id ≡ h.first + length bs) (all_indexed p) f.counted;
      hashed = f.hashed ∙ ap (hash_before hash_slow h.previous) (all_indexed p);
    })
    | inl (some batch, p) ↦
        rw (flush-some hash_slow fault w tables batch p)
          (note_flush-prepared h w batch (flush_batch hash_slow fault batch tables).1 p f)
  ]
    where
      nothing : prepare_flush w ≡ ok none → w.pending ≡ []
      nothing p = prepare_flush-none w.state w.last_block_hash w.pending p

      all_indexed : prepare_flush w ≡ ok none → h.indexed ≡ h.accepted
      all_indexed p = sym (f.whole ∙ ap (λ ps. h.indexed ++ ps) (nothing p) ∙ append-nil h.indexed)

  note-Follows :
      (c : Command) (h : History) (w : QueryWriter) (tables : Tables)
      → Follows h w
      → Follows (note c (w, tables) h) (step c (w, tables)).0
  note-Follows (Command.append_block block) h w tables f =
      note_append-Follows block h w tables (append hash_slow block w) refl f
  note-Follows (Command.start_writer n) h w tables f =
      note_start-Follows n h w tables (start_at n w) refl f
  note-Follows (Command.flush_writer fault) h w tables f = note_flush-Follows fault h w tables f

  history-Follows :
      (cs : List Command) (h : History) (w : QueryWriter) (tables : Tables)
      → Follows h w
      → Follows (history cs (w, tables) h) (run cs (w, tables)).0
  history-Follows [] h w tables f = f
  history-Follows (c ∷ cs) h w tables f =
      let next = step c (w, tables) in
      history-Follows cs (note c (w, tables) h) next.0 next.1 (note-Follows c h w tables f)

  -- After any sequence of appends, starts and flushes, failed ones included, of a writer that was opened,
  -- the blocks whose append succeeded since the opening, or since the last start that succeeded, are
  -- those that a flush has indexed followed by the pending ones. They count up from the first number,
  -- each the child of the one before, and the state's next number and the last hash that the writer
  -- keeps are those behind the indexed ones; so the pending blocks extend what is indexed.
  pub run-Follows :
      (cs : List Command) (tables : Tables) (w : QueryWriter)
      → open_writer tables ≡ ok w
      → Follows (history cs (w, tables) (no_history w)) (run cs (w, tables)).0
        × IsValid hash_slow (run cs (w, tables)).0
  unfolding open_writer
  run-Follows cs tables w e =
      let (state, e1, f1) = >>=-eq-ok (read_state tables) _ e in
      let (hash, e2, f2) = >>=-eq-ok (read_last_hash tables (last_block_id state)) _ f1 in
      let f = history-Follows cs (no_history w) w tables (
        subst (λ x. Follows (no_history x) x) (ok-inj f2)
          (record { chained = tt; whole = refl; counted = omega arith; hashed = refl })) in
      (f, Follows-IsValid (history cs (w, tables) (no_history w)) (run cs (w, tables)).0 f)
