-- ===== src/Rpc/BlockBuffer/Insert.antt =====
-- An insertion keeps the buffer's maps in agreement.
use monad_services.Prelude.{
  ℕ, ◌≡◌, ◌≢◌, ap, ◌∙◌, ◌⊎◌, inl, inr, none, some, List, [], ◌∷◌, ◌++◌, contains-append, All, ◌==◌,
  if◌then◌else◌, Bool-cases, Option-cases, ==-cases, arith,
}
use monad_services.Prelude.Map
use monad_services.Prelude.Map.{
  lookup, remove, remove_all, contains_key, lookup-insert, lookup-remove, lookup-remove_all,
  lookup-remove-some, lookup-remove_all-some, lookup-remove_ne, lookup-remove_self,
  lookup-insert-some, lookup-insert_ne, lookup-insert_self,
}
use monad_services.Rpc.BlockBuffer.Invariant.{
  WellFormed, Indexed, IsValid, block_of, evict_block-Indexed, evict-Indexed,
}
use monad_services.Rpc.BlockBuffer.Transactions.{Paired, insert_txs-some}
use monad_services.Rpc.BlockBuffer.{
  Header, Transaction, TransactionReceipt, Block, BlockBuffer, EventServerEvent,
  BlockBufferBlockStates, bump_states, new, insert_txs, replace_block, evict_block, add_block,
  store_block, insert, returns_early,
}

-- `add_block` is a clean-up of the height followed by insertions.
module _ (b : BlockBuffer) (header : Header) (ts : List (Transaction × TransactionReceipt)) where
  added_height :
      (k : ℕ)
      → lookup k (add_block header ts b).block_by_height ≡ (
          if header.number == k
          then some (block_of header ts)
          else lookup k (evict_block header.number b).block_by_height)
  unfolding add_block evict_block
  added_height k = elim (Option-cases (lookup header.number b.block_by_height)) [
    | inl missing ↦
        rw (missing, evict_block, replace_block)
          (lookup-insert header.number k (block_of header ts) b.block_by_height)
    | inr (old, found) ↦
        rw (found, evict_block, replace_block)
          (ground (
            arith,
            lookup-insert header.number k (block_of header ts) b.block_by_height,
            lookup-remove header.number k b.block_by_height,
          ))
  ]

  added_hash :
      (add_block header ts b).block_height_by_hash
      ≡ Map.insert header.hash header.number (evict_block header.number b).block_height_by_hash
  unfolding add_block evict_block
  added_hash = ground arith

  added_txs :
      (add_block header ts b).tx_by_hash
      ≡ insert_txs header.number 0 ts (evict_block header.number b).tx_by_hash
  unfolding add_block evict_block
  added_txs = ground arith

  added_some :
      (k : ℕ) (f : Block)
      → lookup k (add_block header ts b).block_by_height ≡ some f
      → (header.number ≡ k) × (f ≡ block_of header ts)
        ⊎ (header.number ≢ k) × (lookup k (evict_block header.number b).block_by_height ≡ some f)
  added_some k f e = elim (==-cases header.number k) [
    | inl (p, t) ↦ inl (p, ground (arith, added_height k))
    | inr (p, t) ↦ inr (p, ground (arith, added_height k))
  ]

  pub added_new :
      lookup header.number (add_block header ts b).block_by_height ≡ some (block_of header ts)
  added_new = ground (arith, added_height header.number)

  pub added_old :
      (k : ℕ)
      → header.number ≢ k
      → lookup k (add_block header ts b).block_by_height
        ≡ lookup k (evict_block header.number b).block_by_height
  added_old k h = ground (arith, added_height k)

module _ (height_of : ℕ → ℕ) where
  weaken :
      (h : ℕ) (hs : List ℕ) (b : BlockBuffer)
      → Indexed height_of hs b
      → Indexed height_of (h ∷ hs) b
  weaken h hs b v = record {
    keyed = v.keyed;
    listed = λ k f fk. let l = v.listed k f fk in ground (arith, l);
    hashed = v.hashed;
    findable = v.findable;
    located = v.located;
  }

  module _ (hs : List ℕ) (b : BlockBuffer) (header : Header)
      (ts : List (Transaction × TransactionReceipt)) where
    -- From the maps without the height to those with its new block.
    add_cleaned :
        Indexed height_of hs (evict_block header.number b)
        → lookup header.number (evict_block header.number b).block_by_height ≡ none
        → header.number ≡ height_of header.hash
        → Paired ts
        → Indexed height_of (hs ++ (header.number ∷ [])) (add_block header ts b)
    add_cleaned v gone wh wt = record {
      keyed = λ k f fk. elim (added_some b header ts k f fk) [
        | inl (here, e) ↦ (ground arith, ground arith)
        | inr (apart, old) ↦ v.keyed k f old
      ];
      listed = λ k f fk. elim (added_some b header ts k f fk) [
        | inl (here, e) ↦ ground (arith, contains-append k hs (header.number ∷ []))
        | inr (apart, old) ↦
            let l = v.listed k f old in ground (arith, l, contains-append k hs (header.number ∷ []))
      ];
      hashed = λ x k xk.
          elim (lookup-insert-some header.hash x header.number k _
            (rw (added_hash b header ts) at xk)) [
              | inl (p, q) ↦ (block_of header ts, rw (← q) (added_new b header ts), p)
              | inr (p, old) ↦
                  let (f, fk, fx) = v.hashed x k old in
                  (f, added_old b header ts k (λ q. ground (arith, q)) ∙ fk, fx)
            ];
      findable = λ k f fk. rw (added_hash b header ts) (elim (added_some b header ts k f fk) [
        | inl (here, e) ↦ rw (e, here) (lookup-insert_self header.hash k _)
        | inr (apart, old) ↦
            let hk = (v.keyed k f old).1 in
            lookup-insert_ne header.hash f.header.hash header.number _
              (λ same. apart (wh ∙ ap height_of same ∙ hk))
            ∙ v.findable k f old
      ]);
      located = λ x loc r xl.
          elim (insert_txs-some header.number 0 x loc r ts _ wt
            (rw (added_txs b header ts) at xl)) [
              | inl old ↦
                  let (f, fk, at, same) = v.located x loc r old in
                  (
                    f,
                    added_old b header ts loc.block_height (λ q. ground (arith, q)) ∙ fk,
                    at,
                    same,
                  )
              | inr (j, hj, ij, place, same) ↦
                  let i : loc.tx_idx ≡ j = omega arith in
                  (block_of header ts, rw hj (added_new b header ts), rw i place, same)
            ];
    }

    pub add_block-Indexed :
        Indexed height_of hs b
        → header.number ≡ height_of header.hash
        → Paired ts
        → Indexed height_of (hs ++ (header.number ∷ [])) (add_block header ts b)
    add_block-Indexed v wh wt =
        let (cleaned, gone) =
          evict_block-Indexed height_of header.number hs b (weaken header.number hs b v) in
        add_cleaned cleaned gone wh wt

  pub add_block-capacity :
      (b : BlockBuffer) (header : Header) (ts : List (Transaction × TransactionReceipt))
      → ((add_block header ts b).block_heights_capacity ≡ b.block_heights_capacity)
  unfolding add_block
  add_block-capacity b header ts = ground arith

  store_block-IsValid :
      (b : BlockBuffer) (header : Header) (ts : List (Transaction × TransactionReceipt))
      → IsValid height_of b
      → header.number ≡ height_of header.hash
      → Paired ts
      → IsValid height_of (store_block header ts b)
  unfolding store_block
  store_block-IsValid b header ts v wh wt =
      let added = add_block-Indexed b.block_heights b header ts v.indexed wh wt in
      let (kept, short, same) =
        evict-Indexed height_of (b.block_heights ++ (header.number ∷ [])) (add_block header ts b)
          added in
      record { bounded = omega (arith, short, same); indexed = kept }

  -- Commit heights are no part of the invariant.
  with_states :
      (s : BlockBufferBlockStates) (b : BlockBuffer)
      → IsValid height_of b
      → IsValid height_of (record b { block_states = s })
  with_states s b v =
      let i = v.indexed in
      record {
        bounded = v.bounded;
        indexed = record {
          keyed = i.keyed;
          listed = i.listed;
          hashed = i.hashed;
          findable = i.findable;
          located = i.located;
        };
      }

  pub insert-IsValid :
      (b : BlockBuffer) (e : EventServerEvent)
      → IsValid height_of b
      → WellFormed height_of e
      → IsValid height_of (insert b e)
  unfolding insert
  insert-IsValid b EventServerEvent.gap v w = v
  insert-IsValid b (EventServerEvent.block c header ts) v w =
      let bumped : BlockBuffer = record b {
        block_states = bump_states c header.number b.block_states;
      } in
      let vb = with_states (bump_states c header.number b.block_states) b v in
      elim (Bool-cases (returns_early c (contains_key header.hash b.block_height_by_hash))) [
        | inl back ↦ rw back vb
        | inr on ↦ rw on (store_block-IsValid bumped header ts vb w.0 w.1)
      ]

abbrev pub insert_all : List EventServerEvent → BlockBuffer → BlockBuffer
insert_all [] b = b
insert_all (e ∷ es) b = insert_all es (insert b e)

new-IsValid : (height_of : ℕ → ℕ) (capacity : ℕ) → IsValid height_of (new capacity)
unfolding new lookup
new-IsValid height_of capacity = record {
  bounded = omega arith;
  indexed = record {
    keyed = λ h f e. absurd (ground arith);
    listed = λ h f e. absurd (ground arith);
    hashed = λ x h e. absurd (ground arith);
    findable = λ h f e. absurd (ground arith);
    located = λ x l r e. absurd (ground arith);
  };
}

insert_all-IsValid :
    (height_of : ℕ → ℕ) (es : List EventServerEvent) (b : BlockBuffer)
    → IsValid height_of b
    → All (WellFormed height_of) es
    → IsValid height_of (insert_all es b)
insert_all-IsValid height_of [] b v w = v
insert_all-IsValid height_of (e ∷ es) b v w =
    insert_all-IsValid height_of es (insert b e) (insert-IsValid height_of b e v w.0) w.1

-- Whatever events come, in whatever order (a hash belonging to one height and a receipt to its
-- transaction), the ring never holds more heights than the capacity, every buffered block stands
-- under its own height, its height in the ring, and its hash in the map of hashes; an entry of the
-- map of hashes leads to the block with that hash, and one of the map of transactions to a block
-- that has that transaction at that index.
pub insert_all-new :
    (height_of : ℕ → ℕ) (es : List EventServerEvent) (capacity : ℕ)
    → All (WellFormed height_of) es
    → IsValid height_of (insert_all es (new capacity))
insert_all-new height_of es capacity w =
    insert_all-IsValid height_of es (new capacity) (new-IsValid height_of capacity) w
