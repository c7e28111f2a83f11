-- ===== src/Rpc/BlockBuffer/Reads.antt =====
-- What readers find in a buffer that the events have filled.
use monad_services.Prelude.{
  ℕ, zero, suc, ◌<◌, ◌≡◌, refl, inl, inr, ◌↔◌, false, none, some, List, [], ◌∷◌, ◌++◌, map, length,
  length-append, get_elem?, contains, ◌==◌, if◌then◌else◌, Option-cases, ==-cases, arith, ◌>>=?◌,
  some-inj,
}
use monad_services.Prelude.Map.{lookup, lookup-remove}
use monad_services.Rpc.BlockBuffer.Invariant.{WellFormed, IsValid, block_of, evict_block-capacity}
use monad_services.Rpc.BlockBuffer.Insert.{insert-IsValid, add_block-capacity, added_new}
use monad_services.Rpc.BlockBuffer.{
  Header, Transaction, TransactionReceipt, Block, BlockTransactions, BlockBuffer, EventServerEvent,
  BlockCommitState, bump_states, tx_hashes, evict_block, evict, add_block, store_block, insert,
}
use monad_services.Rpc.BlockBuffer.View.{
  get_block_by_height, get_block_by_hash, get_receipt_by_tx_hash, get_transaction_by_hash,
  full_transactions,
}

get_elem?-hashes :
    (txs : List Transaction) (i x : ℕ)
    → get_elem? (map (λ tx. tx.tx_hash) txs) i ≡ some x
    → (tx : Transaction) × (get_elem? txs i ≡ some tx) × (tx.tx_hash ≡ x)
get_elem?-hashes [] i x e = absurd (ground arith)
get_elem?-hashes (tx ∷ txs) zero x e = (tx, refl, some-inj e)
get_elem?-hashes (tx ∷ txs) (suc i) x e = get_elem?-hashes txs i x e

get_elem?-tx_hashes :
    (ts : BlockTransactions) (i x : ℕ)
    → get_elem? (tx_hashes ts) i ≡ some x
    → (tx : Transaction) × ((full_transactions ts >>=? λ txs. get_elem? txs i) ≡ some tx)
      × (tx.tx_hash ≡ x)
unfolding full_transactions
get_elem?-tx_hashes (BlockTransactions.full txs) i x e = get_elem?-hashes txs i x e
get_elem?-tx_hashes (BlockTransactions.hashes hs) i x e = absurd (ground arith)
get_elem?-tx_hashes BlockTransactions.uncle i x e = absurd (ground arith)

module _ (height_of : ℕ → ℕ) (b : BlockBuffer) (v : IsValid height_of b) where
  -- In a valid buffer a look-up by hash returns exactly the buffered block that has the hash and
  -- stands under its own height.
  pub get_block_by_hash_iff :
      (x : ℕ) (found : Block)
      → (get_block_by_hash b x ≡ some found)
        ↔ ((found.header.hash ≡ x) × (get_block_by_height b found.header.number ≡ some found))
  unfolding get_block_by_hash get_block_by_height
  get_block_by_hash_iff x found = (there x found, back x found)
    where
      there :
          (x : ℕ) (found : Block)
          → (lookup x b.block_height_by_hash >>=? λ h. lookup h b.block_by_height) ≡ some found
          → (found.header.hash ≡ x) × (lookup found.header.number b.block_by_height ≡ some found)
      there x found e = elim (Option-cases (lookup x b.block_height_by_hash)) [
        | inl missing ↦ absurd (ground (arith, missing))
        | inr (h, xh) ↦
            let (f, fh, fx) = v.indexed.hashed x h xh in
            let same : f ≡ found = ground arith in
            let hn = (v.indexed.keyed h f fh).0 in (ground arith, ground (arith, fh, hn))
      ]

      back :
          (x : ℕ) (found : Block)
          → (found.header.hash ≡ x) × (lookup found.header.number b.block_by_height ≡ some found)
          → (lookup x b.block_height_by_hash >>=? λ h. lookup h b.block_by_height) ≡ some found
      back x found (e, at_height) =
          let xh = v.indexed.findable found.header.number found at_height in
          rw (rw e at xh) at_height

  -- In a valid buffer, a transaction whose receipt is found is found too, and both have the hash.
  pub get_transaction_by_hash_found :
      (x : ℕ) (r : TransactionReceipt)
      → get_receipt_by_tx_hash b x ≡ some r
      → (tx : Transaction) × (get_transaction_by_hash b x ≡ some tx)
        × (tx.tx_hash ≡ x)
        × (r.transaction_hash ≡ x)
  unfolding get_receipt_by_tx_hash get_transaction_by_hash
  get_transaction_by_hash_found x r e = elim (Option-cases (lookup x b.tx_by_hash)) [
    | inl missing ↦ absurd (ground (arith, missing))
    | inr ((loc, s), here) ↦
        let (f, fh, place, same) = v.indexed.located x loc s here in
        let (tx, got, hash) = get_elem?-tx_hashes f.transactions loc.tx_idx x place in
        (tx, rw here (rw fh got), hash, ground arith)
  ]

lookup-evict_block :
    (h n : ℕ) (b : BlockBuffer)
    → lookup n (evict_block h b).block_by_height
      ≡ (if h == n then none else lookup n b.block_by_height)
unfolding evict_block
lookup-evict_block h n b = elim (Option-cases (lookup h b.block_by_height)) [
  | inl missing ↦
      rw (missing, evict_block)
        (elim (==-cases h n) [ inl (p, t) ↦ ground (arith, missing) | inr (p, t) ↦ ground arith ])
  | inr (f, found) ↦ rw (found, evict_block) (lookup-remove h n b.block_by_height)
]

evict_keeps :
    (hs : List ℕ) (n : ℕ) (b : BlockBuffer) (f : Block)
    → contains n hs ≡ false
    → 0 < b.block_heights_capacity
    → lookup n b.block_by_height ≡ some f
    → lookup n (evict (hs ++ (n ∷ [])) b).block_by_height ≡ some f
unfolding evict
evict_keeps [] n b f out room e = ground arith
evict_keeps (h ∷ hs) n b f out room e =
    let kept : lookup n (evict_block h b).block_by_height ≡ some f =
      ground (arith, lookup-evict_block h n b) in
    let same = evict_block-capacity (λ x. x) h b in
    let ih = evict_keeps hs n (evict_block h b) f (ground arith) (omega (arith, same)) kept in
    ground (arith, ih)

evict_gone :
    (hs : List ℕ) (n : ℕ) (b : BlockBuffer)
    → lookup n b.block_by_height ≡ none
    → lookup n (evict hs b).block_by_height ≡ none
unfolding evict
evict_gone [] n b e = e
evict_gone (h ∷ hs) n b e =
    let ih = evict_gone hs n (evict_block h b) (ground (arith, lookup-evict_block h n b)) in
    ground (arith, ih)

evict_over :
    (h : ℕ) (hs : List ℕ) (b : BlockBuffer)
    → b.block_heights_capacity < suc (length hs)
    → evict (h ∷ hs) b ≡ evict hs (evict_block h b)
unfolding evict
evict_over h hs b over = ground arith

-- A proposed block whose height is not in the ring can be read by its hash as soon as it has been
-- inserted into a valid buffer, if the event is well formed and the ring has a capacity.
pub get_block_by_hash-insert :
    (height_of : ℕ → ℕ) (b : BlockBuffer) (header : Header)
    (ts : List (Transaction × TransactionReceipt))
    → IsValid height_of b
    → WellFormed height_of (EventServerEvent.block BlockCommitState.proposed header ts)
    → 0 < b.block_heights_capacity
    → contains header.number b.block_heights ≡ false
    → get_block_by_hash
        (insert b (EventServerEvent.block BlockCommitState.proposed header ts))
        header.hash
      ≡ some (block_of header ts)
unfolding get_block_by_hash
get_block_by_hash-insert height_of b header ts v w room out =
    let e = EventServerEvent.block BlockCommitState.proposed header ts in
    let kept = insert_keeps b header ts room out in
    let after = insert-IsValid height_of b e v w in
    rw (after.indexed.findable header.number (block_of header ts) kept) kept
  where
    insert_keeps :
        (b : BlockBuffer) (header : Header) (ts : List (Transaction × TransactionReceipt))
        → 0 < b.block_heights_capacity
        → contains header.number b.block_heights ≡ false
        → lookup header.number
            (insert b (EventServerEvent.block BlockCommitState.proposed header ts)).block_by_height
          ≡ some (block_of header ts)
    insert_keeps b header ts room out =
        let bumped : BlockBuffer = record b {
          block_states = bump_states BlockCommitState.proposed header.number b.block_states;
        } in
        let same = add_block-capacity height_of bumped header ts in
        unfold insert store_block in
        evict_keeps b.block_heights header.number (add_block header ts bumped) (block_of header ts)
          out (omega (arith, same)) (added_new bumped header ts)

-- A block proposed again at the oldest height of a full ring is not kept: making room for the
-- second entry of its height removes the block that has just been stored.
pub get_block_by_height-insert_full :
    (b : BlockBuffer) (header : Header) (ts : List (Transaction × TransactionReceipt))
    (newer : List ℕ)
    → b.block_heights ≡ header.number ∷ newer
    → b.block_heights_capacity ≡ suc (length newer)
    → get_block_by_height
        (insert b (EventServerEvent.block BlockCommitState.proposed header ts))
        header.number
      ≡ none
unfolding get_block_by_height insert store_block
get_block_by_height-insert_full b header ts newer ring full =
    let bumped : BlockBuffer = record b {
      block_states = bump_states BlockCommitState.proposed header.number b.block_states;
    } in
    let added = add_block header ts bumped in
    let same = add_block-capacity (λ x. x) bumped header ts in
    let longer = length-append newer (header.number ∷ []) in
    let gone =
      evict_gone (newer ++ (header.number ∷ [])) header.number (evict_block header.number added)
        (ground (arith, lookup-evict_block header.number header.number added)) in
    let over = evict_over header.number (newer ++ (header.number ∷ [])) added (ground arith) in
    ground (arith, ring, over, gone)
