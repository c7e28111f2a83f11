-- ===== src/Rpc/BlockBuffer/Invariant.antt =====
-- What always holds of the buffer's maps.
use monad_services.Prelude.{
  ℕ, suc, ◌≤◌, ◌≡◌, ◌≢◌, refl, sym, ap, ◌∙◌, inl, inr, true, none, some, List, [], ◌∷◌, map, length,
  get_elem?, contains, ltb, Bool-cases, Option-cases, arith,
}
use monad_services.Prelude.Map.{
  lookup, remove, lookup-remove-some, lookup-remove_all-some, lookup-remove_ne, lookup-remove_self,
}
use monad_services.Rpc.BlockBuffer.Transactions.{Paired, contains_of_get}
use monad_services.Rpc.BlockBuffer.{
  Header, Transaction, TransactionReceipt, Block, BlockTransactions, BlockBuffer, BlockBufferTxLoc,
  EventServerEvent, tx_hashes, forget_block, evict_block, evict,
}

-- An event as the execution engine sends them: a hash belongs to one height, and a receipt to the
-- transaction beside it.
abbrev pub WellFormed : (ℕ → ℕ) → EventServerEvent → Type 0
WellFormed height_of EventServerEvent.gap = Unit
WellFormed height_of (EventServerEvent.block commit_state header transactions) =
    (header.number ≡ height_of header.hash) × Paired transactions

abbrev pub TxAt : Block → ℕ → ℕ → Type 0
TxAt block tx_idx tx_hash = get_elem? (tx_hashes block.transactions) tx_idx ≡ some tx_hash

-- The maps agree with one another, and every block's height stands in `heights`.
pub record Indexed (height_of : ℕ → ℕ) (heights : List ℕ) (b : BlockBuffer) : Type 0 where
  pub keyed :
      (h : ℕ) (block : Block)
      → lookup h b.block_by_height ≡ some block
      → (block.header.number ≡ h) × (height_of block.header.hash ≡ h)
  pub listed :
      (h : ℕ) (block : Block) → lookup h b.block_by_height ≡ some block → contains h heights ≡ true
  pub hashed :
      (x h : ℕ)
      → lookup x b.block_height_by_hash ≡ some h
      → (block : Block) × (lookup h b.block_by_height ≡ some block) × (block.header.hash ≡ x)
  pub findable :
      (h : ℕ) (block : Block)
      → lookup h b.block_by_height ≡ some block
      → lookup block.header.hash b.block_height_by_hash ≡ some h
  pub located :
      (x : ℕ) (loc : BlockBufferTxLoc) (r : TransactionReceipt)
      → lookup x b.tx_by_hash ≡ some (loc, r)
      → (block : Block) × (lookup loc.block_height b.block_by_height ≡ some block)
        × TxAt block loc.tx_idx x
        × (r.transaction_hash ≡ x)

pub record IsValid (height_of : ℕ → ℕ) (b : BlockBuffer) : Type 0 where
  pub bounded : length b.block_heights ≤ b.block_heights_capacity
  pub indexed : Indexed height_of b.block_heights b

-- The block that an event describes.
abbrev pub block_of : Header → List (Transaction × TransactionReceipt) → Block
block_of header ts = record {
  header = header;
  transactions = BlockTransactions.full (map (λ t. t.0) ts);
}

module _ (height_of : ℕ → ℕ) where
  -- A block of another height hashes otherwise.
  hash_apart :
      {hs : List ℕ} (b : BlockBuffer)
      → Indexed height_of hs b
      → (h k : ℕ) (e f : Block) → lookup h b.block_by_height ≡ some e
      → lookup k b.block_by_height ≡ some f
      → h ≢ k
      → e.header.hash ≢ f.header.hash
  hash_apart b v h k e f eh fk apart same =
      apart (sym ((v.keyed h e eh).1) ∙ ap height_of same ∙ (v.keyed k f fk).1)

  forget-Indexed :
      (h : ℕ) (hs : List ℕ) (b : BlockBuffer) (e : Block)
      → Indexed height_of (h ∷ hs) b
      → lookup h b.block_by_height ≡ some e
      → Indexed height_of hs
          (forget_block e (record b { block_by_height = remove h b.block_by_height }))
  unfolding forget_block
  forget-Indexed h hs b e v found = record {
    keyed = λ k f fk. v.keyed k f ((lookup-remove-some h k f _ fk).1);
    listed = λ k f fk.
        let (apart, old) = lookup-remove-some h k f _ fk in
        let l = v.listed k f old in ground (arith, l);
    hashed = λ x k xk.
        let (other, old) = lookup-remove-some e.header.hash x k _ xk in
        let (f, fk, fx) = v.hashed x k old in
        (f, lookup-remove_ne h k _ (λ same. ground (arith, same)) ∙ fk, fx);
    findable = λ k f fk.
        let (apart, old) = lookup-remove-some h k f _ fk in
        lookup-remove_ne e.header.hash f.header.hash _ (hash_apart b v h k e f found old apart)
        ∙ v.findable k f old;
    located = λ x loc r xl.
        let (away, old) = lookup-remove_all-some (tx_hashes e.transactions) x (loc, r) _ xl in
        let (f, fk, at, same) = v.located x loc r old in
        let c = contains_of_get (tx_hashes f.transactions) loc.tx_idx x at in
        (f, lookup-remove_ne h loc.block_height _ (λ p. ground (arith, p, c)) ∙ fk, at, same);
  }

  -- The block at `h`, if any, is gone, and the maps still agree.
  pub evict_block-Indexed :
      (h : ℕ) (hs : List ℕ) (b : BlockBuffer)
      → Indexed height_of (h ∷ hs) b
      → Indexed height_of hs (evict_block h b) × (lookup h (evict_block h b).block_by_height ≡ none)
  unfolding evict_block
  evict_block-Indexed h hs b v = elim (Option-cases (lookup h b.block_by_height)) [
    | inl missing ↦
        rw (missing, evict_block)
          (
            record {
              keyed = v.keyed;
              listed = λ k f fk. let l = v.listed k f fk in ground (arith, l);
              hashed = v.hashed;
              findable = v.findable;
              located = v.located;
            },
            missing,
          )
    | inr (e, found) ↦
        rw (found, evict_block)
          (forget-Indexed h hs b e v found, lookup-remove_self h b.block_by_height)
  ]

  pub evict_block-capacity :
      (h : ℕ) (b : BlockBuffer)
      → (evict_block h b).block_heights_capacity ≡ b.block_heights_capacity
  unfolding evict_block
  evict_block-capacity h b = ground arith

  -- The ring is no part of `Indexed`.
  with_heights :
      (hs ring : List ℕ) (b : BlockBuffer)
      → Indexed height_of hs b
      → Indexed height_of hs (record b { block_heights = ring })
  with_heights hs ring b v = record {
    keyed = v.keyed;
    listed = v.listed;
    hashed = v.hashed;
    findable = v.findable;
    located = v.located;
  }

  pub evict-Indexed :
      (hs : List ℕ) (b : BlockBuffer)
      → Indexed height_of hs b
      → Indexed height_of (evict hs b).block_heights (evict hs b)
        × (length (evict hs b).block_heights ≤ b.block_heights_capacity)
        × ((evict hs b).block_heights_capacity ≡ b.block_heights_capacity)
  unfolding evict
  evict-Indexed [] b v = (with_heights [] [] b v, omega arith, refl)
  evict-Indexed (h ∷ hs) b v = elim (Bool-cases (ltb b.block_heights_capacity (suc (length hs)))) [
    | inl over ↦
        let (ih, short, kept) =
          evict-Indexed hs (evict_block h b) ((evict_block-Indexed h hs b v).0) in
        let same = evict_block-capacity h b in rw over (ih, omega (arith, same), kept ∙ same)
    | inr fits ↦ rw fits (with_heights (h ∷ hs) (h ∷ hs) b v, ground arith, refl)
  ]
