-- ===== src/Rpc/BlockBuffer.antt =====
-- crates/monad-rpc/src/data/buffer/mod.rs: the blocks of the newest heights, kept as they are
-- proposed. Heights and hashes are numbers, and each `DashMap` is an association list. A header, a
-- transaction and a receipt are kept by the fields that the buffer reads; `body` stands for the
-- rest of each.
pub mod Transactions
pub mod View
pub mod Invariant
pub mod Insert
pub mod Reads
pub mod Heights
pub mod Logs
mod Runs
use monad_services.Prelude.{
  ℕ, zero, suc, ◌+◌, ◌≤◌, ◌<◌, max, Bool, true, false, Option, none, some, List, [], ◌∷◌, ◌++◌, map,
  length, ltb, if◌then◌else◌,
}
use monad_services.Prelude.Map
use monad_services.Prelude.Map.{lookup, remove, remove_all, contains_key}

pub data BlockCommitState : Type 0 where
  proposed voted finalized verified : BlockCommitState

pub record Header : Type 0 where
  pub number : ℕ
  pub hash : ℕ
  pub logs_bloom : ℕ
  pub body : ℕ

pub record Transaction : Type 0 where
  pub tx_hash : ℕ
  pub body : ℕ

-- The `log_index` of each of the receipt's logs is in `logs`.
pub record TransactionReceipt : Type 0 where
  pub transaction_hash : ℕ
  pub logs : List (Option ℕ)
  pub body : ℕ

-- `BlockTransactions` of alloy, and its `Block`.
pub data BlockTransactions : Type 0 where
  full : List Transaction → BlockTransactions
  hashes : List ℕ → BlockTransactions
  uncle : BlockTransactions

pub record Block : Type 0 where
  pub header : Header
  pub transactions : BlockTransactions

-- crates/monad-rpc/src/event/events.rs; the logs' notifications are not read here.
pub data EventServerEvent : Type 0 where
  gap : EventServerEvent
  block : BlockCommitState → Header → List (Transaction × TransactionReceipt) → EventServerEvent

pub record BlockBufferTxLoc : Type 0 where
  pub block_height : ℕ
  pub tx_idx : ℕ

pub record BlockBufferBlockStates : Type 0 where
  pub voted : ℕ
  pub finalized : ℕ
  pub proposed : ℕ

-- `block_heights` lists the ring from its back (the oldest) to its front.
pub record BlockBuffer : Type 0 where
  pub block_states : BlockBufferBlockStates
  pub block_heights : List ℕ
  pub block_heights_capacity : ℕ
  pub block_by_height : List (ℕ × Block)
  pub block_height_by_hash : List (ℕ × ℕ)
  pub tx_by_hash : List (ℕ × (BlockBufferTxLoc × TransactionReceipt))

unfoldable pub new : ℕ → BlockBuffer
new capacity = record {
  block_states = record { voted = 0; finalized = 0; proposed = 0 };
  block_heights = [];
  block_heights_capacity = capacity;
  block_by_height = [];
  block_height_by_hash = [];
  tx_by_hash = [];
}

-- The `fetch_max` of the event's commit state.
unfoldable pub bump_states : BlockCommitState → ℕ → BlockBufferBlockStates → BlockBufferBlockStates
bump_states BlockCommitState.verified height s = s
bump_states BlockCommitState.finalized height s = record s { finalized = max s.finalized height }
bump_states BlockCommitState.voted height s = record s { voted = max s.voted height }
bump_states BlockCommitState.proposed height s = record s { proposed = max s.proposed height }

-- The early returns, where `seen` is whether the block's hash is buffered.
unfoldable pub returns_early : BlockCommitState → Bool → Bool
returns_early BlockCommitState.verified seen = true
returns_early BlockCommitState.finalized seen = seen
returns_early BlockCommitState.voted seen = seen
returns_early BlockCommitState.proposed seen = false

abbrev pub tx_hashes : BlockTransactions → List ℕ
tx_hashes (BlockTransactions.full txs) = map (λ tx. tx.tx_hash) txs
tx_hashes (BlockTransactions.hashes _) = []
tx_hashes BlockTransactions.uncle = []

-- Both clean-ups of a block that leaves the buffer: its hash and its full transactions.
unfoldable pub forget_block : Block → BlockBuffer → BlockBuffer
unfolding remove_all
forget_block old b = record b {
  block_height_by_hash = remove old.header.hash b.block_height_by_hash;
  tx_by_hash = remove_all (tx_hashes old.transactions) b.tx_by_hash;
}

unfoldable pub replace_block : ℕ → Block → BlockBuffer → BlockBuffer
unfolding forget_block
replace_block height new_block b =
    let stored : BlockBuffer = record b {
      block_by_height = Map.insert height new_block b.block_by_height;
    } in
    elim (lookup height b.block_by_height) [ none ↦ stored | some old ↦ forget_block old stored ]

unfoldable pub insert_txs :
    ℕ
    → ℕ
    → List (Transaction × TransactionReceipt)
    → List (ℕ × (BlockBufferTxLoc × TransactionReceipt))
    → List (ℕ × (BlockBufferTxLoc × TransactionReceipt))
insert_txs height tx_idx [] m = m
insert_txs height tx_idx ((_, r) ∷ ts) m =
    insert_txs height (suc tx_idx) ts
      (Map.insert r.transaction_hash (record { block_height = height; tx_idx = tx_idx }, r) m)

unfoldable pub evict_block : ℕ → BlockBuffer → BlockBuffer
unfolding forget_block
evict_block height b = elim (lookup height b.block_by_height) [
  | none ↦ b
  | some evicted ↦
      forget_block evicted (record b { block_by_height = remove height b.block_by_height })
]

-- The `while` loop, over the ring with the new height at its front.
unfoldable pub evict : List ℕ → BlockBuffer → BlockBuffer
evict [] b = record b { block_heights = [] }
evict (oldest ∷ heights) b =
    let rest = evict heights (evict_block oldest b) in
    if ltb b.block_heights_capacity (suc (length heights))
    then rest
    else record b { block_heights = oldest ∷ heights }

-- The block with its hash and transactions, before the ring is trimmed.
unfoldable pub add_block :
    Header → List (Transaction × TransactionReceipt) → BlockBuffer → BlockBuffer
unfolding replace_block insert_txs
add_block header transactions b =
    let new_block : Block = record {
      header = header;
      transactions = BlockTransactions.full (map (λ t. t.0) transactions);
    } in
    let replaced = replace_block header.number new_block b in
    record replaced {
      block_height_by_hash = Map.insert header.hash header.number replaced.block_height_by_hash;
      tx_by_hash = insert_txs header.number 0 transactions replaced.tx_by_hash;
    }

unfoldable pub store_block :
    Header → List (Transaction × TransactionReceipt) → BlockBuffer → BlockBuffer
unfolding add_block evict evict_block
store_block header transactions b =
    evict (b.block_heights ++ (header.number ∷ [])) (add_block header transactions b)

unfoldable pub insert : BlockBuffer → EventServerEvent → BlockBuffer
unfolding store_block bump_states returns_early
insert b EventServerEvent.gap = b
insert b (EventServerEvent.block commit_state header transactions) =
    let bumped : BlockBuffer = record b {
      block_states = bump_states commit_state header.number b.block_states;
    } in
    if returns_early commit_state (contains_key header.hash b.block_height_by_hash)
    then bumped
    else store_block header transactions bumped
