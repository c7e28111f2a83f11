-- ===== src/Rpc/BlockBuffer/View.antt =====
-- crates/monad-rpc/src/data/buffer/view.rs: what readers see. A `BlockBufferView` shares the maps
-- of its `BlockBuffer`, so each of its functions reads a `BlockBuffer` here.
use monad_services.Prelude.{
  ℕ, Bool, true, false, Option, none, some, List, [], ◌∷◌, map, length, get_elem?, ◌==◌,
  if◌then◌else◌, wrapping_add64, ◌>>=?◌,
}
use monad_services.Prelude.Map.{lookup}
use monad_services.Rpc.BlockBuffer.{
  Header, Transaction, TransactionReceipt, Block, BlockTransactions, BlockBuffer,
}

-- `BlockTags` of crates/monad-rpc/src/types/eth_json.rs.
pub data BlockTags : Type 0 where
  number : ℕ → BlockTags
  latest safe finalized : BlockTags

unfoldable pub resolve_block_height_from_tag : BlockBuffer → BlockTags → ℕ
resolve_block_height_from_tag b (BlockTags.number n) = n
resolve_block_height_from_tag b BlockTags.latest = b.block_states.proposed
resolve_block_height_from_tag b BlockTags.safe = b.block_states.voted
resolve_block_height_from_tag b BlockTags.finalized = b.block_states.finalized

unfoldable pub get_block_by_height : BlockBuffer → ℕ → Option Block
get_block_by_height b height = lookup height b.block_by_height

unfoldable pub get_block_by_hash : BlockBuffer → ℕ → Option Block
get_block_by_hash b block_hash =
    lookup block_hash b.block_height_by_hash >>=? λ height. lookup height b.block_by_height

unfoldable pub get_receipt_by_tx_hash : BlockBuffer → ℕ → Option TransactionReceipt
get_receipt_by_tx_hash b tx_hash = lookup tx_hash b.tx_by_hash >>=? λ entry. some entry.1

unfoldable pub receipts_of : BlockBuffer → List Transaction → Option (List TransactionReceipt)
receipts_of b [] = some []
receipts_of b (tx ∷ txs) =
    let rest = receipts_of b txs in
    lookup tx.tx_hash b.tx_by_hash >>=? λ entry. rest >>=? λ receipts. some (entry.1 ∷ receipts)

unfoldable pub full_transactions : BlockTransactions → Option (List Transaction)
full_transactions (BlockTransactions.full txs) = some txs
full_transactions (BlockTransactions.hashes _) = none
full_transactions BlockTransactions.uncle = none

unfoldable pub get_receipts_by_block_height : BlockBuffer → ℕ → Option (List TransactionReceipt)
unfolding receipts_of full_transactions
get_receipts_by_block_height b height = lookup height b.block_by_height >>=? λ found.
    full_transactions found.transactions >>=? λ txs. receipts_of b txs

unfoldable pub get_transaction_by_location : BlockBuffer → ℕ → ℕ → Option Transaction
unfolding full_transactions
get_transaction_by_location b height idx = lookup height b.block_by_height >>=? λ found.
    full_transactions found.transactions >>=? λ txs. get_elem? txs idx

unfoldable pub get_transaction_by_hash : BlockBuffer → ℕ → Option Transaction
unfolding get_transaction_by_location
get_transaction_by_hash b tx_hash = lookup tx_hash b.tx_by_hash >>=? λ entry.
    get_transaction_by_location b entry.0.block_height entry.0.tx_idx

-- What the filtered read uses of alloy: the header inside a block's header, the envelope and the
-- sender that a transaction is taken apart into, and the receipt that a stored one is converted to.
pub record Conversions : Type 1 where
  pub Inner : Type 0
  pub Envelope : Type 0
  pub Receipt : Type 0
  pub inner : Header → Inner
  pub logs_bloom : Inner → ℕ
  pub into_parts : Transaction → Envelope × ℕ
  pub tx_hash : Envelope → ℕ
  pub into_primitives_receipt : TransactionReceipt → Receipt

pub record BlockHeader (C : Conversions) : Type 0 where
  pub hash : ℕ
  pub header : C.Inner

pub record TxEnvelopeWithSender (C : Conversions) : Type 0 where
  pub tx : C.Envelope
  pub sender : ℕ

pub record ReceiptWithLogIndex (C : Conversions) : Type 0 where
  pub receipt : C.Receipt
  pub starting_log_index : ℕ

-- The checks on the first log's index.
unfoldable pub first_log_matches : List (Option ℕ) → ℕ → Bool
first_log_matches [] starting_log_index = true
first_log_matches (none ∷ _) starting_log_index = false
first_log_matches (some first_log_index ∷ _) starting_log_index =
    first_log_index == starting_log_index

module _ (C : Conversions) where
  abbrev pub block_header : Header → BlockHeader C
  block_header header = record { hash = header.hash; header = C.inner header }

  abbrev pub with_sender : Transaction → TxEnvelopeWithSender C
  with_sender tx = record { tx = (C.into_parts tx).0; sender = (C.into_parts tx).1 }

  unfoldable pub transactions_with_sender :
      BlockTransactions → Option (List (TxEnvelopeWithSender C))
  transactions_with_sender (BlockTransactions.full txs) = some (map with_sender txs)
  transactions_with_sender (BlockTransactions.hashes _) = none
  transactions_with_sender BlockTransactions.uncle = none

  -- The `map` over the transactions, with `log_index` as the counter; `Err(())` is `none`.
  unfoldable pub receipts_with_index :
      BlockBuffer → List (TxEnvelopeWithSender C) → ℕ → Option (List (ReceiptWithLogIndex C))
  unfolding first_log_matches
  receipts_with_index b [] log_index = some []
  receipts_with_index b (transaction ∷ txs) log_index =
      elim (lookup (C.tx_hash transaction.tx) b.tx_by_hash) [
        | none ↦ none
        | some (loc, r) ↦
            let rest = receipts_with_index b txs (wrapping_add64 log_index (length r.logs)) in
            if first_log_matches r.logs log_index
            then (rest >>=? λ receipts. some (
                record { receipt = C.into_primitives_receipt r; starting_log_index = log_index }
                ∷ receipts))
            else none
      ]

  unfoldable pub get_bloom_filtered_header_transactions_receipts :
      BlockBuffer
      → ℕ
      → (ℕ → Bool)
      → Option (BlockHeader C × List (TxEnvelopeWithSender C) × List (ReceiptWithLogIndex C))
  unfolding receipts_with_index transactions_with_sender
  get_bloom_filtered_header_transactions_receipts b height filter_match =
      lookup height b.block_by_height >>=? λ found.
      let header = block_header found.header in
      if filter_match (C.logs_bloom header.header)
      then (transactions_with_sender found.transactions >>=? λ txs.
          receipts_with_index b txs 0 >>=? λ receipts. some (header, txs, receipts))
      else some (header, [], [])
