-- ===== src/Rpc/BlockBuffer/Runs.antt =====
-- Concrete runs of the buffer, and its theorems at concrete inputs.
use monad_services.Prelude.{
  ℕ, ◌/◌, ◌*◌, ◌+◌, ◌≡◌, refl, ◌↔◌, true, none, some, List, [], ◌∷◌, map, All,
}
use monad_services.Prelude.Map
use monad_services.Prelude.Map.{lookup, remove, remove_all, contains_key}
use monad_services.Rpc.BlockBuffer.{
  Header, Transaction, TransactionReceipt, BlockTransactions, EventServerEvent, BlockCommitState,
  new, insert,
}
use monad_services.Rpc.BlockBuffer.View.{
  BlockTags, Conversions, BlockHeader, TxEnvelopeWithSender, ReceiptWithLogIndex,
  resolve_block_height_from_tag, get_block_by_height, get_block_by_hash, get_receipt_by_tx_hash,
  get_transaction_by_hash, get_receipts_by_block_height,
  get_bloom_filtered_header_transactions_receipts,
}
use monad_services.Rpc.BlockBuffer.Invariant.{WellFormed, IsValid, block_of}
use monad_services.Rpc.BlockBuffer.Insert.{insert_all, insert_all-new}
use monad_services.Rpc.BlockBuffer.Reads.{get_block_by_hash_iff, get_block_by_height-insert_full}
use monad_services.Rpc.BlockBuffer.Heights.{newest, resolve-insert_all}
use monad_services.Rpc.BlockBuffer.Logs.{Numbered, indexed_receipts, get_bloom_filtered_some}

-- What the tests compute with.
program : Unit {0}
unfolding new insert lookup remove remove_all contains_key Map.insert get_block_by_hash
    get_block_by_height get_receipt_by_tx_hash get_transaction_by_hash get_receipts_by_block_height
    get_bloom_filtered_header_transactions_receipts
program = tt

-- Hash 10 h + n is a block of height h.
abbrev height_of : ℕ → ℕ
height_of x = x / 10

abbrev header : ℕ → ℕ → Header
header h n = record { number = h; hash = 10 * h + n; logs_bloom = 1; body = 0 }

abbrev entry : ℕ → Transaction × TransactionReceipt
entry x = (
  record { tx_hash = x; body = 0 },
  record { transaction_hash = x; logs = some 0 ∷ []; body = 7 },
)

abbrev propose : ℕ → ℕ → ℕ → EventServerEvent
propose h n x = EventServerEvent.block BlockCommitState.proposed (header h n) (entry x ∷ [])

abbrev three : List EventServerEvent
three =
    propose 1 0 100
    ∷ propose 2 0 200
    ∷ EventServerEvent.block BlockCommitState.voted (header 1 0) (entry 100 ∷ [])
    ∷ propose 3 0 300
    ∷ []

three-WellFormed : All (WellFormed height_of) three
three-WellFormed =
    ((refl, (refl, tt)), ((refl, (refl, tt)), ((refl, (refl, tt)), ((refl, (refl, tt)), tt))))

-- Capacity 2: the block of height 1 has left the ring.
three_blocks :
    (get_block_by_hash (insert_all three (new 2)) 10 ≡ none)
    × (get_block_by_hash (insert_all three (new 2)) 30
        ≡ some (block_of (header 3 0) (entry 300 ∷ [])))
    × ((insert_all three (new 2)).block_heights ≡ 2 ∷ 3 ∷ [])
unfolding program
three_blocks = (refl, refl, refl)

insert_all-new_example : IsValid height_of (insert_all three (new 2))
insert_all-new_example = insert_all-new height_of three 2 three-WellFormed

get_block_by_hash_iff_example :
    (get_block_by_hash (insert_all three (new 2)) 30
      ≡ some (block_of (header 3 0) (entry 300 ∷ [])))
    ↔ (◌≡◌ {A = ℕ} 30 30
        × (get_block_by_height (insert_all three (new 2)) 3
            ≡ some (block_of (header 3 0) (entry 300 ∷ []))))
get_block_by_hash_iff_example =
    get_block_by_hash_iff height_of (insert_all three (new 2)) insert_all-new_example 30
      (block_of (header 3 0) (entry 300 ∷ []))

get_block_by_height-insert_full_example :
    get_block_by_height (insert (insert_all three (new 2)) (propose 2 1 201)) 2 ≡ none
unfolding program
get_block_by_height-insert_full_example =
    get_block_by_height-insert_full (insert_all three (new 2)) (header 2 1) (entry 201 ∷ [])
      (3 ∷ []) refl refl

resolve-insert_all_example :
    resolve_block_height_from_tag (insert_all three (new 2)) BlockTags.latest
    ≡ newest BlockTags.latest three
resolve-insert_all_example = resolve-insert_all BlockTags.latest three 2

-- An envelope is its hash, its sender is the transaction's body, and a receipt is converted to its
-- body.
abbrev plain : Conversions
plain = record {
  Inner = ℕ × ℕ;
  Envelope = ℕ;
  Receipt = ℕ;
  inner = λ h. (h.number, h.logs_bloom);
  logs_bloom = λ i. i.1;
  into_parts = λ tx. (tx.tx_hash, tx.body);
  tx_hash = λ envelope. envelope;
  into_primitives_receipt = λ r. r.body;
}

abbrev filtered_header : BlockHeader plain
filtered_header = record { hash = 30; header = (3, 1) }

abbrev filtered_txs : List (TxEnvelopeWithSender plain)
filtered_txs = record { tx = 300; sender = 0 } ∷ []

abbrev filtered_receipts : List (ReceiptWithLogIndex plain)
filtered_receipts = record { receipt = 7; starting_log_index = 0 } ∷ []

get_bloom_filtered_some_example :
    (h : Header) × (stored : List Transaction) × (receipts : List TransactionReceipt) × (lookup 3
        (insert_all three (new 2)).block_by_height
      ≡ some (record { header = h; transactions = BlockTransactions.full stored }))
    × (filtered_header ≡ record { hash = h.hash; header = plain.inner h })
    × (filtered_txs
        ≡ map
            (λ tx. record { tx = (plain.into_parts tx).0; sender = (plain.into_parts tx).1 })
            stored)
    × (get_receipts_by_block_height (insert_all three (new 2)) 3 ≡ some receipts)
    × Numbered 0 receipts
    × (filtered_receipts ≡ indexed_receipts plain 0 receipts)
unfolding program
get_bloom_filtered_some_example =
    get_bloom_filtered_some plain (λ tx. refl) (insert_all three (new 2)) 3 (λ _. true)
      filtered_header filtered_txs filtered_receipts refl refl
