-- ===== src/Rpc/BlockBuffer/Transactions.antt =====
-- What the buffer's map of transactions holds after a block's receipts are put into it.
use monad_services.Prelude.{
  ℕ, zero, suc, ◌+◌, ◌≡◌, ◌≢◌, ◌⊎◌, inl, inr, true, none, some, List, [], ◌∷◌, map, get_elem?,
  contains, All, ==-cases, arith,
}
use monad_services.Prelude.Map.{lookup, lookup-insert, lookup-insert-some}
use monad_services.Rpc.BlockBuffer.{Transaction, TransactionReceipt, BlockBufferTxLoc, insert_txs}

-- A receipt stands beside its transaction.
abbrev pub Paired : List (Transaction × TransactionReceipt) → Type 0
Paired ts = All (λ t. t.0.tx_hash ≡ t.1.transaction_hash) ts

abbrev pub hashes_of : List (Transaction × TransactionReceipt) → List ℕ
hashes_of ts = map (λ t. t.tx_hash) (map (λ t. t.0) ts)

pub contains_of_get : (xs : List ℕ) (i x : ℕ) → get_elem? xs i ≡ some x → contains x xs ≡ true
contains_of_get [] i x e = cc
contains_of_get (y ∷ ys) zero x e = ground arith
contains_of_get (y ∷ ys) (suc i) x e = ground (arith, contains_of_get ys i x e)

-- An entry was there before, or is at its transaction's place in the list.
pub insert_txs-some :
    (height tx_idx x : ℕ) (loc : BlockBufferTxLoc) (r : TransactionReceipt)
    (ts : List (Transaction × TransactionReceipt))
    (m : List (ℕ × (BlockBufferTxLoc × TransactionReceipt)))
    → Paired ts
    → lookup x (insert_txs height tx_idx ts m) ≡ some (loc, r)
    → (lookup x m ≡ some (loc, r))
      ⊎ ((j : ℕ) × (loc.block_height ≡ height)
          × (loc.tx_idx ≡ tx_idx + j)
          × (get_elem? (hashes_of ts) j ≡ some x)
          × (r.transaction_hash ≡ x))
unfolding insert_txs
insert_txs-some height i x loc r [] m w e = inl e
insert_txs-some height i x loc r ((t, rt) ∷ ts) m w e =
    elim (insert_txs-some height (suc i) x loc r ts _ w.1 e) [
      | inl now ↦ elim (lookup-insert-some rt.transaction_hash x _ (loc, r) m now) [
        | inl (p, q) ↦ inr (0, ground arith, ground arith, ground arith, ground arith)
        | inr (p, q) ↦ inl q
      ]
      | inr (j, l, at, g, same) ↦ inr (suc j, l, omega arith, g, same)
    ]

pub insert_txs_kept :
    (height tx_idx x : ℕ) (ts : List (Transaction × TransactionReceipt))
    (m : List (ℕ × (BlockBufferTxLoc × TransactionReceipt)))
    → lookup x m ≢ none
    → lookup x (insert_txs height tx_idx ts m) ≢ none
unfolding insert_txs
insert_txs_kept height i x [] m h = h
insert_txs_kept height i x ((t, rt) ∷ ts) m h = insert_txs_kept height (suc i) x ts _ (λ gone.
    ground (
      arith,
      h,
      lookup-insert rt.transaction_hash x (record { block_height = height; tx_idx = i }, rt) m,
    ))

-- Every transaction of the list is found afterwards.
pub insert_txs_found :
    (height tx_idx x : ℕ) (ts : List (Transaction × TransactionReceipt))
    (m : List (ℕ × (BlockBufferTxLoc × TransactionReceipt)))
    → Paired ts
    → contains x (hashes_of ts) ≡ true
    → lookup x (insert_txs height tx_idx ts m) ≢ none
unfolding insert_txs
insert_txs_found height i x [] m w h = cc
insert_txs_found height i x ((t, rt) ∷ ts) m w h = elim (==-cases x t.tx_hash) [
  | inl (p, q) ↦ insert_txs_kept height (suc i) x ts _ (λ gone. ground (
    arith,
    w.0,
    lookup-insert rt.transaction_hash x (record { block_height = height; tx_idx = i }, rt) m,
  ))
  | inr (p, q) ↦ insert_txs_found height (suc i) x ts _ w.1 (ground arith)
]
