-- ===== src/Rpc/BlockBuffer/Logs.antt =====
-- The filtered read of a block: its header, transactions and receipts with their log indices.
use monad_services.Prelude.{
  ℕ, ◌+◌, ◌%◌, ◌≡◌, refl, sym, ap, ◌∙◌, inl, inr, Bool, true, Option, none, some, List, [], ◌∷◌,
  map, length, Bool-cases, Option-cases, arith, u64_mod,
}
use monad_services.Prelude.Map.{lookup}
use monad_services.Rpc.BlockBuffer.{
  Header, Transaction, TransactionReceipt, BlockTransactions, BlockBuffer,
}
use monad_services.Rpc.BlockBuffer.View.{
  Conversions, BlockHeader, TxEnvelopeWithSender, ReceiptWithLogIndex, with_sender, block_header,
  transactions_with_sender, first_log_matches, receipts_of, receipts_with_index, full_transactions,
  get_receipts_by_block_height, get_bloom_filtered_header_transactions_receipts,
}

-- The first log of each receipt, if there is one, has for its index the number of logs before it
-- (a u64).
abbrev pub FirstAt : ℕ → List (Option ℕ) → Type 0
FirstAt i [] = Unit
FirstAt i (none ∷ logs) = ⊥
FirstAt i (some first ∷ logs) = first ≡ i

abbrev pub Numbered : ℕ → List TransactionReceipt → Type 0
Numbered i [] = Unit
Numbered i (r ∷ rs) = FirstAt i r.logs × Numbered ((i + length r.logs) % u64_mod) rs

first_log_matches-true :
    (logs : List (Option ℕ)) (i : ℕ) → first_log_matches logs i ≡ true → FirstAt i logs
unfolding first_log_matches
first_log_matches-true [] i e = tt
first_log_matches-true (none ∷ logs) i e = absurd cc
first_log_matches-true (some first ∷ logs) i e = ground arith

module _ (C : Conversions) where
  -- Each receipt, converted, with the number of logs before it.
  abbrev pub indexed_receipts : ℕ → List TransactionReceipt → List (ReceiptWithLogIndex C)
  indexed_receipts i [] = []
  indexed_receipts i (r ∷ rs) =
      record { receipt = C.into_primitives_receipt r; starting_log_index = i }
      ∷ indexed_receipts ((i + length r.logs) % u64_mod) rs

  receipts_with_index-some :
      ((tx : Transaction) → C.tx_hash (C.into_parts tx).0 ≡ tx.tx_hash)
      → (b : BlockBuffer) (txs : List Transaction) (i : ℕ) (rs : List (ReceiptWithLogIndex C))
      → receipts_with_index C b (map (with_sender C) txs) i ≡ some rs
      → (stored : List TransactionReceipt) × (receipts_of b txs ≡ some stored)
        × Numbered i stored
        × (rs ≡ indexed_receipts i stored)
  unfolding receipts_with_index receipts_of
  receipts_with_index-some same_hash b [] i [] e = ([], refl, tt, refl)
  receipts_with_index-some same_hash b [] i (r ∷ rs) e = absurd (ground arith)
  receipts_with_index-some same_hash b (tx ∷ txs) i rs e =
      let same = ap (λ h. lookup h b.tx_by_hash) (same_hash tx) in
      elim (Option-cases (lookup tx.tx_hash b.tx_by_hash)) [
        | inl missing ↦ absurd (ground (arith, same, missing))
        | inr ((loc, r), found) ↦
            let i' = (i + length r.logs) % u64_mod in
            let here = same ∙ found in
            elim (Option-cases (receipts_with_index C b (map (with_sender C) txs) i')) [
              | inl none_left ↦ absurd (ground (arith, here, none_left))
              | inr (rest, more) ↦ elim (Bool-cases (first_log_matches r.logs i)) [
                | inl matches ↦
                    let (stored, all, numbered, converted) =
                      receipts_with_index-some same_hash b txs i' rest more in
                    let whole : rs
                        ≡ record { receipt = C.into_primitives_receipt r; starting_log_index = i }
                          ∷ rest =
                      ground (arith, here, more, matches) in
                    (
                      r ∷ stored,
                      rw (found, all) refl,
                      (first_log_matches-true r.logs i matches, numbered),
                      whole
                          ∙ ap
                              (λ l.
                                record {
                                  receipt = C.into_primitives_receipt r;
                                  starting_log_index = i;
                                }
                                ∷ l)
                              converted,
                    )
                | inr differs ↦ absurd (ground (arith, here, more, differs))
              ]
            ]
      ]

  transactions_with_sender-some :
      (ts : BlockTransactions) (txs : List (TxEnvelopeWithSender C))
      → transactions_with_sender C ts ≡ some txs
      → (stored : List Transaction) × (ts ≡ BlockTransactions.full stored)
        × (txs ≡ map (with_sender C) stored)
        × (full_transactions ts ≡ some stored)
  unfolding transactions_with_sender full_transactions
  transactions_with_sender-some (BlockTransactions.full xs) txs e = (xs, refl, ground arith, refl)
  transactions_with_sender-some (BlockTransactions.hashes hs) txs e = absurd cc
  transactions_with_sender-some BlockTransactions.uncle txs e = absurd cc

-- When the filter passes the bloom of the header that comes back, and taking a transaction apart
-- keeps its hash, the block at the height is stored with full transactions. The header is its hash and
-- inner header, and the transactions are its transactions taken apart, in order. The receipts are the
-- ones that `get_receipts_by_block_height` gives, each converted and numbered by the logs before it,
-- which is the index of its first log too.
pub get_bloom_filtered_some :
    (C : Conversions)
    → ((tx : Transaction) → C.tx_hash (C.into_parts tx).0 ≡ tx.tx_hash)
    → (b : BlockBuffer) (height : ℕ) (filter_match : ℕ → Bool) (header : BlockHeader C)
      (txs : List (TxEnvelopeWithSender C)) (rs : List (ReceiptWithLogIndex C))
    → get_bloom_filtered_header_transactions_receipts C b height filter_match
      ≡ some (header, txs, rs)
    → filter_match (C.logs_bloom header.header) ≡ true
    → (h : Header) × (stored : List Transaction) × (receipts : List TransactionReceipt) × (lookup
          height b.block_by_height
        ≡ some (record { header = h; transactions = BlockTransactions.full stored }))
      × (header ≡ record { hash = h.hash; header = C.inner h })
      × (txs ≡ map (λ tx. record { tx = (C.into_parts tx).0; sender = (C.into_parts tx).1 }) stored)
      × (get_receipts_by_block_height b height ≡ some receipts)
      × Numbered 0 receipts
      × (rs ≡ indexed_receipts C 0 receipts)
unfolding get_bloom_filtered_header_transactions_receipts get_receipts_by_block_height
get_bloom_filtered_some C same_hash b height filter_match header txs rs e pass =
    elim (Option-cases (lookup height b.block_by_height)) [
      | inl missing ↦ absurd (ground (arith, missing))
      | inr (f, found) ↦ elim (Bool-cases (filter_match (C.logs_bloom (C.inner f.header)))) [
        | inl passed ↦ elim (Option-cases (transactions_with_sender C f.transactions)) [
          | inl partial ↦ absurd (ground (arith, found, passed, partial))
          | inr (ts, whole) ↦ elim (Option-cases (receipts_with_index C b ts 0)) [
            | inl failed ↦ absurd (ground (arith, found, passed, whole, failed))
            | inr (rest, got) ↦
                let (stored, kept, apart, full) =
                  transactions_with_sender-some C f.transactions ts whole in
                let (receipts, all, numbered, converted) =
                  receipts_with_index-some C same_hash b stored 0 rest
                    (ap (λ l. receipts_with_index C b l 0) (sym apart) ∙ got) in
                let one : block_header C f.header ≡ header =
                  ground (arith, found, passed, whole, got) in
                let two : ts ≡ txs = ground (arith, found, passed, whole, got) in
                let three : rest ≡ rs = ground (arith, found, passed, whole, got) in
                (
                  f.header,
                  stored,
                  receipts,
                  ground (arith, found, kept),
                  sym one,
                  sym two ∙ apart,
                  rw found (rw full all),
                  numbered,
                  sym three ∙ converted,
                )
          ]
        ]
        | inr stopped ↦ absurd (ground (arith, found, stopped, pass))
      ]
    ]
