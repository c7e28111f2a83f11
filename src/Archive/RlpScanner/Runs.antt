-- ===== src/Archive/RlpScanner/Runs.antt =====
-- Concrete runs of the scanner, and its theorems at concrete inputs.
use monad_services.Prelude.{
  ℕ, ◌⊎◌, zero, suc, ◌+◌, ◌<◌, ◌≡◌, ◌≢◌, refl, ap, List, [], ◌∷◌, length, map, u64_mod, ok, err,
  ok-inj, arith,
}
use monad_services.Archive.RlpScanner.{
  TxByteOffsets, Error, RangeRlp, decode_uint_loop, decode_uint, decode_long, decode_prefix,
  decode_length, scan_items, scan_fuel, slice, get_rlp_list_ranges, transactions_position,
  zip_offsets, get_all_tx_offsets,
}
use monad_services.Archive.RlpScanner.Encoding.{Item, encode, prefix}
use monad_services.Archive.RlpScanner.Ranges.{rlp_list, cut, encoded, get_rlp_list_ranges-cut}
use monad_services.Archive.RlpScanner.Offsets.{block_rlp, get_all_tx_offsets-cut}
use monad_services.Archive.RlpScanner.Termination.{NoWrap, scan_items-wrapped, scan_items-total}

-- "cat" and "dog".
abbrev pets : List Item
pets = Item.string (99 ∷ 97 ∷ 116 ∷ []) ∷ Item.string (100 ∷ 111 ∷ 103 ∷ []) ∷ []

pets_test :
    get_rlp_list_ranges (0xc8 ∷ 0x83 ∷ 99 ∷ 97 ∷ 116 ∷ 0x83 ∷ 100 ∷ 111 ∷ 103 ∷ [])
    ≡ ok (record { start = 1; end = 5 } ∷ record { start = 5; end = 9 } ∷ [])
unfolding get_rlp_list_ranges decode_length decode_prefix scan_items
pets_test = refl

-- A block with one header byte and two transactions, their receipts and traces.
offsets_test :
    get_all_tx_offsets
      (0xc4 ∷ 0x01 ∷ 0xc2 ∷ 0x02 ∷ 0x03 ∷ [])
      (0xc2 ∷ 0x04 ∷ 0x05 ∷ [])
      (0xc3 ∷ 0x06 ∷ 0x81 ∷ 0x80 ∷ [])
    ≡ ok (
        record {
          tx = record { start = 3; end = 4 };
          receipt = record { start = 1; end = 2 };
          trace = record { start = 1; end = 2 };
        }
        ∷ record {
          tx = record { start = 4; end = 5 };
          receipt = record { start = 2; end = 3 };
          trace = record { start = 2; end = 4 };
        }
        ∷ [])
unfolding get_all_tx_offsets get_rlp_list_ranges transactions_position decode_length decode_prefix
    scan_items slice zip_offsets
offsets_test = refl

mismatch_test :
    get_all_tx_offsets
      (0xc4 ∷ 0x01 ∷ 0xc2 ∷ 0x02 ∷ 0x03 ∷ [])
      (0xc1 ∷ 0x04 ∷ [])
      (0xc2 ∷ 0x06 ∷ 0x07 ∷ [])
    ≡ err Error.mismatched_counts
unfolding get_all_tx_offsets get_rlp_list_ranges transactions_position decode_length decode_prefix
    scan_items slice zip_offsets
mismatch_test = refl

-- A string that claims 2 ^ 64 - 9 bytes, in a list of 9.
abbrev looping : List ℕ
looping = 0xc9 ∷ 0xbf ∷ 0xff ∷ 0xff ∷ 0xff ∷ 0xff ∷ 0xff ∷ 0xff ∷ 0xff ∷ 0xf7 ∷ []

wraps : decode_length looping 1 ≡ ok (18446744073709551607, 0)
unfolding decode_length decode_prefix decode_long decode_uint decode_uint_loop
wraps = refl

scan_items-wrapped_example : scan_items 1000 looping 1 10 ≡ err Error.out_of_fuel
scan_items-wrapped_example =
    scan_items-wrapped 1000 looping 1 10 18446744073709551607 (omega arith) (omega arith) wraps

get_rlp_list_ranges-cut_example :
    (ranges : List RangeRlp) × (get_rlp_list_ranges (rlp_list pets) ≡ ok ranges)
    × (map (cut (rlp_list pets)) ranges ≡ map encoded pets)
get_rlp_list_ranges-cut_example = get_rlp_list_ranges-cut pets short
  where
    short : length (rlp_list pets) + 9 < u64_mod
    short = unfold encode prefix in omega arith

abbrev five : List ℕ
five = 0xc1 ∷ 0x05 ∷ []

five-NoWrap : NoWrap five
unfolding decode_length decode_prefix
five-NoWrap zero content total e =
    let t : 2 ≡ total = ap (λ x. x.1) (ok-inj e) in (omega (arith, t), omega (arith, t))
five-NoWrap (suc zero) content total e =
    let t : 1 ≡ total = ap (λ x. x.1) (ok-inj e) in (omega (arith, t), omega (arith, t))
five-NoWrap (suc (suc zero)) content total e = absurd cc
five-NoWrap (suc (suc (suc p))) content total e = absurd (ground (arith, e))

scan_items-total_example : scan_items (scan_fuel five) five 1 2 ≢ err Error.out_of_fuel
scan_items-total_example = scan_items-total five 1 2 five-NoWrap

abbrev one_header : Item
one_header = Item.string (1 ∷ [])

abbrev one_block : List ℕ
one_block = block_rlp one_header pets []

one_block-small : length one_block + 9 < u64_mod
one_block-small = unfold encode prefix in omega arith

pets-small : length (rlp_list pets) + 9 < u64_mod
pets-small = unfold encode prefix in omega arith

get_all_tx_offsets-cut_example :
    (length pets ≡ length pets
      → length pets ≡ length pets
      → (found : List TxByteOffsets) × (get_all_tx_offsets one_block (rlp_list pets) (rlp_list pets)
          ≡ ok found)
        × (map (λ o. cut one_block o.tx) found ≡ map encoded pets)
        × (map (λ o. cut (rlp_list pets) o.receipt) found ≡ map encoded pets)
        × (map (λ o. cut (rlp_list pets) o.trace) found ≡ map encoded pets))
    × ((length pets ≢ length pets) ⊎ (length pets ≢ length pets)
        → get_all_tx_offsets one_block (rlp_list pets) (rlp_list pets)
          ≡ err Error.mismatched_counts)
get_all_tx_offsets-cut_example =
    get_all_tx_offsets-cut one_header pets [] one_block-small pets pets pets-small pets-small
