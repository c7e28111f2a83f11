-- ===== src/Archive/RlpScanner.antt =====
-- crates/monad-archive/src/rlp_offset_scanner.rs. Bytes are numbers and the data is a list; a
-- `usize` has 64 bits and, as in a release build, `+` and `-` wrap around. An error is its message.
pub mod Encoding
pub mod Scan
pub mod Ranges
pub mod Offsets
pub mod Termination
mod Runs
use monad_services.Prelude.{
  ℕ, zero, suc, ◌+◌, ◌-◌, ◌%◌, Bool, true, false, ◌&&◌, ◌||◌, not, Option, none, some, List, [],
  ◌∷◌, ◌++◌, map, length, take, drop, ltb, leb, ◌==◌, if◌then◌else◌, u64_mod, wrapping_add64,
  checked_add64, checked_mul64, Result, ok, err, ◌>>=◌,
}

-- `panicked` is a slice out of range, and `out_of_fuel` is no outcome of the source: it marks a loop
-- that has run for more rounds than it was given.
pub data Error : Type 0 where
  unexpected_end short_string_length short_list_length : Error
  empty_uint leading_zero uint_overflow : Error
  mismatched_counts : Error
  panicked out_of_fuel : Error

-- crates/monad-archive/src/model/mod.rs
pub record RangeRlp : Type 0 where
  pub start : ℕ
  pub end : ℕ

pub record TxByteOffsets : Type 0 where
  pub tx : RangeRlp
  pub receipt : RangeRlp
  pub trace : RangeRlp

abbrev pub wrapping_sub64 : ℕ → ℕ → ℕ
wrapping_sub64 a b = (a + u64_mod - b) % u64_mod

unfoldable pub decode_uint_loop : List ℕ → ℕ → Result Error ℕ
decode_uint_loop [] result = ok result
decode_uint_loop (byte ∷ bytes) result = elim (checked_mul64 result 256) [
  | none ↦ err Error.uint_overflow
  | some shifted ↦ elim (checked_add64 shifted byte) [
    | none ↦ err Error.uint_overflow
    | some next ↦ decode_uint_loop bytes next
  ]
]

unfoldable pub decode_uint : List ℕ → Result Error ℕ
unfolding decode_uint_loop
decode_uint [] = err Error.empty_uint
decode_uint (first ∷ bytes) =
    if first == 0 && ltb 0 (length bytes)
    then err Error.leading_zero
    else decode_uint_loop (first ∷ bytes) 0

-- A prefix whose length is itself written in `n` bytes.
unfoldable pub decode_long : Error → ℕ → List ℕ → Result Error (ℕ × ℕ)
unfolding decode_uint
decode_long short n rest =
    if ltb (suc (length rest)) (1 + n)
    then err short
    else (decode_uint (take n rest) >>= λ len. ok (len, wrapping_add64 (1 + n) len))

-- `decode_length` on `remaining`: the content's length and the total length.
unfoldable pub decode_prefix : List ℕ → Result Error (ℕ × ℕ)
decode_prefix [] = err Error.unexpected_end
decode_prefix (first ∷ rest) =
    if leb first 0x7f
    then ok (1, 1)
    else if leb first 0xb7
    then ok (first - 0x80, first - 0x80 + 1)
    else if leb first 0xbf
    then decode_long Error.short_string_length (first - 0xb7) rest
    else if leb first 0xf7
    then ok (first - 0xc0, first - 0xc0 + 1)
    else decode_long Error.short_list_length (first - 0xf7) rest

unfoldable pub decode_length : List ℕ → ℕ → Result Error (ℕ × ℕ)
decode_length bytes position =
    if ltb (length bytes) position then err Error.panicked else decode_prefix (drop position bytes)

-- The `while` loop that collects the ranges up to `end`.
unfoldable pub scan_items : ℕ → List ℕ → ℕ → ℕ → Result Error (List (ℕ × ℕ))
scan_items zero bytes position end = if ltb position end then err Error.out_of_fuel else ok []
scan_items (suc fuel) bytes position end =
    let round : Result Error (List (ℕ × ℕ)) =
      (decode_length bytes position >>= λ lens.
      scan_items fuel bytes (wrapping_add64 position lens.1) end >>= λ ranges.
      ok ((position, wrapping_add64 position lens.1) ∷ ranges)) in
    if ltb position end then round else ok []

abbrev pub range : ℕ × ℕ → RangeRlp
range (start, end) = record { start = start; end = end }

-- Two rounds more than the data has bytes: a round that does not wrap around moves on by a byte at
-- least, and a position past the end panics.
abbrev pub scan_fuel : List ℕ → ℕ
scan_fuel bytes = suc (suc (length bytes))

unfoldable pub get_rlp_list_ranges : List ℕ → Result Error (List RangeRlp)
get_rlp_list_ranges bytes = decode_length bytes 0 >>= λ lens.
    let items_start = wrapping_sub64 lens.1 lens.0 in
    scan_items (scan_fuel bytes) bytes items_start (wrapping_add64 items_start lens.0) >>= λ ranges.
    ok (map range ranges)

-- Past the block's prefix and its header: where the list of transactions starts.
unfoldable pub transactions_position : List ℕ → Result Error ℕ
transactions_position block_rlp = decode_length block_rlp 0 >>= λ block.
    let header_start = wrapping_sub64 block.1 block.0 in
    decode_length block_rlp header_start >>= λ header. ok (wrapping_add64 header_start header.1)

unfoldable pub get_transaction_ranges : List ℕ → Result Error (List (ℕ × ℕ))
get_transaction_ranges block_rlp = transactions_position block_rlp >>= λ position.
    decode_length block_rlp position >>= λ txs.
    let txs_start = wrapping_add64 position (wrapping_sub64 txs.1 txs.0) in
    scan_items (scan_fuel block_rlp) block_rlp txs_start (wrapping_add64 txs_start txs.0)

-- `&bytes[start..end]`
unfoldable pub slice : ℕ → ℕ → List ℕ → Result Error (List ℕ)
slice start end bytes =
    if ltb end start || ltb (length bytes) end
    then err Error.panicked
    else ok (take (end - start) (drop start bytes))

abbrev pub shift_range : ℕ → RangeRlp → RangeRlp
shift_range by r = record { start = wrapping_add64 r.start by; end = wrapping_add64 r.end by }

unfoldable pub zip_offsets : List RangeRlp → List RangeRlp → List RangeRlp → List TxByteOffsets
zip_offsets (tx ∷ txs) (receipt ∷ receipts) (trace ∷ traces) =
    record { tx = tx; receipt = receipt; trace = trace } ∷ zip_offsets txs receipts traces
zip_offsets _ _ _ = []

unfoldable pub get_all_tx_offsets : List ℕ → List ℕ → List ℕ → Result Error (List TxByteOffsets)
get_all_tx_offsets block_rlp receipts_rlp traces_rlp =
    transactions_position block_rlp >>= λ txs_start. decode_length block_rlp txs_start >>= λ txs.
    slice txs_start (wrapping_add64 txs_start txs.1) block_rlp >>= λ txs_rlp.
    get_rlp_list_ranges txs_rlp >>= λ tx_ranges.
    get_rlp_list_ranges receipts_rlp >>= λ receipt_ranges.
    get_rlp_list_ranges traces_rlp >>= λ trace_ranges.
    if not (length tx_ranges == length receipt_ranges)
      || not (length tx_ranges == length trace_ranges)
    then err Error.mismatched_counts
    else ok (zip_offsets (map (shift_range txs_start) tx_ranges) receipt_ranges trace_ranges)
