-- ===== src/Query/Schema/Keys.antt =====
-- The keys of the bitmap and payload tables as bytes.
use monad_services.Prelude.{
  ℕ, ◌+◌, ◌-◌, ◌%◌, ◌<◌, ◌≤◌, ◌≡◌, ap, ◌∙◌, sym, List, ◌++◌, length, length-append, take-append,
  drop-append, ok, arith, u64_mod, u32_mod,
}
use monad_services.Query.Schema.{
  Family, BitmapFilterValue, encode_index_key, decode_index_key, encode_filter, to_be_bytes,
  from_be_bytes, encode_location_key, decode_location_key, encode_payload_key, decode_payload_key,
  from_id, items_per_blob, partition_number, partition_start,
}
use monad_services.Query.Schema.Bytes.{
  length-to_be_bytes, from_be_bytes-to_be_bytes, family_of_tag-family_tag,
}
use monad_services.Query.Schema.Filters.{IsSized, decode_filter-encode_filter}

length-encode_filter : (v : BitmapFilterValue) → 1 ≤ length (encode_filter v)
unfolding encode_filter
length-encode_filter (BitmapFilterValue.address value) = omega arith
length-encode_filter (BitmapFilterValue.from_address value) = omega arith
length-encode_filter (BitmapFilterValue.to_address value) = omega arith
length-encode_filter (BitmapFilterValue.miner value) = omega arith
length-encode_filter BitmapFilterValue.has_transfer = omega arith
length-encode_filter BitmapFilterValue.top_level = omega arith
length-encode_filter (BitmapFilterValue.selector value) = omega arith
length-encode_filter (BitmapFilterValue.topic0 value) = omega arith
length-encode_filter (BitmapFilterValue.topic1 value) = omega arith
length-encode_filter (BitmapFilterValue.topic2 value) = omega arith
length-encode_filter (BitmapFilterValue.topic3 value) = omega arith

-- A bitmap key (a filter value of the widths of its type, a page of 64 bits) is read back from its
-- bytes.
pub decode_index_key-encode_index_key :
    (family : Family) (filter : BitmapFilterValue) (page : ℕ)
    → IsSized filter
    → page < u64_mod
    → decode_index_key (encode_index_key (record { family = family; filter = filter; page = page }))
      ≡ ok (record { family = family; filter = filter; page = page })
unfolding decode_index_key encode_index_key
decode_index_key-encode_index_key family filter page s h =
    let sizes = length-append (encode_filter filter) (to_be_bytes 8 page) in
    let eight = length-to_be_bytes 8 page in
    let one = length-encode_filter filter in
    let tag = family_of_tag-family_tag family in
    let value = decode_filter-encode_filter filter s in
    let number = from_be_bytes-to_be_bytes 8 page h in
    let front : length (encode_filter filter ++ to_be_bytes 8 page) - 8
        ≡ length (encode_filter filter) =
      omega (arith, sizes, eight) in
    let taken = take-append (encode_filter filter) (to_be_bytes 8 page) in
    let dropped = drop-append (encode_filter filter) (to_be_bytes 8 page) in
    rw (front, taken, dropped, tag, value, number) (ground (arith, sizes, eight, one))

-- A payload location key (an ID of 64 bits) is read back from its 9 bytes.
pub decode_location_key-encode_location_key :
    (family : Family) (id : ℕ)
    → id < u64_mod
    → decode_location_key (encode_location_key (record { family = family; id = id }))
      ≡ ok (record { family = family; id = id })
unfolding decode_location_key encode_location_key
decode_location_key-encode_location_key family id h =
    let eight = length-to_be_bytes 8 id in
    let tag = family_of_tag-family_tag family in
    let number = from_be_bytes-to_be_bytes 8 id h in rw (eight, tag, number)

-- A payload key of less than 2 ^ 32 bytes is read back from its bytes.
pub decode_payload_key-encode_payload_key :
    (family : Family) (key : List ℕ)
    → length key < u32_mod
    → decode_payload_key (encode_payload_key (record { family = family; key = key }))
      ≡ ok (record { family = family; key = key })
unfolding decode_payload_key encode_payload_key
decode_payload_key-encode_payload_key family key h =
    let width = length key % u32_mod in
    let four = length-to_be_bytes 4 width in
    let sizes = length-append (to_be_bytes 4 width) key in
    let small : width ≡ length key = omega arith in
    let tag = family_of_tag-family_tag family in
    let number = from_be_bytes-to_be_bytes 4 width (omega arith) in
    let taken = rw four at (take-append (to_be_bytes 4 width) key) in
    let dropped = rw four at (drop-append (to_be_bytes 4 width) key) in
    rw (taken, dropped, tag, number) (ground (arith, sizes, four, small))

-- Two 64-bit IDs of a family have the same payload key exactly when they lie in the same partition
-- of 1024 IDs, the one that starts at `partition_start`.
pub from_id_iff :
    (family : Family) (a b : ℕ)
    → a < u64_mod
    → b < u64_mod
    → (from_id family a ≡ from_id family b
        → (partition_start b ≤ a) × (a < partition_start b + items_per_blob))
      × (partition_start b ≤ a
          → a < partition_start b + items_per_blob
          → from_id family a ≡ from_id family b)
unfolding from_id
from_id_iff family a b ha hb =
    let mine = from_be_bytes-to_be_bytes 8 (partition_number a) (omega arith) in
    let other = from_be_bytes-to_be_bytes 8 (partition_number b) (omega arith) in
    (
      λ e.
          let same : partition_number a ≡ partition_number b =
            sym mine ∙ ap (λ k. from_be_bytes k.key) e ∙ other in
          (omega (arith, same), omega (arith, same)),
      λ lo hi.
          let same : partition_number a ≡ partition_number b = omega (arith, lo, hi) in
          ap (λ n. record { family = family; key = to_be_bytes 8 n }) same,
    )
