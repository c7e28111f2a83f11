-- ===== src/Query/Schema.antt =====
-- crates/monad-query-schema and monad-query-types: record families, IDs, errors and the keys of the
-- query tables as bytes (`List ℕ`). Addresses and hashes are their bytes.
pub mod Bytes
pub mod Filters
pub mod Keys
mod Runs
use monad_services.Prelude.{
  ℕ, zero, suc, ◌+◌, ◌*◌, ◌-◌, ◌/◌, ◌%◌, ◌<◌, ◌≡◌, refl, Bool, true, false, Option, none, some,
  List, [], ◌∷◌, ◌++◌, length, take, drop, ltb, leb, ◌==◌, if◌then◌else◌, u64_mod, u32_mod,
  checked_add64, Result, ok, err, ◌>>=◌,
}

-- The messages that the errors carry.
pub data Message : Type 0 where
  empty_bitmap_filter_value invalid_filter_kind invalid_address invalid_from : Message
  invalid_selector invalid_to invalid_miner invalid_topic invalid_flag : Message
  invalid_bitmap_key invalid_family_tag invalid_location_key invalid_location : Message
  invalid_payload_key invalid_payload_key_length primary_id_overflow : Message
  invalid_state_columns invalid_state_number : Message
  block_number_overflow out_of_order not_extending already_contains_blocks : Message
  too_many_records transaction_id_overflow log_id_overflow trace_id_overflow : Message
  missing_block_hash invalid_envelope : Message
  invalid_blob_range blob_range_exceeds invalid_boundaries invalid_compressed : Message
  committed_exceeds_blob missing_committed_location mismatched_item_counts : Message

pub data QueryError : Type 0 where
  backend : ℕ → QueryError
  decoding internal invalid_request invalid_block missing_data : Message → QueryError

-- A `PrimaryId` is its number.
abbrev pub checked_add_id : ℕ → ℕ → Result QueryError ℕ
checked_add_id id rhs = elim (checked_add64 id rhs) [
  | some sum ↦ ok sum
  | none ↦ err (QueryError.decoding Message.primary_id_overflow)
]

pub data Family : Type 0 where
  block_header transaction log trace : Family

-- `u8::from(family)`
abbrev pub family_tag : Family → ℕ
family_tag Family.block_header = 0
family_tag Family.transaction = 1
family_tag Family.log = 2
family_tag Family.trace = 3

abbrev pub family_of_tag : ℕ → Result QueryError Family
family_of_tag tag =
    if tag == 0
    then ok Family.block_header
    else if tag == 1
    then ok Family.transaction
    else if tag == 2
    then ok Family.log
    else if tag == 3
    then ok Family.trace
    else err (QueryError.decoding Message.invalid_family_tag)

pub record FamilyMetadata : Type 0 where
  pub first_primary_id : ℕ
  pub count : ℕ

-- `to_be_bytes` of a number of `k` bytes, and `from_be_bytes`.
unfoldable pub to_be_bytes : ℕ → ℕ → List ℕ
to_be_bytes zero n = []
to_be_bytes (suc k) n = to_be_bytes k (n / 256) ++ (n % 256 ∷ [])

unfoldable pub be_loop : ℕ → List ℕ → ℕ
be_loop acc [] = acc
be_loop acc (b ∷ bs) = be_loop (acc * 256 + b) bs

abbrev pub from_be_bytes : List ℕ → ℕ
from_be_bytes bytes = be_loop 0 bytes

pub data BitmapFilterValue : Type 0 where
  address from_address to_address miner : List ℕ → BitmapFilterValue
  has_transfer top_level : BitmapFilterValue
  selector : List ℕ → BitmapFilterValue
  topic0 topic1 topic2 topic3 : List ℕ → BitmapFilterValue

pub data Kind : Type 0 where
  address from_address has_transfer selector to_address top_level : Kind
  topic0 topic1 topic2 topic3 miner : Kind

abbrev pub kind_tag : Kind → ℕ
kind_tag Kind.address = 0
kind_tag Kind.from_address = 1
kind_tag Kind.has_transfer = 2
kind_tag Kind.selector = 3
kind_tag Kind.to_address = 4
kind_tag Kind.top_level = 5
kind_tag Kind.topic0 = 6
kind_tag Kind.topic1 = 7
kind_tag Kind.topic2 = 8
kind_tag Kind.topic3 = 9
kind_tag Kind.miner = 10

unfoldable pub kind_of_tag : ℕ → Option Kind
kind_of_tag tag =
    if tag == 0
    then some Kind.address
    else if tag == 1
    then some Kind.from_address
    else if tag == 2
    then some Kind.has_transfer
    else if tag == 3
    then some Kind.selector
    else if tag == 4
    then some Kind.to_address
    else if tag == 5
    then some Kind.top_level
    else if tag == 6
    then some Kind.topic0
    else if tag == 7
    then some Kind.topic1
    else if tag == 8
    then some Kind.topic2
    else if tag == 9
    then some Kind.topic3
    else if tag == 10
    then some Kind.miner
    else none

unfoldable pub encode_filter : BitmapFilterValue → List ℕ
encode_filter (BitmapFilterValue.address value) = kind_tag Kind.address ∷ value
encode_filter (BitmapFilterValue.from_address value) = kind_tag Kind.from_address ∷ value
encode_filter (BitmapFilterValue.to_address value) = kind_tag Kind.to_address ∷ value
encode_filter (BitmapFilterValue.miner value) = kind_tag Kind.miner ∷ value
encode_filter BitmapFilterValue.has_transfer = kind_tag Kind.has_transfer ∷ []
encode_filter BitmapFilterValue.top_level = kind_tag Kind.top_level ∷ []
encode_filter (BitmapFilterValue.selector value) = kind_tag Kind.selector ∷ value
encode_filter (BitmapFilterValue.topic0 value) = kind_tag Kind.topic0 ∷ value
encode_filter (BitmapFilterValue.topic1 value) = kind_tag Kind.topic1 ∷ value
encode_filter (BitmapFilterValue.topic2 value) = kind_tag Kind.topic2 ∷ value
encode_filter (BitmapFilterValue.topic3 value) = kind_tag Kind.topic3 ∷ value

-- A body of exactly `width` bytes.
abbrev pub sized :
    ℕ → Message → (List ℕ → BitmapFilterValue) → List ℕ → Result QueryError BitmapFilterValue
sized width message value body =
    if length body == width then ok (value body) else err (QueryError.decoding message)

abbrev pub decode_topic :
    (List ℕ → BitmapFilterValue) → List ℕ → Result QueryError BitmapFilterValue
decode_topic value body = sized 32 Message.invalid_topic value body

abbrev pub decode_flag : List ℕ → BitmapFilterValue → Result QueryError BitmapFilterValue
decode_flag [] value = ok value
decode_flag (b ∷ bs) value = err (QueryError.decoding Message.invalid_flag)

unfoldable pub decode_body : Kind → List ℕ → Result QueryError BitmapFilterValue
decode_body Kind.address body = sized 20 Message.invalid_address BitmapFilterValue.address body
decode_body Kind.from_address body =
    sized 20 Message.invalid_from BitmapFilterValue.from_address body
decode_body Kind.has_transfer body = decode_flag body BitmapFilterValue.has_transfer
decode_body Kind.selector body = sized 4 Message.invalid_selector BitmapFilterValue.selector body
decode_body Kind.to_address body = sized 20 Message.invalid_to BitmapFilterValue.to_address body
decode_body Kind.top_level body = decode_flag body BitmapFilterValue.top_level
decode_body Kind.topic0 body = decode_topic BitmapFilterValue.topic0 body
decode_body Kind.topic1 body = decode_topic BitmapFilterValue.topic1 body
decode_body Kind.topic2 body = decode_topic BitmapFilterValue.topic2 body
decode_body Kind.topic3 body = decode_topic BitmapFilterValue.topic3 body
decode_body Kind.miner body = sized 20 Message.invalid_miner BitmapFilterValue.miner body

unfoldable pub decode_filter : List ℕ → Result QueryError BitmapFilterValue
decode_filter [] = err (QueryError.decoding Message.empty_bitmap_filter_value)
decode_filter (tag ∷ body) = elim (kind_of_tag tag) [
  | none ↦ err (QueryError.decoding Message.invalid_filter_kind)
  | some kind ↦ decode_body kind body
]

pub record BitmapIndexKey : Type 0 where
  pub family : Family
  pub filter : BitmapFilterValue
  pub page : ℕ

unfoldable pub encode_index_key : BitmapIndexKey → List ℕ
encode_index_key key = family_tag key.family ∷ (encode_filter key.filter ++ to_be_bytes 8 key.page)

unfoldable pub decode_index_key : List ℕ → Result QueryError BitmapIndexKey
decode_index_key [] = err (QueryError.decoding Message.invalid_bitmap_key)
decode_index_key (tag ∷ rest) =
    if ltb (suc (length rest)) 10
    then err (QueryError.decoding Message.invalid_bitmap_key)
    else (family_of_tag tag >>= λ family. decode_filter (take (length rest - 8) rest) >>= λ filter.
        ok (record {
          family = family;
          filter = filter;
          page = from_be_bytes (drop (length rest - 8) rest);
        }))

pub record PayloadLocationKey : Type 0 where
  pub family : Family
  pub id : ℕ

unfoldable pub encode_location_key : PayloadLocationKey → List ℕ
encode_location_key key = family_tag key.family ∷ to_be_bytes 8 key.id

unfoldable pub decode_location_key : List ℕ → Result QueryError PayloadLocationKey
decode_location_key [] = err (QueryError.decoding Message.invalid_location_key)
decode_location_key (tag ∷ rest) =
    if suc (length rest) == 9
    then (family_of_tag tag >>= λ family. ok (record { family = family; id = from_be_bytes rest }))
    else err (QueryError.decoding Message.invalid_location_key)

pub record PayloadKey : Type 0 where
  pub family : Family
  pub key : List ℕ

abbrev pub items_per_blob : ℕ
items_per_blob = 1024

unfoldable pub from_id : Family → ℕ → PayloadKey
from_id family id = record { family = family; key = to_be_bytes 8 (id / items_per_blob) }

abbrev pub partition_start : ℕ → ℕ
partition_start id = id / items_per_blob * items_per_blob

abbrev pub partition_number : ℕ → ℕ
partition_number id = id / items_per_blob

-- The length is cast to `u32`.
unfoldable pub encode_payload_key : PayloadKey → List ℕ
encode_payload_key key =
    family_tag key.family ∷ (to_be_bytes 4 (length key.key % u32_mod) ++ key.key)

unfoldable pub decode_payload_key : List ℕ → Result QueryError PayloadKey
decode_payload_key [] = err (QueryError.decoding Message.invalid_payload_key)
decode_payload_key (tag ∷ rest) =
    if ltb (suc (length rest)) 5
    then err (QueryError.decoding Message.invalid_payload_key)
    else if suc (length rest) == 5 + from_be_bytes (take 4 rest)
    then (family_of_tag tag >>= λ family. ok (record { family = family; key = drop 4 rest }))
    else err (QueryError.decoding Message.invalid_payload_key_length)
