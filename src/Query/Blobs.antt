-- ===== src/Query/Blobs.antt =====
-- crates/monad-query-types/src/store/blob: blob tables and their partitioned form. A table is its blobs by
-- key, and a key is a number here: the partition's. `compress` and `decompress` are zstd's, which
-- `PayloadItem` of monad-query-schema/src/tables/payload/payload.rs is written and read with.
use monad_services.Prelude.{
  ℕ, ◌*◌, ◌-◌, Bool, false, ◌||◌, Option, none, some, List, [], ◌∷◌, ◌++◌, length, take, drop, ltb,
  leb, if◌then◌else◌, Result, ok, err, ◌>>=◌,
}
use monad_services.Prelude.Map.{lookup, insert}
use monad_services.Query.Schema.{QueryError, Message}

abbrev pub Blobs : Type 0
Blobs = List (ℕ × List ℕ)

-- mod.rs: the part of a blob that is there.
abbrev pub range_of_blob : ℕ → ℕ → Option (List ℕ) → Result QueryError (Option (List ℕ))
range_of_blob start end none = ok none
range_of_blob start end (some blob) =
    if ltb (length blob) end
    then err (QueryError.decoding Message.blob_range_exceeds)
    else ok (some (take (end - start) (drop start blob)))

unfoldable pub get_range : ℕ → ℕ → ℕ → Blobs → Result QueryError (Option (List ℕ))
get_range key start end blobs =
    if leb end start
    then err (QueryError.decoding Message.invalid_blob_range)
    else range_of_blob start end (lookup key blobs)

-- partition.rs. The tests of `PartitionItemBoundaries::new`.
abbrev pub any_inverted : List (ℕ × ℕ) → Bool
any_inverted [] = false
any_inverted ((start, end) ∷ rest) = ltb end start || any_inverted rest

abbrev pub any_overlap : List (ℕ × ℕ) → Bool
any_overlap [] = false
any_overlap (one ∷ []) = false
any_overlap ((start, end) ∷ (next_start, next_end) ∷ rest) =
    ltb next_start end || any_overlap ((next_start, next_end) ∷ rest)

unfoldable pub new_boundaries : List (ℕ × ℕ) → Result QueryError (List (ℕ × ℕ))
new_boundaries [] = err (QueryError.decoding Message.invalid_boundaries)
new_boundaries (first ∷ rest) =
    if any_inverted (first ∷ rest) || any_overlap (first ∷ rest)
    then err (QueryError.decoding Message.invalid_boundaries)
    else ok (first ∷ rest)

-- `range` of boundaries that are not empty.
abbrev pub last_end : ℕ → List (ℕ × ℕ) → ℕ
last_end end [] = end
last_end end ((start, next) ∷ rest) = last_end next rest

abbrev pub or_invalid : Option (List ℕ) → Result QueryError (List ℕ)
or_invalid none = err (QueryError.decoding Message.invalid_compressed)
or_invalid (some item) = ok item

-- tables/payload/payload.rs: 128 MiB.
abbrev pub max_payload_size : ℕ
max_payload_size = 128 * 1024 * 1024

-- `decompress` is given the capacity for what it returns.
module _ (decompress : ℕ → List ℕ → Option (List ℕ)) where
  abbrev pub decode_item : List ℕ → Result QueryError (List ℕ)
  decode_item bytes = or_invalid (decompress max_payload_size bytes)

  abbrev pub decode_items : ℕ → List ℕ → List (ℕ × ℕ) → Result QueryError (List (List ℕ))
  decode_items from bytes [] = ok []
  decode_items from bytes ((start, end) ∷ rest) =
      decode_item (take (end - start) (drop (start - from) bytes)) >>= λ item.
      decode_items from bytes rest >>= λ items. ok (item ∷ items)

  abbrev pub items_in :
      ℕ → List (ℕ × ℕ) → Option (List ℕ) → Result QueryError (Option (List (List ℕ)))
  items_in from boundaries none = ok none
  items_in from boundaries (some bytes) =
      decode_items from bytes boundaries >>= λ items. ok (some items)

  -- `get_many` of boundaries that `new_boundaries` has passed.
  unfoldable pub get_many : ℕ → List (ℕ × ℕ) → Blobs → Result QueryError (Option (List (List ℕ)))
  get_many key [] blobs = err (QueryError.decoding Message.invalid_boundaries)
  get_many key ((start, end) ∷ rest) blobs =
      get_range key start (last_end end rest) blobs >>= λ bytes.
      items_in start ((start, end) ∷ rest) bytes

abbrev pub bytes_or_empty : Option (List ℕ) → List ℕ
bytes_or_empty none = []
bytes_or_empty (some bytes) = bytes

-- How an append can fail: with an error that it returns, or, in `PayloadItem::encode`, with a panic,
-- which no caller gets as a value.
pub data Failure : Type 0 where
  returned : QueryError → Failure
  payload_exceeds_limit : Failure

-- The loop of `put_batch`.
unfoldable pub put_blobs : List (ℕ × List ℕ) → Blobs → Blobs
put_blobs [] blobs = blobs
put_blobs ((key, bytes) ∷ writes) blobs = put_blobs writes (insert key bytes blobs)

module _ (compress : List ℕ → List ℕ) where
  -- `PayloadItem::encode`, with its assertion.
  unfoldable pub encode_item : List ℕ → Result Failure (List ℕ)
  encode_item item =
      if ltb max_payload_size (length item)
      then err Failure.payload_exceeds_limit
      else ok (compress item)

  -- The loop of `prepare_append`: the bytes after the items, and where each item ends.
  unfoldable pub append_items : List ℕ → List (List ℕ) → Result Failure (List ℕ × List ℕ)
  append_items bytes [] = ok (bytes, [])
  append_items bytes (item ∷ items) = encode_item item >>= λ encoded.
      append_items (bytes ++ encoded) items >>= λ rest.
      ok (rest.0, length (bytes ++ encoded) ∷ rest.1)

  unfoldable pub prepare_append : Blobs → ℕ → ℕ → List (List ℕ) → Result Failure (List ℕ × List ℕ)
  prepare_append blobs key committed_end items =
      let bytes = bytes_or_empty (lookup key blobs) in
      if ltb (length bytes) committed_end
      then err (Failure.returned (QueryError.decoding Message.committed_exceeds_blob))
      else append_items (take committed_end bytes) items

  -- The loop of `append_batch`: what is to be written to each key, and the items' ends.
  unfoldable pub prepare_batch :
      Blobs → List (ℕ × ℕ × List (List ℕ)) → Result Failure (List (ℕ × List ℕ) × List (ℕ × List ℕ))
  prepare_batch blobs [] = ok ([], [])
  prepare_batch blobs ((key, committed_end, items) ∷ rest) =
      prepare_append blobs key committed_end items >>= λ one.
      prepare_batch blobs rest >>= λ more. ok ((key, one.0) ∷ more.0, (key, one.1) ∷ more.1)

  -- With the blobs after `put_batch`.
  unfoldable pub append_batch :
      Blobs → List (ℕ × ℕ × List (List ℕ)) → Result Failure (Blobs × List (ℕ × List ℕ))
  append_batch blobs groups =
      prepare_batch blobs groups >>= λ prepared. ok (put_blobs prepared.0 blobs, prepared.1)
