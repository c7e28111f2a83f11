-- ===== src/Query/Payload/Runs.antt =====
-- The payload stage on small tables.
use monad_services.Prelude.{
  ℕ, zero, suc, ◌+◌, ◌<◌, ◌≡◌, refl, some, List, length, take, [], ◌∷◌, ◌++◌, ==-cases, inl, inr,
  arith, ok, err,
}
use monad_services.Prelude.Map.{lookup, insert}
use monad_services.Query.Schema.{QueryError, Message, partition_number}
use monad_services.Query.Blobs.{
  Failure, Blobs, put_blobs, encode_item, append_items, prepare_append, prepare_batch, append_batch,
}
use monad_services.Query.Payload.{
  append_family, group_items, with_ends, location_rows, put_locations, committed_end,
}
use monad_services.Query.Payload.Log.{Represents, blob_of, numbered, last_id}
use monad_services.Query.Payload.Refinement.{append_family-Represents}

abbrev plain : List ℕ → List ℕ
plain bytes = 7 ∷ bytes

-- An item at 1022, with bytes of a failed flush behind it.
abbrev old_blobs : Blobs
old_blobs = (0, 7 ∷ 1 ∷ 9 ∷ 9 ∷ []) ∷ []

abbrev new_items : List (List ℕ)
new_items = (2 ∷ []) ∷ (3 ∷ 4 ∷ []) ∷ []

-- The two items stand in two partitions, and the bytes that no location covers are gone.
append_two :
    append_family plain (numbered 1023 new_items) (some 1022) ((1022, 2) ∷ []) old_blobs
    ≡ ((0, 7 ∷ 1 ∷ 7 ∷ 2 ∷ []) ∷ (1, 7 ∷ 3 ∷ 4 ∷ []) ∷ [], ok ((1023, 4) ∷ (1024, 3) ∷ []))
unfolding append_family group_items with_ends location_rows committed_end append_batch prepare_batch
    prepare_append append_items encode_item put_blobs lookup insert
append_two = refl

-- The assertion on an item's size, at the limit itself and one byte above it.
encode_item_limit :
    (item : List ℕ)
    → (length item ≡ 134217728 → encode_item plain item ≡ ok (7 ∷ item))
      × (length item ≡ 134217729 → encode_item plain item ≡ err Failure.payload_exceeds_limit)
unfolding encode_item
encode_item_limit item = (λ e. ground (arith, e), λ e. ground (arith, e))

append_missing : append_family plain (numbered 1023 new_items) (some 1022) [] old_blobs ≡ (
  old_blobs,
  err (Failure.returned (QueryError.missing_data Message.missing_committed_location)),
)
unfolding append_family group_items with_ends committed_end lookup insert
append_missing = refl

abbrev old_locations : List (ℕ × ℕ)
old_locations = (1022, 2) ∷ []

abbrev old_items : List (List ℕ)
old_items = (1 ∷ []) ∷ []

old_end :
    (k : ℕ)
    → k < 1
    → lookup (1022 + k) old_locations
      ≡ some (length (blob_of plain 1022 (take (suc k) old_items) (partition_number (1022 + k))))
unfolding lookup
old_end zero h = refl
old_end (suc k) h = absurd (omega (arith, h))

old_tables : Represents plain 1022 old_items old_locations old_blobs
unfolding lookup
old_tables = record {
  begins = λ p. elim (==-cases 0 p) [
    | inl (q, t) ↦ (9 ∷ 9 ∷ [], rw t refl)
    | inr (q, t) ↦ ([], rw t refl)
  ];
  located_at = old_end;
}

append_family-Represents_example :
    (after : Blobs) × (rows : List (ℕ × ℕ)) × (append_family plain
        (numbered (1022 + 1) new_items)
        (last_id 1022 old_items)
        old_locations
        old_blobs
      ≡ (after, ok rows))
    × Represents plain 1022 old_items old_locations after
    × Represents plain 1022 (old_items ++ new_items) (put_locations rows old_locations) after
append_family-Represents_example =
    append_family-Represents plain 1022 old_items new_items old_locations old_blobs old_tables
      (omega arith, (omega arith, tt))
