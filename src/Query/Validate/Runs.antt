-- ===== src/Query/Validate/Runs.antt =====
-- The validator's bounds on small tables.
use monad_services.Prelude.{
  ℕ, false, ltb, if◌then◌else◌, subst, some-inj, zero, suc, ◌+◌, ◌<◌, ◌≡◌, refl, Option, some, none,
  List, [], ◌∷◌, length, take, get_elem?, ==-cases, inl, inr, arith, ok, err,
}
use monad_services.Prelude.Map.{lookup}
use monad_services.Query.Schema.{partition_number}
use monad_services.Query.Blobs.{Blobs, max_payload_size, get_many, new_boundaries}
use monad_services.Query.Payload.{append_family, put_locations}
use monad_services.Query.Payload.Append.{IsStorable}
use monad_services.Query.Payload.Log.{Represents, blob_of, numbered}
use monad_services.Query.Validate.{ValidateError, payload_bounds}
use monad_services.Query.Validate.Items.{payload_bounds-get_many}
use monad_services.Query.Validate.Unaligned.{payload_bounds-append_family-unaligned}

abbrev plain : List ℕ → List ℕ
plain bytes = 7 ∷ bytes

abbrev unplain : ℕ → List ℕ → Option (List ℕ)
unplain capacity [] = none
unplain capacity (magic ∷ bytes) = if ltb capacity (length bytes) then none else some bytes

unplain-plain : (x : List ℕ) → IsStorable x → unplain max_payload_size (plain x) ≡ some x
unplain-plain x h =
    let short : ltb max_payload_size (length x) ≡ false = ground (arith, h) in rw short refl

abbrev two_items : List (List ℕ)
two_items = (1 ∷ []) ∷ (2 ∷ 3 ∷ []) ∷ []

abbrev two_locations : List (ℕ × ℕ)
two_locations = (0, 2) ∷ (1, 5) ∷ []

abbrev one_blob : Blobs
one_blob = (0, 7 ∷ 1 ∷ 7 ∷ 2 ∷ 3 ∷ 9 ∷ []) ∷ []

two_ends :
    (k : ℕ)
    → k < 2
    → lookup (0 + k) two_locations
      ≡ some (length (blob_of plain 0 (take (suc k) two_items) (partition_number (0 + k))))
unfolding lookup
two_ends zero h = refl
two_ends (suc zero) h = refl
two_ends (suc (suc k)) h = absurd (omega (arith, h))

two_tables : Represents plain 0 two_items two_locations one_blob
unfolding lookup
two_tables = record {
  begins =
      λ p. elim (==-cases 0 p) [ inl (q, t) ↦ (9 ∷ [], rw t refl) | inr (q, t) ↦ ([], rw t refl) ];
  located_at = two_ends;
}

payload_bounds-get_many_example :
    (bounds : ℕ × ℕ) × (x : List ℕ) × (get_elem? two_items 1 ≡ some x)
    × (payload_bounds two_locations (0 + 1) ≡ ok bounds)
    × (new_boundaries (bounds ∷ []) ≡ ok (bounds ∷ []))
    × (get_many unplain (partition_number (0 + 1)) (bounds ∷ []) one_blob ≡ ok (some (x ∷ [])))
payload_bounds-get_many_example =
    payload_bounds-get_many plain unplain unplain-plain (λ x. omega arith) 0 two_items two_locations
      one_blob 1 two_tables (omega arith) (λ x e. subst IsStorable (some-inj e) (omega arith))
      (inr (omega arith))

payload_bounds-append_family-unaligned_example :
    (after : Blobs) × (rows : List (ℕ × ℕ)) × (append_family plain
        (numbered 1000 two_items)
        none
        []
        []
      ≡ (after, ok rows))
    × (payload_bounds (put_locations rows []) 1000 ≡ err (ValidateError.missing_preceding 1000))
payload_bounds-append_family-unaligned_example =
    payload_bounds-append_family-unaligned plain 1000 (1 ∷ []) ((2 ∷ 3 ∷ []) ∷ []) (omega arith)
      (omega arith, (omega arith, tt))
