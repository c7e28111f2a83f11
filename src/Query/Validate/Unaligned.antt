-- ===== src/Query/Validate/Unaligned.antt =====
-- The validator's bounds of the first item of tables that begin inside a partition.
use monad_services.Prelude.{
  ℕ, suc, ◌+◌, ◌-◌, ◌≤◌, ◌≡◌, ◌≢◌, refl, sym, ap, ◌∙◌, false, some, none, List, [], ◌∷◌, length,
  All, ◌==◌, ==-cases, ==-ne, inl, inr, arith, ok, err, subst,
}
use monad_services.Prelude.Map.{lookup, insert, lookup-insert_ne, All-lookup}
use monad_services.Query.Schema.{partition_number, partition_start}
use monad_services.Query.Blobs.{Blobs}
use monad_services.Query.Payload.{append_family, put_locations, zip_ends}
use monad_services.Query.Payload.Log.{Represents, blob_of, part, numbered}
use monad_services.Query.Payload.Append.{grown_items, IsStorable, contents}
use monad_services.Query.Payload.Rows.{All-rows_of_groups, rows_of_group}
use monad_services.Query.Payload.Appended.{
  new_groups, new_rows, appended, groups_of-Distinct, part_of_lookup, append_family-groups,
}
use monad_services.Query.Payload.Refinement.{Represents-new}
use monad_services.Query.Validate.{ValidateError, payload_bounds}

zip_ends-part-below :
    (p n low : ℕ) (xs : List (List ℕ)) (ends : List ℕ)
    → low ≤ n
    → All (λ row. low ≤ row.0) (zip_ends (part p n xs) ends)
zip_ends-part-below p n low [] ends h = tt
zip_ends-part-below p n low (x ∷ xs) [] h = elim (==-cases (partition_number n) p) [
  | inl (q, t) ↦ rw t tt
  | inr (q, t) ↦ rw t (zip_ends-part-below p (suc n) low xs [] (omega (arith, h)))
]
zip_ends-part-below p n low (x ∷ xs) (end ∷ ends) h = elim (==-cases (partition_number n) p) [
  | inl (q, t) ↦ rw t (h, zip_ends-part-below p (suc n) low xs ends (omega (arith, h)))
  | inr (q, t) ↦ rw t (zip_ends-part-below p (suc n) low xs (end ∷ ends) (omega (arith, h)))
]

lookup-put_locations-below :
    (id : ℕ) (rows table : List (ℕ × ℕ))
    → All (λ row. suc id ≤ row.0) rows
    → lookup id (put_locations rows table) ≡ lookup id table
unfolding put_locations
lookup-put_locations-below id [] table h = refl
lookup-put_locations-below id ((k, end) ∷ rows) table h =
    lookup-put_locations-below id rows (insert k end table) h.1
    ∙ lookup-insert_ne k id end table (λ e. omega (arith, e, h.0))

module _ (compress : List ℕ → List ℕ) (first : ℕ) (new : List (List ℕ)) where
  rows_past :
      (id : ℕ) → suc id ≤ first → All (λ row. suc id ≤ row.0) (new_rows compress first [] new [] [])
  rows_past id h =
      let n = first + 0 in
      let G = new_groups compress first [] new [] [] in
      All-rows_of_groups compress (blob_of compress first []) (λ row. suc id ≤ row.0) G
        (All-lookup
          (λ group.
            All (λ row. suc id ≤ row.0) (rows_of_group compress (blob_of compress first []) group))
          G (groups_of-Distinct n new)
          (λ k items found.
            let ends = (grown_items compress [] (contents items)).1 in
            subst (λ l. All (λ row. suc id ≤ row.0) (zip_ends l ends))
              (sym (part_of_lookup compress first [] new [] [] k items found))
              (zip_ends-part-below k n (suc id) new ends (omega (arith, h)))))

Represents-empty : (compress : List ℕ → List ℕ) (first : ℕ) → Represents compress first [] [] []
unfolding lookup
Represents-empty compress first = record {
  begins = λ p. ([], refl);
  located_at = λ k h. absurd (omega (arith, h));
}

-- When the first item of the tables is not the first of its partition, and no item has more than
-- 128 MiB, the stage writes it, and the validator
-- misses the location of the item before it, which no one has written.
pub payload_bounds-append_family-unaligned :
    (compress : List ℕ → List ℕ) (first : ℕ) (x : List ℕ) (new : List (List ℕ))
    → first ≢ partition_start first
    → All IsStorable (x ∷ new)
    → (after : Blobs) × (rows : List (ℕ × ℕ)) × (append_family compress
          (numbered first (x ∷ new))
          none
          []
          []
        ≡ (after, ok rows))
      × (payload_bounds (put_locations rows []) first ≡ err (ValidateError.missing_preceding first))
unfolding payload_bounds lookup
payload_bounds-append_family-unaligned compress first x new inside storable =
    let xs = x ∷ new in
    let r = Represents-empty compress first in
    let same : first + 0 ≡ first = omega arith in
    let rows = new_rows compress first [] xs [] [] in
    let t : (first == partition_start first) ≡ false = ==-ne first (partition_start first) inside in
    let here : lookup first (put_locations rows [])
        ≡ some (length (blob_of compress first (x ∷ []) (partition_number (first + 0)))) =
      ap (λ n. lookup n (put_locations rows [])) (sym same)
      ∙ (Represents-new compress first [] xs [] [] r).located_at 0 (omega arith) in
    let before : lookup (first - 1) (put_locations rows []) ≡ none =
      lookup-put_locations-below (first - 1) rows []
        (rows_past compress first xs (first - 1) (omega (arith, inside))) in
    (
      appended compress first [] xs [] [],
      rows,
      ap (λ n. append_family compress (numbered n xs) none [] []) (sym same)
          ∙ append_family-groups compress first [] xs [] [] r storable,
      rw (here, t, before) refl,
    )
