-- ===== src/Query/Payload/Appended.antt =====
-- The tables of a family after a batch: which bytes and rows the stage leaves in them.
use monad_services.Prelude.{
  ℕ, subst, All, suc, ◌+◌, ◌≤◌, ◌<◌, ◌≡◌, refl, sym, ap, ◌∙◌, true, false, ◌||◌, some, List, [],
  ◌∷◌, ◌++◌, length, map, All-map, Distinct, contains, contains-append, append-nil, ◌==◌, ==-cases,
  ==-refl, Bool-cases, ◌⊎◌, inl, inr, arith, ok, some-inj,
}
use monad_services.Prelude.Map.{lookup, keys, All-lookup, lookup_of_absent}
use monad_services.Query.Schema.{partition_number}
use monad_services.Query.Blobs.{Blobs, put_blobs}
use monad_services.Query.Payload.{items_of, group_items, append_family, committed_end, first_id}
use monad_services.Query.Payload.Log.{
  Represents, blob_of, blob_of-append, part, numbered, last_id, cat, committed_end-blob_of,
}
use monad_services.Query.Payload.Groups.{
  group_items-part, group_items-Distinct, group_items-NonEmpty, part-head, NonEmpty,
}
use monad_services.Query.Payload.Append.{
  grown_items, IsStorable, contents, written_group, with_ends-prepared, append_batch-written,
  lookup-put_blobs, length-grown_items, grown_items-cat,
}
use monad_services.Query.Payload.Rows.{
  rows_of_group, rows_of_groups, location_rows-groups, keys-zip_ends, keys-append,
}

-- Each part holds items of the batch.
part-IsStorable :
    (p n : ℕ) (xs : List (List ℕ)) → All IsStorable xs → All IsStorable (contents (part p n xs))
part-IsStorable p n [] h = tt
part-IsStorable p n (x ∷ xs) h = elim (Bool-cases (partition_number n == p)) [
  | inl t ↦ rw t (h.0, part-IsStorable p (suc n) xs h.1)
  | inr t ↦ rw t (part-IsStorable p (suc n) xs h.1)
]

-- Each item of the batch is in the part of its partition.
pub contains-part :
    (id n : ℕ) (xs : List (List ℕ))
    → n ≤ id
    → id < n + length xs
    → contains id (keys (part (partition_number id) n xs)) ≡ true
contains-part id n [] lo hi = absurd (omega (arith, lo, hi))
contains-part id n (x ∷ xs) lo hi = elim (==-cases id n) [
  | inl (p, t) ↦
      let same : (partition_number n == partition_number id) ≡ true =
        ap (λ j. partition_number j == partition_number id) (sym p)
        ∙ ==-refl (partition_number id) in
      rw (same, t) refl
  | inr (p, t) ↦
      let ih = contains-part id (suc n) xs (omega (arith, lo, p)) (omega (arith, hi)) in
      elim (Bool-cases (partition_number n == partition_number id)) [
        | inl u ↦ rw (u, t) ih
        | inr u ↦ rw u ih
      ]
]

pub contains-rows_of_groups :
    (compress : List ℕ → List ℕ) (before : ℕ → List ℕ) (id k : ℕ) (items : List (ℕ × List ℕ))
    (groups : List (ℕ × List (ℕ × List ℕ)))
    → lookup k groups ≡ some items
    → contains id (keys items) ≡ true
    → contains id (keys (rows_of_groups compress before groups)) ≡ true
unfolding lookup
contains-rows_of_groups compress before id k items [] found here = cc
contains-rows_of_groups compress before id k items ((j, other) ∷ groups) found here =
    let A = rows_of_group compress before (j, other) in
    let B = rows_of_groups compress before groups in
    let ended = (grown_items compress (before j) (contents other)).1 in
    let split = ap (contains id) (keys-append A B) ∙ contains-append id (keys A) (keys B) in
    elim (==-cases j k) [
      | inl (p, t) ↦
          let same : other ≡ items = some-inj (ground (arith, found, t)) in
          let in_a : contains id (keys A) ≡ true =
            ap (contains id)
              (keys-zip_ends other ended (length-grown_items compress (before j) other))
            ∙ ap (λ l. contains id (keys l)) same
            ∙ here in
          split ∙ ap (λ b. b || contains id (keys B)) in_a
      | inr (p, t) ↦
          let after : lookup k groups ≡ some items = ground (arith, found, t) in
          let ih = contains-rows_of_groups compress before id k items groups after here in
          split ∙ ground (arith, ih)
    ]

keys-map-written_group :
    (compress : List ℕ → List ℕ) (before : ℕ → List ℕ) (groups : List (ℕ × List (ℕ × List ℕ)))
    → keys (map (written_group compress before) groups) ≡ keys groups
keys-map-written_group compress before [] = refl
keys-map-written_group compress before ((k, items) ∷ groups) =
    ap (◌∷◌ k) (keys-map-written_group compress before groups)

abbrev pub groups_of : ℕ → List (List ℕ) → List (ℕ × List (ℕ × List ℕ))
groups_of n new = group_items [] (numbered n new)

pub groups_of-Distinct : (n : ℕ) (new : List (List ℕ)) → Distinct (keys (groups_of n new))
groups_of-Distinct n new = group_items-Distinct (numbered n new) [] tt

pub lookup-groups_of :
    (k n : ℕ) (new : List (List ℕ)) → items_of (lookup k (groups_of n new)) ≡ part k n new
unfolding lookup
lookup-groups_of k n new = group_items-part k n new []

pub groups_of-NonEmpty :
    (k n : ℕ) (new : List (List ℕ)) (items : List (ℕ × List ℕ))
    → lookup k (groups_of n new) ≡ some items
    → NonEmpty items
unfolding lookup
groups_of-NonEmpty k n new items found =
    group_items-NonEmpty (numbered n new) [] (λ p group e. absurd cc) k items found

module _ (compress : List ℕ → List ℕ) (first : ℕ) (old new : List (List ℕ))
    (locations : List (ℕ × ℕ)) (blobs : Blobs) where
  abbrev pub new_groups : List (ℕ × List (ℕ × List ℕ))
  new_groups = groups_of (first + length old) new

  abbrev pub appended : Blobs
  appended = put_blobs (map (written_group compress (blob_of compress first old)) new_groups) blobs

  abbrev pub new_rows : List (ℕ × ℕ)
  new_rows = rows_of_groups compress (blob_of compress first old) new_groups

  pub part_of_lookup :
      (k : ℕ) (items : List (ℕ × List ℕ))
      → lookup k new_groups ≡ some items
      → items ≡ part k (first + length old) new
  part_of_lookup k items found =
      ap items_of (sym found) ∙ lookup-groups_of k (first + length old) new

  -- The stage succeeds, with the groups' bytes and rows.
  pub append_family-groups :
      Represents compress first old locations blobs
      → All IsStorable new
      → append_family compress
          (numbered (first + length old) new)
          (last_id first old)
          locations
          blobs
        ≡ (appended, ok new_rows)
  unfolding append_family
  append_family-groups r storable =
      let before = blob_of compress first old in
      let n = first + length old in
      let d = groups_of-Distinct n new in
      let starts =
        All-lookup
          (λ group.
            committed_end locations (last_id first old) (first_id group.1)
            ≡ ok (length (before group.0)))
          new_groups d
          (λ k items found.
            let (id, x, rest, e) = groups_of-NonEmpty k n new items found in
            let head = part-head k n new id x rest (sym (part_of_lookup k items found) ∙ e) in
            ap (λ l. committed_end locations (last_id first old) (first_id l)) e
            ∙ committed_end-blob_of compress first old locations blobs id r head.1
            ∙ ap (λ j. ok (length (before j))) head.0) in
      let all_storable =
        All-lookup (λ group. All IsStorable (contents group.1)) new_groups d
          (λ k items found.
            subst (λ l. All IsStorable (contents l)) (sym (part_of_lookup k items found))
              (part-IsStorable k n new storable)) in
      let selves =
        All-lookup (λ group. lookup group.0 new_groups ≡ some group.1) new_groups d
          (λ k items found. found) in
      rw
        (
          with_ends-prepared compress before locations (last_id first old) new_groups starts,
          append_batch-written compress before blobs new_groups r.begins all_storable,
          location_rows-groups compress before new_groups new_groups selves,
        )
        refl

  -- A blob is rewritten to the bytes of its partition, or has nothing new.
  pub lookup-appended :
      (p : ℕ)
      → (lookup p appended ≡ some (blob_of compress first (old ++ new) p))
        ⊎ ((blob_of compress first (old ++ new) p ≡ blob_of compress first old p)
            × (lookup p appended ≡ lookup p blobs))
  lookup-appended p =
      let before = blob_of compress first old in
      let n = first + length old in
      let written =
        All-map (λ w. w.1 ≡ blob_of compress first (old ++ new) w.0) (written_group compress before)
          new_groups
          (All-lookup
            (λ group.
              (written_group compress before group).1 ≡ blob_of compress first (old ++ new) group.0)
            new_groups (groups_of-Distinct n new)
            (λ k items found.
              grown_items-cat compress (before k) items
              ∙ ap (λ l. before k ++ cat compress l) (part_of_lookup k items found)
              ∙ sym (blob_of-append compress first old new k))) in
      elim (lookup-put_blobs (blob_of compress first (old ++ new)) p
        (map (written_group compress before) new_groups) blobs written) [
          | inl found ↦ inl found
          | inr (absent, same) ↦
              let not_there : contains p (keys new_groups) ≡ false =
                ap (contains p) (sym (keys-map-written_group compress before new_groups))
                ∙ absent in
              let nothing : part p n new ≡ [] =
                sym (lookup-groups_of p n new)
                ∙ ap items_of (lookup_of_absent p new_groups not_there) in
              inr (
                blob_of-append compress first old new p
                    ∙ ap (λ l. before p ++ cat compress l) nothing
                    ∙ append-nil (before p),
                same,
              )
        ]
