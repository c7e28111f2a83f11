-- ===== src/Query/Payload/Refinement.antt =====
-- The payload stage against its specification: a sequence of items that a batch is added to.
use monad_services.Prelude.{
  ℕ, zero, suc, ◌+◌, ◌≤◌, ◌<◌, ◌≡◌, refl, sym, ap, ◌∙◌, subst, true, some, List, [], ◌∷◌, ◌++◌,
  length, take, All, contains, append-nil, length-append, Bool-cases, Option-cases, ltb, inl, inr,
  arith, ok,
}
use monad_services.Prelude.Map.{lookup, keys, All-lookup}
use monad_services.Query.Schema.{partition_number}
use monad_services.Query.Blobs.{Blobs, bytes_or_empty}
use monad_services.Query.Payload.{put_locations, append_family, items_of, zip_ends}
use monad_services.Query.Payload.Log.{
  Represents, blob_of, blob_of-append, part, numbered, last_id, cat,
}
use monad_services.Query.Payload.Append.{grown_items, IsStorable, contents}
use monad_services.Query.Payload.Rows.{
  lookup-put_locations, end_at, zip_ends-end_at, rows_of_group, All-rows_of_groups,
}
use monad_services.Query.Payload.Appended.{
  contains-part, contains-rows_of_groups, groups_of-Distinct, lookup-groups_of, new_groups,
  appended, new_rows, part_of_lookup, append_family-groups, lookup-appended,
}

take-within : (k : ℕ) (xs ys : List (List ℕ)) → k ≤ length xs → take k (xs ++ ys) ≡ take k xs
take-within zero xs ys h = refl
take-within (suc k) [] ys h = absurd (omega (arith, h))
take-within (suc k) (x ∷ xs) ys h = ap (◌∷◌ x) (take-within k xs ys (omega (arith, h)))

module _ (compress : List ℕ → List ℕ) (first : ℕ) (old new : List (List ℕ))
    (locations : List (ℕ × ℕ)) (blobs : Blobs) where
  new_rows-end_at :
      All
        (λ row. row.1 ≡ end_at compress first (old ++ new) row.0)
        (new_rows compress first old new locations blobs)
  new_rows-end_at =
      let G = new_groups compress first old new locations blobs in
      let n = first + length old in
      let before = blob_of compress first old in
      All-rows_of_groups compress before (λ row. row.1 ≡ end_at compress first (old ++ new) row.0) G
        (All-lookup
          (λ group.
            All (λ row. row.1 ≡ end_at compress first (old ++ new) row.0)
              (rows_of_group compress before group))
          G (groups_of-Distinct n new)
          (λ k items found.
            subst
              (λ l.
                All (λ row. row.1 ≡ end_at compress first (old ++ new) row.0)
                  (zip_ends l (grown_items compress (before k) (contents l)).1))
              (sym (part_of_lookup compress first old new locations blobs k items found))
              (zip_ends-end_at compress first (old ++ new) k new old n (before k) refl refl refl)))

  -- A new item has a row.
  new_rows-contains :
      (id : ℕ)
      → first + length old ≤ id
      → id < first + length old + length new
      → contains id (keys (new_rows compress first old new locations blobs)) ≡ true
  new_rows-contains id lo hi =
      let n = first + length old in
      let G = new_groups compress first old new locations blobs in
      let p = partition_number id in
      let there = contains-part id n new lo hi in
      let listed = lookup-groups_of p n new in
      elim (Option-cases (lookup p G)) [
        | inl missing ↦
            let empty : [] ≡ part p n new = ap items_of (sym missing) ∙ listed in
            absurd (ground (arith, there, ap (λ l. contains id (keys l)) empty))
        | inr (items, found) ↦
            contains-rows_of_groups compress (blob_of compress first old) id p items G found (
              ap (λ l. contains id (keys l))
                (part_of_lookup compress first old new locations blobs p items found)
              ∙ there)
      ]

  -- The locations before the rows are written still fit the appended blobs.
  Represents-old :
      Represents compress first old locations blobs
      → Represents compress first old locations (appended compress first old new locations blobs)
  Represents-old r = record {
    begins = λ p. elim (lookup-appended compress first old new locations blobs p) [
      | inl found ↦ (
        cat compress (part p (first + length old) new),
        ap bytes_or_empty found ∙ blob_of-append compress first old new p,
      )
      | inr (none_new, same) ↦ ((r.begins p).0, ap bytes_or_empty same ∙ (r.begins p).1)
    ];
    located_at = r.located_at;
  }

  pub Represents-new :
      Represents compress first old locations blobs
      → Represents compress first
          (old ++ new)
          (put_locations (new_rows compress first old new locations blobs) locations)
          (appended compress first old new locations blobs)
  Represents-new r =
      let rows = new_rows compress first old new locations blobs in
      record {
        begins = λ p. elim (lookup-appended compress first old new locations blobs p) [
          | inl found ↦ (
            [],
            ap bytes_or_empty found ∙ sym (append-nil (blob_of compress first (old ++ new) p)),
          )
          | inr (none_new, same) ↦ (
            (r.begins p).0,
            ap bytes_or_empty same ∙ (r.begins p).1 ∙ ap (λ b. b ++ (r.begins p).0) (sym none_new),
          )
        ];
        located_at = λ k h.
            elim (lookup-put_locations (end_at compress first (old ++ new)) (first + k) rows
              locations new_rows-end_at) [
                | inl found ↦
                    found
                    ∙ ap
                        (λ m. some (
                          length (
                            blob_of compress first (take (suc m) (old ++ new))
                              (partition_number (first + k)))))
                        (omega arith)
                | inr (absent, same) ↦ elim (Bool-cases (ltb k (length old))) [
                  | inl t ↦
                      let lt : k < length old = ground (arith, t) in
                      same
                      ∙ r.located_at k lt
                      ∙ ap
                          (λ l.
                            some (length (blob_of compress first l (partition_number (first + k)))))
                          (sym (take-within (suc k) old new (omega (arith, lt))))
                  | inr t ↦
                      let ge : length old ≤ k = ground (arith, t) in
                      let there =
                        new_rows-contains (first + k) (omega (arith, ge))
                          (omega (arith, ge, h, length-append old new)) in
                      absurd (ground (arith, absent, there))
                ]
              ];
      }

-- A batch of items of at most 128 MiB each, numbered after the items that the tables of a family stand
-- for, is appended to them: the stage succeeds, its blobs still fit the old locations, as a flush that fails later leaves
-- them, and with its rows written the tables stand for the longer sequence.
pub append_family-Represents :
    (compress : List ℕ → List ℕ) (first : ℕ) (old new : List (List ℕ)) (locations : List (ℕ × ℕ))
    (blobs : Blobs)
    → Represents compress first old locations blobs
    → All IsStorable new
    → (after : Blobs) × (rows : List (ℕ × ℕ)) × (append_family compress
          (numbered (first + length old) new)
          (last_id first old)
          locations
          blobs
        ≡ (after, ok rows))
      × Represents compress first old locations after
      × Represents compress first (old ++ new) (put_locations rows locations) after
append_family-Represents compress first old new locations blobs r h = (
  appended compress first old new locations blobs,
  new_rows compress first old new locations blobs,
  append_family-groups compress first old new locations blobs r h,
  Represents-old compress first old new locations blobs r,
  Represents-new compress first old new locations blobs r,
)
