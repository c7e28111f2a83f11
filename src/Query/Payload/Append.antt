-- ===== src/Query/Payload/Append.antt =====
-- The groups of a batch, prepared, appended and written.
use monad_services.Prelude.{
  ℕ, suc, ◌≤◌, ◌≡◌, refl, sym, ap, ◌∙◌, false, Option, some, List, [], ◌∷◌, ◌++◌, length, map, All,
  contains, append_assoc, append-nil, length-append, take-append, ltb, ==-cases, ◌⊎◌, inl, inr,
  arith, ok,
}
use monad_services.Prelude.Map.{lookup, insert, keys, lookup-insert_self, lookup-insert_ne}
use monad_services.Query.Blobs.{
  Blobs, bytes_or_empty, max_payload_size, encode_item, append_items, prepare_append, prepare_batch,
  put_blobs, append_batch,
}
use monad_services.Query.Payload.{first_id, with_ends, committed_end}
use monad_services.Query.Payload.Log.{cat}

abbrev pub contents : List (ℕ × List ℕ) → List (List ℕ)
contents items = map (λ item. item.1) items

-- What `PayloadItem` can be encoded of.
abbrev pub IsStorable : List ℕ → Type 0
IsStorable item = length item ≤ max_payload_size

module _ (compress : List ℕ → List ℕ) where
  -- The bytes after items that can be encoded, and where each ends.
  unfoldable pub grown_items : List ℕ → List (List ℕ) → List ℕ × List ℕ
  grown_items bytes [] = (bytes, [])
  grown_items bytes (item ∷ items) =
      let grown = bytes ++ compress item in
      let rest = grown_items grown items in (rest.0, length grown ∷ rest.1)

  encode_item_ok :
      (item : List ℕ) → IsStorable item → encode_item compress item ≡ ok (compress item)
  unfolding encode_item
  encode_item_ok item h =
      let short : ltb max_payload_size (length item) ≡ false = ground (arith, h) in rw short refl

  append_items-grown_items :
      (bytes : List ℕ) (items : List (List ℕ))
      → All IsStorable items
      → append_items compress bytes items ≡ ok (grown_items bytes items)
  unfolding append_items grown_items
  append_items-grown_items bytes [] h = refl
  append_items-grown_items bytes (x ∷ items) h =
      rw (encode_item_ok x h.0, append_items-grown_items (bytes ++ compress x) items h.1) refl

  pub grown_items-cat :
      (bytes : List ℕ) (items : List (ℕ × List ℕ))
      → (grown_items bytes (contents items)).0 ≡ bytes ++ cat compress items
  unfolding grown_items
  grown_items-cat bytes [] = sym (append-nil bytes)
  grown_items-cat bytes ((id, x) ∷ items) =
      grown_items-cat (bytes ++ compress x) items
      ∙ append_assoc bytes (compress x) (cat compress items)

  pub length-grown_items :
      (bytes : List ℕ) (items : List (ℕ × List ℕ))
      → length (grown_items bytes (contents items)).1 ≡ length items
  unfolding grown_items
  length-grown_items bytes [] = refl
  length-grown_items bytes ((id, x) ∷ items) =
      ap suc (length-grown_items (bytes ++ compress x) items)

  -- The stages, for the committed bytes `before` of each partition.
  module _ (before : ℕ → List ℕ) where
    abbrev pub prepared_group : ℕ × List (ℕ × List ℕ) → ℕ × ℕ × List (List ℕ)
    prepared_group group = (group.0, length (before group.0), contents group.1)

    abbrev pub written_group : ℕ × List (ℕ × List ℕ) → ℕ × List ℕ
    written_group group = (group.0, (grown_items (before group.0) (contents group.1)).0)

    abbrev pub ended_group : ℕ × List (ℕ × List ℕ) → ℕ × List ℕ
    ended_group group = (group.0, (grown_items (before group.0) (contents group.1)).1)

    pub with_ends-prepared :
        (locations : List (ℕ × ℕ)) (committed : Option ℕ) (groups : List (ℕ × List (ℕ × List ℕ)))
        → All
            (λ group.
              committed_end locations committed (first_id group.1) ≡ ok (length (before group.0)))
            groups
        → with_ends locations committed groups ≡ ok (map prepared_group groups)
    unfolding with_ends
    with_ends-prepared locations committed [] h = refl
    with_ends-prepared locations committed ((k, items) ∷ groups) h =
        rw (h.0, with_ends-prepared locations committed groups h.1) refl

    pub prepare_append-before :
        (blobs : Blobs) (k : ℕ) (rest : List ℕ) (items : List (List ℕ))
        → bytes_or_empty (lookup k blobs) ≡ before k ++ rest
        → All IsStorable items
        → prepare_append compress blobs k (length (before k)) items
          ≡ ok (grown_items (before k) items)
    unfolding prepare_append
    prepare_append-before blobs k rest items e h =
        let long : ltb (length (before k ++ rest)) (length (before k)) ≡ false =
          ground (arith, length-append (before k) rest) in
        rw (e, long, take-append (before k) rest) (append_items-grown_items (before k) items h)

    pub prepare_batch-written :
        (blobs : Blobs) (groups : List (ℕ × List (ℕ × List ℕ)))
        → ((k : ℕ) → (rest : List ℕ) × (bytes_or_empty (lookup k blobs) ≡ before k ++ rest))
        → All (λ group. All IsStorable (contents group.1)) groups
        → prepare_batch compress blobs (map prepared_group groups)
          ≡ ok (map written_group groups, map ended_group groups)
    unfolding prepare_batch
    prepare_batch-written blobs [] begins h = refl
    prepare_batch-written blobs ((k, items) ∷ groups) begins h =
        rw
          (
            prepare_append-before blobs k (begins k).0 (contents items) (begins k).1 h.0,
            prepare_batch-written blobs groups begins h.1,
          )
          refl

    pub append_batch-written :
        (blobs : Blobs) (groups : List (ℕ × List (ℕ × List ℕ)))
        → ((k : ℕ) → (rest : List ℕ) × (bytes_or_empty (lookup k blobs) ≡ before k ++ rest))
        → All (λ group. All IsStorable (contents group.1)) groups
        → append_batch compress blobs (map prepared_group groups)
          ≡ ok (put_blobs (map written_group groups) blobs, map ended_group groups)
    unfolding append_batch
    append_batch-written blobs groups begins h =
        rw (prepare_batch-written blobs groups begins h) refl

-- Writes that all have the bytes their keys call for.
pub lookup-put_blobs :
    (target : ℕ → List ℕ) (p : ℕ) (writes : List (ℕ × List ℕ)) (blobs : Blobs)
    → All (λ w. w.1 ≡ target w.0) writes
    → (lookup p (put_blobs writes blobs) ≡ some (target p))
      ⊎ ((contains p (keys writes) ≡ false) × (lookup p (put_blobs writes blobs) ≡ lookup p blobs))
unfolding put_blobs
lookup-put_blobs target p [] blobs h = inr (refl, refl)
lookup-put_blobs target p ((k, bytes) ∷ writes) blobs h =
    elim (lookup-put_blobs target p writes (insert k bytes blobs) h.1) [
      | inl found ↦ inl found
      | inr (absent, same) ↦ elim (==-cases p k) [
        | inl (e, t) ↦ inl (
            same
            ∙ ap (λ j. lookup j (insert k bytes blobs)) e
            ∙ lookup-insert_self k bytes blobs
            ∙ ap some (h.0 ∙ ap target (sym e)))
        | inr (e, t) ↦ inr (rw t absent, same ∙ lookup-insert_ne k p bytes blobs (λ q. e (sym q)))
      ]
    ]
