-- ===== src/Query/Payload/Rows.antt =====
-- The rows of locations that a batch adds.
use monad_services.Prelude.{
  ℕ, suc, ◌+◌, ◌-◌, ◌≡◌, refl, sym, ap, ◌∙◌, Bool, true, false, some, List, [], ◌∷◌, ◌++◌, length,
  map, take, All, All-append, contains, append_assoc, append-nil, length-append, take-append, ◌==◌,
  ==-cases, ==-refl, ◌⊎◌, inl, inr, arith, if◌then◌else◌, ok,
}
use monad_services.Prelude.Map.{lookup, insert, keys, lookup-insert_self, lookup-insert_ne}
use monad_services.Query.Schema.{partition_number}
use monad_services.Query.Payload.{zip_ends, location_rows, put_locations}
use monad_services.Query.Payload.Log.{blob_of, blob_of-append, part, cat}
use monad_services.Query.Payload.Append.{grown_items, contents, ended_group, length-grown_items}

-- Rows that all have the ends their IDs call for.
pub lookup-put_locations :
    (target : ℕ → ℕ) (id : ℕ) (rows table : List (ℕ × ℕ))
    → All (λ row. row.1 ≡ target row.0) rows
    → (lookup id (put_locations rows table) ≡ some (target id))
      ⊎ ((contains id (keys rows) ≡ false)
          × (lookup id (put_locations rows table) ≡ lookup id table))
unfolding put_locations
lookup-put_locations target id [] table h = inr (refl, refl)
lookup-put_locations target id ((k, end) ∷ rows) table h =
    elim (lookup-put_locations target id rows (insert k end table) h.1) [
      | inl found ↦ inl found
      | inr (absent, same) ↦ elim (==-cases id k) [
        | inl (e, t) ↦ inl (
            same
            ∙ ap (λ j. lookup j (insert k end table)) e
            ∙ lookup-insert_self k end table
            ∙ ap some (h.0 ∙ ap target (sym e)))
        | inr (e, t) ↦ inr (rw t absent, same ∙ lookup-insert_ne k id end table (λ q. e (sym q)))
      ]
    ]

module _ (compress : List ℕ → List ℕ) (before : ℕ → List ℕ) where
  abbrev pub rows_of_group : ℕ × List (ℕ × List ℕ) → List (ℕ × ℕ)
  rows_of_group group =
      zip_ends group.1 (grown_items compress (before group.0) (contents group.1)).1

  abbrev pub rows_of_groups : List (ℕ × List (ℕ × List ℕ)) → List (ℕ × ℕ)
  rows_of_groups [] = []
  rows_of_groups (group ∷ groups) = rows_of_group group ++ rows_of_groups groups

  pub location_rows-groups :
      (all groups : List (ℕ × List (ℕ × List ℕ)))
      → All (λ group. lookup group.0 all ≡ some group.1) groups
      → location_rows all (map (ended_group compress before) groups) ≡ ok (rows_of_groups groups)
  unfolding location_rows
  location_rows-groups all [] h = refl
  location_rows-groups all ((k, items) ∷ groups) h =
      let ended = (grown_items compress (before k) (contents items)).1 in
      let same : (length items == length ended) ≡ true =
        ap (λ n. length items == n) (length-grown_items compress (before k) items)
        ∙ ==-refl (length items) in
      rw (h.0, same, location_rows-groups all groups h.1) refl

  pub All-rows_of_groups :
      (P : ℕ × ℕ → Type 0) (groups : List (ℕ × List (ℕ × List ℕ)))
      → All (λ group. All P (rows_of_group group)) groups
      → All P (rows_of_groups groups)
  All-rows_of_groups P [] h = tt
  All-rows_of_groups P (group ∷ groups) h =
      All-append P (rows_of_group group) (rows_of_groups groups) h.0
        (All-rows_of_groups P groups h.1)

pub keys-zip_ends :
    (items : List (ℕ × List ℕ)) (ends : List ℕ)
    → length ends ≡ length items
    → keys (zip_ends items ends) ≡ keys items
keys-zip_ends [] [] e = refl
keys-zip_ends [] (end ∷ ends) e = refl
keys-zip_ends ((id, x) ∷ items) [] e = absurd (omega (arith, e))
keys-zip_ends ((id, x) ∷ items) (end ∷ ends) e =
    ap (◌∷◌ id) (keys-zip_ends items ends (omega (arith, e)))

pub keys-append : (xs ys : List (ℕ × ℕ)) → keys (xs ++ ys) ≡ keys xs ++ keys ys
keys-append [] ys = refl
keys-append ((k, v) ∷ xs) ys = ap (◌∷◌ k) (keys-append xs ys)

-- The end of an item, from the items up to it.
abbrev pub end_at : (List ℕ → List ℕ) → ℕ → List (List ℕ) → ℕ → ℕ
end_at compress first all id =
    length (blob_of compress first (take (suc (id - first)) all) (partition_number id))

module _ (compress : List ℕ → List ℕ) (first : ℕ) where
  pub blob_of-snoc :
      (b : Bool) (done : List (List ℕ)) (x : List ℕ) (k : ℕ)
      → (partition_number (first + length done) == k) ≡ b
      → blob_of compress first (done ++ (x ∷ [])) k
        ≡ (if b then blob_of compress first done k ++ compress x else blob_of compress first done k)
  blob_of-snoc true done x k t =
      blob_of-append compress first done (x ∷ []) k
      ∙ ap
          (λ b.
            blob_of compress first done k
            ++ cat compress (if b then (first + length done, x) ∷ [] else []))
          t
      ∙ ap (◌++◌ (blob_of compress first done k)) (append-nil (compress x))
  blob_of-snoc false done x k t =
      blob_of-append compress first done (x ∷ []) k
      ∙ ap
          (λ b.
            blob_of compress first done k
            ++ cat compress (if b then (first + length done, x) ∷ [] else []))
          t
      ∙ append-nil (blob_of compress first done k)

  take-end_at :
      (all done : List (List ℕ)) (x : List ℕ) (xs : List (List ℕ))
      → (done ++ (x ∷ [])) ++ xs ≡ all
      → take (suc (first + length done - first)) all ≡ done ++ (x ∷ [])
  take-end_at all done x xs e =
      let n : suc (first + length done - first) ≡ length (done ++ (x ∷ [])) =
        omega (arith, length-append done (x ∷ [])) in
      ap (λ l. take (suc (first + length done - first)) l) (sym e)
      ∙ ap (λ m. take m ((done ++ (x ∷ [])) ++ xs)) n
      ∙ take-append (done ++ (x ∷ [])) xs

  -- The rows of a group end where the items up to each of them do.
  pub zip_ends-end_at :
      (all : List (List ℕ)) (k : ℕ) (xs done : List (List ℕ)) (n : ℕ) (bytes : List ℕ)
      → done ++ xs ≡ all
      → n ≡ first + length done
      → bytes ≡ blob_of compress first done k
      → All
          (λ row. row.1 ≡ end_at compress first all row.0)
          (zip_ends (part k n xs) (grown_items compress bytes (contents (part k n xs))).1)
  unfolding grown_items
  zip_ends-end_at all k [] done n bytes e at starts = tt
  zip_ends-end_at all k (x ∷ xs) done n bytes e at starts =
      let grown = done ++ (x ∷ []) in
      let whole : grown ++ xs ≡ all = append_assoc done (x ∷ []) xs ∙ e in
      let next : suc n ≡ first + length grown = omega (arith, at, length-append done (x ∷ [])) in
      elim (==-cases (partition_number n) k) [
        | inl (q, t) ↦
            let here : (partition_number (first + length done) == k) ≡ true =
              ap (λ m. partition_number m == k) (sym at) ∙ t in
            let longer : bytes ++ compress x ≡ blob_of compress first grown k =
              ap (λ b. b ++ compress x) starts ∙ sym (blob_of-snoc true done x k here) in
            rw t (
              ap length longer
                  ∙ ap (λ j. length (blob_of compress first grown j)) (sym q)
                  ∙ ap (λ l. length (blob_of compress first l (partition_number n)))
                      (sym (take-end_at all done x xs whole))
                  ∙ ap
                      (λ m.
                        length (
                          blob_of compress first (take (suc (m - first)) all) (partition_number n)))
                      (sym at),
              zip_ends-end_at all k xs grown (suc n) (bytes ++ compress x) whole next longer,
            )
        | inr (q, t) ↦
            let elsewhere : (partition_number (first + length done) == k) ≡ false =
              ap (λ m. partition_number m == k) (sym at) ∙ t in
            rw t (
              zip_ends-end_at all k xs grown (suc n) bytes whole next
                (starts ∙ sym (blob_of-snoc false done x k elsewhere)))
      ]
