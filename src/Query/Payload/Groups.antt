-- ===== src/Query/Payload/Groups.antt =====
-- The groups that a numbered batch falls into.
use monad_services.Prelude.{
  ℕ, suc, ◌≤◌, ◌≡◌, refl, sym, ap, ◌∙◌, subst, some, List, [], ◌∷◌, ◌++◌, Distinct, append_assoc,
  append-nil, ==-cases, inl, inr, arith, if◌then◌else◌,
}
use monad_services.Prelude.Map.{
  lookup, insert, keys, lookup-insert, lookup-insert-some, insert-Distinct,
}
use monad_services.Query.Schema.{partition_number}
use monad_services.Query.Payload.{items_of, group_items}
use monad_services.Query.Payload.Log.{numbered, part}

-- A group is what its partition has of the batch.
pub group_items-part :
    (p n : ℕ) (xs : List (List ℕ)) (groups : List (ℕ × List (ℕ × List ℕ)))
    → items_of (lookup p (group_items groups (numbered n xs)))
      ≡ items_of (lookup p groups) ++ part p n xs
unfolding group_items
group_items-part p n [] groups = sym (append-nil (items_of (lookup p groups)))
group_items-part p n (x ∷ xs) groups =
    let q = partition_number n in
    let v = items_of (lookup q groups) ++ ((n, x) ∷ []) in
    let ih = group_items-part p (suc n) xs (insert q v groups) in
    let found = ap (λ l. items_of l ++ part p (suc n) xs) (lookup-insert q p v groups) in
    elim (==-cases q p) [
      | inl (e, t) ↦ rw t (
          ih
          ∙ found
          ∙ ap (λ b. items_of (if b then some v else lookup p groups) ++ part p (suc n) xs) t
          ∙ append_assoc (items_of (lookup q groups)) ((n, x) ∷ []) (part p (suc n) xs)
          ∙ ap (λ j. items_of (lookup j groups) ++ ((n, x) ∷ part p (suc n) xs)) e)
      | inr (e, t) ↦ rw t (
          ih
          ∙ found
          ∙ ap (λ b. items_of (if b then some v else lookup p groups) ++ part p (suc n) xs) t)
    ]

pub group_items-Distinct :
    (items : List (ℕ × List ℕ)) (groups : List (ℕ × List (ℕ × List ℕ)))
    → Distinct (keys groups)
    → Distinct (keys (group_items groups items))
unfolding group_items
group_items-Distinct [] groups d = d
group_items-Distinct ((id, x) ∷ items) groups d =
    let p = partition_number id in
    let v = items_of (lookup p groups) ++ ((id, x) ∷ []) in
    group_items-Distinct items (insert p v groups) (insert-Distinct p v groups d)

abbrev pub NonEmpty : List (ℕ × List ℕ) → Type 0
NonEmpty items = (id : ℕ) × (x : List ℕ) × (rest : List (ℕ × List ℕ)) × (items ≡ (id, x) ∷ rest)

snoc-NonEmpty :
    (items : List (ℕ × List ℕ)) (id : ℕ) (x : List ℕ) → NonEmpty (items ++ ((id, x) ∷ []))
snoc-NonEmpty [] id x = (id, x, [], refl)
snoc-NonEmpty ((i, y) ∷ items) id x = (i, y, items ++ ((id, x) ∷ []), refl)

pub group_items-NonEmpty :
    (items : List (ℕ × List ℕ)) (groups : List (ℕ × List (ℕ × List ℕ)))
    → ((p : ℕ) (group : List (ℕ × List ℕ)) → lookup p groups ≡ some group → NonEmpty group)
    → (p : ℕ) (group : List (ℕ × List ℕ)) → lookup p (group_items groups items) ≡ some group
    → NonEmpty group
unfolding group_items
group_items-NonEmpty [] groups h = h
group_items-NonEmpty ((id, x) ∷ items) groups h =
    let p = partition_number id in
    let old = items_of (lookup p groups) in
    let v = old ++ ((id, x) ∷ []) in
    group_items-NonEmpty items (insert p v groups) (λ q group found.
      elim (lookup-insert-some p q v group groups found) [
        | inl (e, same) ↦ subst NonEmpty same (snoc-NonEmpty old id x)
        | inr (e, before) ↦ h q group before
      ])

-- An item of a partition has an ID of the partition, and none before the first.
pub part-head :
    (p n : ℕ) (xs : List (List ℕ)) (id : ℕ) (x : List ℕ) (rest : List (ℕ × List ℕ))
    → part p n xs ≡ (id, x) ∷ rest
    → (partition_number id ≡ p) × (n ≤ id)
part-head p n [] id x rest e = cc
part-head p n (y ∷ xs) id x rest e = elim (==-cases (partition_number n) p) [
  | inl (q, t) ↦
      let heads : (n, y) ∷ part p (suc n) xs ≡ (id, x) ∷ rest = ground (arith, e, t) in
      let same : n ≡ id = cc in (ap partition_number (sym same) ∙ q, omega (arith, same))
  | inr (q, t) ↦
      let later : part p (suc n) xs ≡ (id, x) ∷ rest = ground (arith, e, t) in
      let ih = part-head p (suc n) xs id x rest later in (ih.0, omega (arith, ih.1))
]
