-- ===== src/Query/Payload/Log.antt =====
-- What the payload tables of a family stand for: a sequence of items, numbered from a first ID on.
use monad_services.Prelude.{
  ℕ, suc, ◌+◌, ◌<◌, ◌≤◌, ◌≡◌, refl, sym, ap, ◌∙◌, Option, none, some, List, [], ◌∷◌, ◌++◌, length,
  take, take-length, append_assoc, ◌==◌, if◌then◌else◌, ok, arith, ==-cases, inl, inr,
}
use monad_services.Prelude.Map.{lookup}
use monad_services.Query.Schema.{partition_number}
use monad_services.Query.Blobs.{Blobs, bytes_or_empty}
use monad_services.Query.Payload.{committed_end}

-- The items with their IDs, and those of one partition.
abbrev pub numbered : ℕ → List (List ℕ) → List (ℕ × List ℕ)
numbered n [] = []
numbered n (x ∷ xs) = (n, x) ∷ numbered (suc n) xs

abbrev pub part : ℕ → ℕ → List (List ℕ) → List (ℕ × List ℕ)
part p n [] = []
part p n (x ∷ xs) =
    let rest = part p (suc n) xs in if partition_number n == p then (n, x) ∷ rest else rest

-- The ID of the last item, if there is one.
abbrev pub last_id : ℕ → List (List ℕ) → Option ℕ
last_id first [] = none
last_id first (x ∷ xs) = some (first + length xs)

module _ (compress : List ℕ → List ℕ) where
  abbrev pub cat : List (ℕ × List ℕ) → List ℕ
  cat [] = []
  cat ((id, x) ∷ items) = compress x ++ cat items

  -- The bytes of a partition.
  abbrev pub blob_of : ℕ → List (List ℕ) → ℕ → List ℕ
  blob_of n xs p = cat (part p n xs)

  -- A blob begins with the bytes of its partition, whatever may follow, and the location of each item is
  -- where the bytes of the items up to it end.
  pub record Represents (first : ℕ) (items : List (List ℕ)) (locations : List (ℕ × ℕ))
      (blobs : Blobs) : Type 0 where
    pub begins :
        (p : ℕ)
        → (rest : List ℕ) × (bytes_or_empty (lookup p blobs) ≡ blob_of first items p ++ rest)
    pub located_at :
        (k : ℕ)
        → k < length items
        → lookup (first + k) locations
          ≡ some (length (blob_of first (take (suc k) items) (partition_number (first + k))))

  pub cat-append : (xs ys : List (ℕ × List ℕ)) → cat (xs ++ ys) ≡ cat xs ++ cat ys
  cat-append [] ys = refl
  cat-append ((id, x) ∷ xs) ys =
      ap (◌++◌ (compress x)) (cat-append xs ys) ∙ sym (append_assoc (compress x) (cat xs) (cat ys))

  pub part-append :
      (p n : ℕ) (xs ys : List (List ℕ))
      → part p n (xs ++ ys) ≡ part p n xs ++ part p (n + length xs) ys
  part-append p n [] ys = ap (λ m. part p m ys) (omega arith)
  part-append p n (x ∷ xs) ys =
      let ih = part-append p (suc n) xs ys in
      let next : part p (suc n + length xs) ys ≡ part p (n + suc (length xs)) ys =
        ap (λ m. part p m ys) (omega arith) in
      elim (==-cases (partition_number n) p) [
        | inl (q, t) ↦ rw t (ap (◌∷◌ (n, x)) (ih ∙ ap (◌++◌ (part p (suc n) xs)) next))
        | inr (q, t) ↦ rw t (ih ∙ ap (◌++◌ (part p (suc n) xs)) next)
      ]

  pub blob_of-append :
      (n : ℕ) (xs ys : List (List ℕ)) (p : ℕ)
      → blob_of n (xs ++ ys) p ≡ blob_of n xs p ++ blob_of (n + length xs) ys p
  blob_of-append n xs ys p =
      ap cat (part-append p n xs ys) ∙ cat-append (part p n xs) (part p (n + length xs) ys)

  -- No item of a later partition comes before it.
  pub part-past :
      (p n last : ℕ) (xs : List (List ℕ))
      → n + length xs ≤ suc last
      → partition_number last < p
      → part p n xs ≡ []
  part-past p n last [] h lt = refl
  part-past p n last (x ∷ xs) h lt =
      let ih = part-past p (suc n) last xs (omega (arith, h)) lt in
      elim (==-cases (partition_number n) p) [
        | inl (q, t) ↦ absurd (omega (arith, h, lt, q))
        | inr (q, t) ↦ rw t ih
      ]

  -- For a new item, the committed bytes of its partition are those that the items have there.
  pub committed_end-blob_of :
      (first : ℕ) (items : List (List ℕ)) (locations : List (ℕ × ℕ)) (blobs : Blobs) (id : ℕ)
      → Represents first items locations blobs
      → first + length items ≤ id
      → committed_end locations (last_id first items) id
        ≡ ok (length (blob_of first items (partition_number id)))
  unfolding committed_end
  committed_end-blob_of first [] locations blobs id r h = refl
  committed_end-blob_of first (x ∷ xs) locations blobs id r h =
      elim (==-cases (partition_number (first + length xs)) (partition_number id)) [
        | inl (q, t) ↦
            let found = r.located_at (length xs) (omega arith) in
            rw (t, found)
              (ap ok (
                ap (λ l. length (blob_of first (x ∷ l) (partition_number (first + length xs))))
                  (take-length xs)
                ∙ ap (λ p. length (blob_of first (x ∷ xs) p)) q))
        | inr (q, t) ↦
            let none_there =
              part-past (partition_number id) first (first + length xs) (x ∷ xs) (omega arith)
                (omega (arith, q, h)) in
            rw t (ap (λ l. ok (length (cat l))) (sym none_there))
      ]
