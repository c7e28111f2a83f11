-- ===== src/Query/Validate/Items.antt =====
-- The validator's bounds, on the tables that the writer leaves.
use monad_services.Prelude.{
  ℕ, zero, suc, ◌+◌, ◌-◌, ◌<◌, ◌≡◌, refl, sym, ap, ◌∙◌, true, false, Option, some, List, [], ◌∷◌,
  ◌++◌, length, take, drop, get_elem?, append_assoc, length-append, take-append, take-length,
  length-take, drop-append, ltb, leb, ◌==◌, ==-cases, ==-refl, ◌⊎◌, inl, inr, arith, ok,
  Option-cases,
}
use monad_services.Prelude.Map.{lookup}
use monad_services.Query.Schema.{partition_number, partition_start}
use monad_services.Query.Blobs.{
  Blobs, bytes_or_empty, max_payload_size, get_range, get_many, new_boundaries,
}
use monad_services.Query.Payload.Append.{IsStorable}
use monad_services.Query.Payload.Log.{Represents, blob_of, blob_of-append, part-past, cat}
use monad_services.Query.Payload.Rows.{blob_of-snoc}
use monad_services.Query.Validate.{payload_bounds, bounds_start}

split_at :
    (k : ℕ) (items : List (List ℕ))
    → k < length items
    → (x : List ℕ) × (get_elem? items k ≡ some x)
      × (take (suc k) items ≡ take k items ++ (x ∷ []))
      × (items ≡ (take k items ++ (x ∷ [])) ++ drop (suc k) items)
      × (length (take k items) ≡ k)
split_at k [] h = absurd (omega (arith, h))
split_at zero (x ∷ xs) h = (x, refl, refl, refl, refl)
split_at (suc k) (y ∷ xs) h =
    let (x, found, longer, whole, count) = split_at k xs (omega (arith, h)) in
    (x, found, ap (◌∷◌ y) longer, ap (◌∷◌ y) whole, ap suc count)

-- A part of a blob, by the bytes before and after it.
get_many-one :
    (decompress : ℕ → List ℕ → Option (List ℕ)) (p : ℕ) (front middle back x : List ℕ)
    (blobs : Blobs)
    → 0 < length middle
    → bytes_or_empty (lookup p blobs) ≡ (front ++ middle) ++ back
    → decompress max_payload_size middle ≡ some x
    → get_many decompress p ((length front, length (front ++ middle)) ∷ []) blobs
      ≡ ok (some (x ∷ []))
unfolding get_many get_range
get_many-one decompress p front middle back x blobs ne e d = elim (Option-cases (lookup p blobs)) [
  | inl missing ↦
      let empty : [] ≡ (front ++ middle) ++ back = ap bytes_or_empty (sym missing) ∙ e in
      absurd (
        omega (
          arith,
          ne,
          ap length empty,
          length-append (front ++ middle) back,
          length-append front middle,
        ))
  | inr (bytes, found) ↦
      let whole : bytes ≡ (front ++ middle) ++ back = ap bytes_or_empty (sym found) ∙ e in
      let total = length-append front middle in
      let size : length (front ++ middle) - length front ≡ length middle = omega (arith, total) in
      let none_before : length front - length front ≡ 0 = omega arith in
      let proper : leb (length (front ++ middle)) (length front) ≡ false =
        ground (arith, total, ne) in
      let within : ltb (length ((front ++ middle) ++ back)) (length (front ++ middle)) ≡ false =
        ground (arith, length-append (front ++ middle) back) in
      let cut : take (length (front ++ middle) - length front)
            (drop (length front) ((front ++ middle) ++ back))
          ≡ middle =
        ap (λ n. take n (drop (length front) ((front ++ middle) ++ back))) size
        ∙ ap (λ l. take (length middle) (drop (length front) l)) (append_assoc front middle back)
        ∙ ap (take (length middle)) (drop-append front (middle ++ back))
        ∙ take-append middle back in
      let all_of : take (length (front ++ middle) - length front)
            (drop (length front - length front) middle)
          ≡ middle =
        ap (λ n. take n (drop (length front - length front) middle)) size
        ∙ ap (λ n. take (length middle) (drop n middle)) none_before
        ∙ take-length middle in
      rw (proper, found ∙ ap some whole, within, cut, all_of, d) refl
]

-- Up to an item of a partition that is its first or not the first of all, the bounds start where the
-- partition's items before it end.
bounds_start-blob_of :
    (compress : List ℕ → List ℕ) (first : ℕ) (items : List (List ℕ)) (locations : List (ℕ × ℕ))
    (blobs : Blobs) (k : ℕ)
    → Represents compress first items locations blobs
    → k < length items
    → (first + k ≡ partition_start (first + k)) ⊎ (0 < k)
    → bounds_start locations (first + k)
      ≡ ok (length (blob_of compress first (take k items) (partition_number (first + k))))
bounds_start-blob_of compress first items locations blobs zero r h (inr lt) =
    absurd (omega (arith, lt))
bounds_start-blob_of compress first items locations blobs zero r h (inl q) =
    let t : (first + 0 == partition_start (first + 0)) ≡ true =
      ap (◌==◌ (first + 0)) (sym q) ∙ ==-refl (first + 0) in
    rw t refl
bounds_start-blob_of compress first items locations blobs (suc k) r h a =
    elim (==-cases (first + suc k) (partition_start (first + suc k))) [
      | inl (q, t) ↦
          let nothing =
            part-past compress (partition_number (first + suc k)) first (first + k)
              (take (suc k) items) (omega (arith, h, length-take (suc k) items (omega (arith, h))))
              (omega (arith, q)) in
          rw t (ap (λ l. ok (length (cat compress l))) (sym nothing))
      | inr (q, t) ↦
          let before : first + suc k - 1 ≡ first + k = omega arith in
          let same : partition_number (first + k) ≡ partition_number (first + suc k) =
            omega (arith, q) in
          rw (t, before, r.located_at k (omega (arith, h)))
            (ap (λ p. ok (length (blob_of compress first (take (suc k) items) p))) same)
    ]

-- In tables that stand for a sequence of items, an item is read back by the bounds that the
-- validator derives, whatever else its blob holds, under these conditions: it is the first of its
-- partition or not the first of all, it has at most 128 MiB, decompression to at most 128 MiB inverts
-- the compression of such items, and compressed bytes are not empty.
pub payload_bounds-get_many :
    (compress : List ℕ → List ℕ) (decompress : ℕ → List ℕ → Option (List ℕ))
    → ((x : List ℕ) → IsStorable x → decompress max_payload_size (compress x) ≡ some x)
    → ((x : List ℕ) → 0 < length (compress x))
    → (first : ℕ) (items : List (List ℕ)) (locations : List (ℕ × ℕ)) (blobs : Blobs) (k : ℕ)
    → Represents compress first items locations blobs
    → k < length items
    → ((x : List ℕ) → get_elem? items k ≡ some x → IsStorable x)
    → (first + k ≡ partition_start (first + k)) ⊎ (0 < k)
    → (bounds : ℕ × ℕ) × (x : List ℕ) × (get_elem? items k ≡ some x)
      × (payload_bounds locations (first + k) ≡ ok bounds)
      × (new_boundaries (bounds ∷ []) ≡ ok (bounds ∷ []))
      × (get_many decompress (partition_number (first + k)) (bounds ∷ []) blobs
          ≡ ok (some (x ∷ [])))
unfolding payload_bounds new_boundaries
payload_bounds-get_many compress decompress inverse non_empty first items locations blobs k r h
      storable a =
    let p = partition_number (first + k) in
    let (x, found, longer, whole, count) = split_at k items h in
    let front = blob_of compress first (take k items) p in
    let here : (partition_number (first + length (take k items)) == p) ≡ true =
      ap (λ n. partition_number (first + n) == p) count ∙ ==-refl p in
    let one : blob_of compress first (take k items ++ (x ∷ [])) p ≡ front ++ compress x =
      blob_of-snoc compress first true (take k items) x p here in
    let end_of : lookup (first + k) locations ≡ some (length (front ++ compress x)) =
      r.located_at k h
      ∙ ap (λ l. some (length (blob_of compress first l p))) longer
      ∙ ap (λ b. some (length b)) one in
    let ordered : ltb (length (front ++ compress x)) (length front) ≡ false =
      ground (arith, length-append front (compress x)) in
    let back =
      blob_of compress (first + length (take k items ++ (x ∷ []))) (drop (suc k) items) p in
    let rest = (r.begins p).0 in
    let bytes : bytes_or_empty (lookup p blobs) ≡ (front ++ compress x) ++ (back ++ rest) =
      (r.begins p).1
      ∙ ap (λ l. blob_of compress first l p ++ rest) whole
      ∙ ap (λ b. b ++ rest)
          (blob_of-append compress first (take k items ++ (x ∷ [])) (drop (suc k) items) p)
      ∙ ap (λ b. (b ++ back) ++ rest) one
      ∙ append_assoc (front ++ compress x) back rest in
    (
      (length front, length (front ++ compress x)),
      x,
      found,
      rw (end_of, bounds_start-blob_of compress first items locations blobs k r h a, ordered) refl,
      rw ordered refl,
      get_many-one decompress p front (compress x) (back ++ rest) x blobs (non_empty x) bytes
          (inverse x (storable x found)),
    )
