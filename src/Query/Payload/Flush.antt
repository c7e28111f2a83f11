-- ===== src/Query/Payload/Flush.antt =====
-- The stage over all families.
use monad_services.Prelude.{
  ℕ, All, suc, ◌+◌, ◌<◌, ◌≡◌, refl, sym, ap, ◌∙◌, List, [], ◌∷◌, ◌++◌, length, length-append, arith,
  u64_mod, wrapping_add64, ok,
}
use monad_services.Query.Schema.{Family}
use monad_services.Query.Blobs.{Blobs}
use monad_services.Query.Tables.{
  AssignedBlock, StateIndex, PayloadTables, PerFamily, at_family, set_family,
}
use monad_services.Query.Payload.{
  Encoders, committed_id, number_rows, items_of_batch, rows_of, append_family, append_families,
  put_locations, put_all_locations, finish_payload, flush_payload,
}
use monad_services.Query.Payload.Log.{Represents, numbered, last_id}
use monad_services.Query.Payload.Append.{IsStorable}
use monad_services.Query.Payload.Refinement.{append_family-Represents}

-- The encoded items of a family in a batch, and that the IDs of its blocks follow each other from one on.
abbrev pub batch_rows : Encoders → Family → List AssignedBlock → List (List ℕ)
batch_rows e family [] = []
batch_rows e family (a ∷ blocks) = (rows_of e family a).1 ++ batch_rows e family blocks

abbrev pub Follows : Encoders → Family → ℕ → List AssignedBlock → Type 0
Follows e family n [] = Unit
Follows e family n (a ∷ blocks) =
    ((rows_of e family a).0 ≡ n) × Follows e family (n + length (rows_of e family a).1) blocks

number_rows-numbered :
    (first index : ℕ) (rows : List (List ℕ))
    → first + index + length rows < u64_mod
    → number_rows first index rows ≡ numbered (first + index) rows
number_rows-numbered first index [] h = refl
number_rows-numbered first index (x ∷ rows) h =
    let here : wrapping_add64 first index ≡ first + index = omega (arith, h) in
    let next : first + suc index ≡ suc (first + index) = omega arith in
    let ih = number_rows-numbered first (suc index) rows (omega (arith, h)) in
    ap (λ id. (id, x) ∷ number_rows first (suc index) rows) here
    ∙ ap (◌∷◌ (first + index, x)) (ih ∙ ap (λ n. numbered n rows) next)

numbered-append :
    (n : ℕ) (xs ys : List (List ℕ))
    → numbered n (xs ++ ys) ≡ numbered n xs ++ numbered (n + length xs) ys
numbered-append n [] ys = ap (λ m. numbered m ys) (omega arith)
numbered-append n (x ∷ xs) ys =
    let next : suc n + length xs ≡ n + suc (length xs) = omega arith in
    ap (◌∷◌ (n, x))
      (numbered-append (suc n) xs ys ∙ ap (λ m. numbered (suc n) xs ++ numbered m ys) next)

items_of_batch-numbered :
    (e : Encoders) (family : Family) (n : ℕ) (blocks : List AssignedBlock)
    → Follows e family n blocks
    → n + length (batch_rows e family blocks) < u64_mod
    → items_of_batch e family blocks ≡ numbered n (batch_rows e family blocks)
unfolding items_of_batch
items_of_batch-numbered e family n [] f h = refl
items_of_batch-numbered e family n (a ∷ blocks) f h =
    let rows = (rows_of e family a).1 in
    let rest = batch_rows e family blocks in
    let size = length-append rows rest in
    let plus : n + 0 ≡ n = omega arith in
    let here : number_rows (rows_of e family a).0 0 rows ≡ numbered n rows =
      ap (λ m. number_rows m 0 rows) f.0
      ∙ number_rows-numbered n 0 rows (omega (arith, h, size))
      ∙ ap (λ m. numbered m rows) plus in
    ap (λ l. l ++ items_of_batch e family blocks) here
    ∙ ap (◌++◌ (numbered n rows))
        (items_of_batch-numbered e family (n + length rows) blocks f.1 (omega (arith, h, size)))
    ∙ sym (numbered-append n rows rest)

module _ (e : Encoders) (compress : List ℕ → List ℕ) (state : StateIndex)
    (blocks : List AssignedBlock) where
  append_families-one :
      (family : Family) (rest : List Family) (tables final : PayloadTables) (after : Blobs)
      (rows : List (ℕ × ℕ)) (others : List (Family × List (ℕ × ℕ)))
      → append_family compress
          (items_of_batch e family blocks)
          (committed_id family state)
          (at_family family tables.locations)
          (at_family family tables.blobs)
        ≡ (after, ok rows)
      → append_families e compress rest state blocks
          (record tables { blobs = set_family family after tables.blobs })
        ≡ (final, ok others)
      → append_families e compress (family ∷ rest) state blocks tables
        ≡ (final, ok ((family, rows) ∷ others))
  unfolding append_families
  append_families-one family rest tables final after rows others one more = rw (one, more) refl

  append_families-none :
      (tables : PayloadTables) → append_families e compress [] state blocks tables ≡ (tables, ok [])
  unfolding append_families
  append_families-none tables = refl

-- A round of the loop, when the batch goes on after the committed items.
family_flush :
    (e : Encoders) (compress : List ℕ → List ℕ) (state : StateIndex) (blocks : List AssignedBlock)
    (tables : PayloadTables) (first : PerFamily ℕ) (old : PerFamily (List (List ℕ)))
    → ((f : Family)
        → Represents compress
            (at_family f first)
            (at_family f old)
            (at_family f tables.locations)
            (at_family f tables.blobs))
    → ((f : Family) → committed_id f state ≡ last_id (at_family f first) (at_family f old))
    → ((f : Family) → Follows e f (at_family f first + length (at_family f old)) blocks)
    → ((f : Family)
        → at_family f first + length (at_family f old) + length (batch_rows e f blocks) < u64_mod)
    → ((f : Family) → All IsStorable (batch_rows e f blocks))
    → (f : Family)
    → (after : Blobs) × (rows : List (ℕ × ℕ)) × (append_family compress
          (items_of_batch e f blocks)
          (committed_id f state)
          (at_family f tables.locations)
          (at_family f tables.blobs)
        ≡ (after, ok rows))
      × Represents compress
          (at_family f first)
          (at_family f old)
          (at_family f tables.locations)
          after
      × Represents compress
          (at_family f first)
          (at_family f old ++ batch_rows e f blocks)
          (put_locations rows (at_family f tables.locations))
          after
family_flush e compress state blocks tables first old before committed follows fits storable f =
    let n = at_family f first + length (at_family f old) in
    let locations = at_family f tables.locations in
    let blobs = at_family f tables.blobs in
    let (after, rows, done, kept, longer) =
      append_family-Represents compress (at_family f first) (at_family f old)
        (batch_rows e f blocks) locations blobs (before f) (storable f) in
    let items = items_of_batch-numbered e f n blocks (follows f) (fits f) in
    (
      after,
      rows,
      ap (λ l. append_family compress l (committed_id f state) locations blobs) items
          ∙ ap (λ c. append_family compress (numbered n (batch_rows e f blocks)) c locations blobs)
              (committed f)
          ∙ done,
      kept,
      longer,
    )

pub four_families {ℓ} :
    (P : Family → Type ℓ)
    → P Family.block_header
    → P Family.transaction
    → P Family.log
    → P Family.trace
    → (f : Family) → P f
four_families P h t l c Family.block_header = h
four_families P h t l c Family.transaction = t
four_families P h t l c Family.log = l
four_families P h t l c Family.trace = c

-- The stage over the four families, on tables that stand for their items so far: when the IDs of the batch go on
-- after the committed ones in each family and stay below 2 ^ 64, and no item has more than 128 MiB, it succeeds and adds the
-- batch's items.
pub flush_payload-Represents :
    (e : Encoders) (compress : List ℕ → List ℕ) (state : StateIndex) (blocks : List AssignedBlock)
    (tables : PayloadTables) (first : PerFamily ℕ) (old : PerFamily (List (List ℕ)))
    → ((f : Family)
        → Represents compress
            (at_family f first)
            (at_family f old)
            (at_family f tables.locations)
            (at_family f tables.blobs))
    → ((f : Family) → committed_id f state ≡ last_id (at_family f first) (at_family f old))
    → ((f : Family) → Follows e f (at_family f first + length (at_family f old)) blocks)
    → ((f : Family)
        → at_family f first + length (at_family f old) + length (batch_rows e f blocks) < u64_mod)
    → ((f : Family) → All IsStorable (batch_rows e f blocks))
    → (after : PayloadTables) × (flush_payload e compress state blocks tables ≡ (after, ok tt))
      × ((f : Family)
          → Represents compress
              (at_family f first)
              (at_family f old ++ batch_rows e f blocks)
              (at_family f after.locations)
              (at_family f after.blobs))
unfolding flush_payload
flush_payload-Represents e compress state blocks tables first old before committed follows fits
      storable =
    let H = Family.block_header in
    let T = Family.transaction in
    let L = Family.log in
    let C = Family.trace in
    let (b1, r1, e1, k1, g1) =
      family_flush e compress state blocks tables first old before committed follows fits storable
        H in
    let (b2, r2, e2, k2, g2) =
      family_flush e compress state blocks tables first old before committed follows fits storable
        T in
    let (b3, r3, e3, k3, g3) =
      family_flush e compress state blocks tables first old before committed follows fits storable
        L in
    let (b4, r4, e4, k4, g4) =
      family_flush e compress state blocks tables first old before committed follows fits storable
        C in
    let t1 : PayloadTables = record tables { blobs = set_family H b1 tables.blobs } in
    let t2 : PayloadTables = record t1 { blobs = set_family T b2 t1.blobs } in
    let t3 : PayloadTables = record t2 { blobs = set_family L b3 t2.blobs } in
    let t4 : PayloadTables = record t3 { blobs = set_family C b4 t3.blobs } in
    let all =
      append_families-one e compress state blocks H (T ∷ L ∷ C ∷ []) tables t4 b1 r1
        ((T, r2) ∷ (L, r3) ∷ (C, r4) ∷ []) e1
        (append_families-one e compress state blocks T (L ∷ C ∷ []) t1 t4 b2 r2
          ((L, r3) ∷ (C, r4) ∷ []) e2
          (append_families-one e compress state blocks L (C ∷ []) t2 t4 b3 r3 ((C, r4) ∷ []) e3 (
            append_families-one e compress state blocks C [] t3 t4 b4 r4 [] e4
              (append_families-none e compress state blocks t4)))) in
    let after : PayloadTables = record t4 {
      locations =
          put_all_locations e compress ((H, r1) ∷ (T, r2) ∷ (L, r3) ∷ (C, r4) ∷ [])
            tables.locations;
    } in
    (
      after,
      ap (finish_payload e compress) all,
      four_families
          (λ f.
            Represents compress (at_family f first) (at_family f old ++ batch_rows e f blocks)
              (at_family f after.locations) (at_family f after.blobs))
          g1 g2 g3 g4,
    )
