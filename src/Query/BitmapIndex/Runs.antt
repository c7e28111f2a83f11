-- ===== src/Query/BitmapIndex/Runs.antt =====
-- The bitmap stage on small tables, with lists for bitmaps.
use monad_services.Prelude.{
  ℕ, and-both, ◌+◌, ◌<◌, ◌≡◌, refl, ap, subst, Bool, true, false, ◌&&◌, ◌||◌, Option, none, List,
  [], ◌∷◌, ◌++◌, length, ltb, ◌==◌, if◌then◌else◌, inl, arith, ok,
}
use monad_services.Prelude.KeyMap.{lookup_key, insert_key, put_all}
use monad_services.Query.Schema.{BitmapFilterValue, Family, encode_filter}
use monad_services.Query.Items.{Header}
use monad_services.Query.Tables.{QueryWriterFlushBatch, AssignedBlock, default_state}
use monad_services.Query.BitmapIndex.{
  RoaringBitmap, BitmapLaws, BitmapTables, Add, same_key, key_of, offset_of, kept, accumulate,
  flush_bitmap, batch_adds, committed_of,
}
use monad_services.Query.BitmapIndex.Keys.{same_key_sound, same_key_refl}
use monad_services.Query.BitmapIndex.Pages.{page_contains, flush_bitmap-contains, touched, added}
use monad_services.Query.BitmapIndex.Truth.{Indexes, Add-ext, flush_bitmap-Indexes}

abbrev holds : ℕ → List ℕ → Bool
holds o [] = false
holds o (x ∷ xs) = (x == o) || holds o xs

abbrev below : ℕ → List ℕ → List ℕ
below n [] = []
below n (x ∷ xs) = let rest = below n xs in if ltb x n then x ∷ rest else rest

abbrev lists : RoaringBitmap
lists = record {
  Bitmap = List ℕ;
  new = [];
  contains = holds;
  insert = λ n b. n ∷ b;
  remove_from = below;
  union = λ a b. a ++ b;
  len = λ b. length b;
}

holds-below : (o n : ℕ) (b : List ℕ) → holds o (below n b) ≡ (if ltb o n then holds o b else false)
holds-below o n [] = ground arith
holds-below o n (x ∷ xs) = ground (arith, holds-below o n xs)

holds-append : (o : ℕ) (a b : List ℕ) → holds o (a ++ b) ≡ (holds o a || holds o b)
holds-append o [] b = refl
holds-append o (x ∷ a) b = ground (arith, holds-append o a b)

lists_laws : BitmapLaws lists
lists_laws = record {
  contains_new = λ o. refl;
  contains_insert = λ o n b. refl;
  contains_remove_from = holds-below;
  contains_union = holds-append;
}

abbrev no_envelope : List ℕ → Option (Option (List ℕ) × Option (List ℕ))
no_envelope bytes = none

abbrev a_header : Header
a_header = record { number = 65537; parent_hash = 0; beneficiary = 9 ∷ []; contents = 0 }

abbrev a_block : AssignedBlock
a_block = record {
  block = record { header = a_header; txs = [] };
  logs = record { first_primary_id = 0; count = 0 };
  txs = record { first_primary_id = 0; count = 0 };
  traces = record { first_primary_id = 0; count = 0 };
}

abbrev a_batch : QueryWriterFlushBatch
a_batch = record { blocks = a_block ∷ []; state = default_state }

abbrev by_miner : ℕ → Add
by_miner id = record {
  family = Family.block_header;
  filter = BitmapFilterValue.miner (9 ∷ []);
  id = id;
}

-- The block before matches, and so does a later one, of a flush that failed.
abbrev old_tables : BitmapTables lists
old_tables = record {
  index =
      (key_of (by_miner 65536), record { id_start = 65536; id_end = 131072; bitmap = 0 ∷ 5 ∷ [] })
      ∷ [];
  stats = [];
}

one_block : flush_bitmap lists no_envelope a_batch old_tables ≡ (
  record {
    index =
        (key_of (by_miner 65536), record { id_start = 65536; id_end = 131072; bitmap = 0 ∷ 1 ∷ [] })
        ∷ [];
    stats = (key_of (by_miner 65536), 2) ∷ [];
  },
  ok tt,
)
unfolding flush_bitmap batch_adds accumulate kept lookup_key insert_key put_all encode_filter
one_block = refl

a_block_adds : batch_adds no_envelope a_batch.blocks ≡ ok (by_miner 65537 ∷ [])
unfolding batch_adds
a_block_adds = refl

flush_bitmap-contains_example :
    page_contains lists
      (flush_bitmap lists no_envelope a_batch old_tables).0.index
      (key_of (by_miner 65537))
      5
    ≡ (if touched (key_of (by_miner 65537)) (by_miner 65537 ∷ [])
        then ((if ltb
                ((key_of (by_miner 65537)).page + 5)
                (committed_of a_batch Family.block_header)
              then page_contains lists old_tables.index (key_of (by_miner 65537)) 5
              else false)
            || added (key_of (by_miner 65537)) 5 (by_miner 65537 ∷ []))
        else page_contains lists old_tables.index (key_of (by_miner 65537)) 5)
flush_bitmap-contains_example =
    flush_bitmap-contains lists lists_laws no_envelope a_batch old_tables (by_miner 65537 ∷ [])
      a_block_adds (key_of (by_miner 65537)) 5 (omega arith) (omega arith)

abbrev only : Add → Bool
only a = same_key (key_of a) (key_of (by_miner 65537)) && (offset_of a == 1)

only_inv : (a : Add) → only a ≡ true → a ≡ by_miner 65537
only_inv a m =
    let key = key_of (by_miner 65537) in
    let (keys, offsets) = and-both (same_key (key_of a) key) (offset_of a == 1) m in
    let offset : offset_of a ≡ 1 = ground (arith, offsets) in
    Add-ext (by_miner 65537) a (same_key_sound (key_of a) key keys) offset

only-by_miner : only (by_miner 65537) ≡ true
only-by_miner = ap (λ b. b && true) (same_key_refl (key_of (by_miner 65537)))

empty_tables : Indexes lists only (committed_of a_batch) []
unfolding lookup_key
empty_tables = record {
  sound = λ a fits h. absurd (ground (arith, h));
  complete = λ a fits lt m.
      let e = only_inv a m in
      let low : 65537 < committed_of a_batch Family.block_header =
        subst (λ b. b.id < committed_of a_batch b.family) e lt in
      absurd (omega (arith, low));
}

abbrev after_block : Family → ℕ
after_block Family.block_header = 65538
after_block family = 0

flush_bitmap-Indexes_example :
    Indexes lists only after_block
      (flush_bitmap lists no_envelope a_batch (record { index = []; stats = [] })).0.index
flush_bitmap-Indexes_example =
    flush_bitmap-Indexes lists lists_laws no_envelope a_batch (record { index = []; stats = [] })
      (by_miner 65537 ∷ []) a_block_adds only after_block empty_tables (only-by_miner, tt)
      (λ a ge lt m. inl (only_inv a m))
