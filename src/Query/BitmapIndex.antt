-- ===== src/Query/BitmapIndex.antt =====
-- crates/monad-query-write/src/bitmap_index.rs: the stage that adds the items of a batch to the bitmaps of
-- their filters, page by page. `RoaringBitmap` is the roaring crate's, and `decode_2718` alloy's decoder.
pub mod Keys
pub mod Pages
pub mod Truth
mod Runs
use monad_services.Prelude.{
  ℕ, zero, suc, ◌+◌, ◌-◌, ◌*◌, ◌/◌, ◌%◌, ◌≡◌, Bool, true, false, not, ◌&&◌, ◌||◌, Option, none,
  some, List, [], ◌∷◌, ◌++◌, map, same_bytes, ltb, leb, ◌==◌, if◌then◌else◌, u32_mod, u64_mod,
  wrapping_add64, saturating_add64, Result, ok, err, ◌>>=◌,
}
use monad_services.Prelude.KeyMap.{lookup_key, insert_key, put_all}
use monad_services.Query.Schema.{
  QueryError, Family, family_tag, BitmapFilterValue, encode_filter, BitmapIndexKey,
}
use monad_services.Query.Items.{
  StoredLogQueryItem, StoredTraceQueryItem, header_filters, tx_filters, log_filters, trace_filters,
  from_traces,
}
use monad_services.Query.Tables.{AssignedBlock, QueryWriterTx, QueryWriterFlushBatch}

-- What the stage uses of a bitmap of 32-bit numbers.
pub record RoaringBitmap : Type 1 where
  pub Bitmap : Type 0
  pub new : Bitmap
  pub contains : ℕ → Bitmap → Bool
  pub insert : ℕ → Bitmap → Bitmap
  pub remove_from : ℕ → Bitmap → Bitmap
  pub union : Bitmap → Bitmap → Bitmap
  pub len : Bitmap → ℕ

-- The documented contents of each: `remove_from n` is `remove_range(n..)`.
pub record BitmapLaws (R : RoaringBitmap) : Type 0 where
  pub contains_new : (o : ℕ) → R.contains o R.new ≡ false
  pub contains_insert :
      (o n : ℕ) (b : R.Bitmap) → R.contains o (R.insert n b) ≡ ((n == o) || R.contains o b)
  pub contains_remove_from :
      (o n : ℕ) (b : R.Bitmap)
      → R.contains o (R.remove_from n b) ≡ (if ltb o n then R.contains o b else false)
  pub contains_union :
      (o : ℕ) (a b : R.Bitmap) → R.contains o (R.union a b) ≡ (R.contains o a || R.contains o b)

abbrev pub page_span : ℕ
page_span = 64 * 1024

abbrev pub page_of : ℕ → ℕ
page_of id = id / page_span * page_span

-- The derived `Eq` of keys.
abbrev pub same_key : BitmapIndexKey → BitmapIndexKey → Bool
same_key a b =
    (family_tag a.family == family_tag b.family)
    && (same_bytes (encode_filter a.filter) (encode_filter b.filter) && (a.page == b.page))

-- A call of the closure `add`.
pub record Add : Type 0 where
  pub family : Family
  pub filter : BitmapFilterValue
  pub id : ℕ

abbrev pub add_all : Family → ℕ → List BitmapFilterValue → List Add
add_all family id filters =
    map (λ filter. record { family = family; filter = filter; id = id }) filters

-- The loops over a transaction's logs and traces, and the IDs after them.
abbrev pub log_adds : ℕ → List StoredLogQueryItem → List Add
log_adds id [] = []
log_adds id (log ∷ logs) =
    add_all Family.log id (log_filters log) ++ log_adds (wrapping_add64 id 1) logs

abbrev pub trace_adds : ℕ → List (StoredTraceQueryItem × Bool) → List Add
trace_adds id [] = []
trace_adds id (trace ∷ traces) =
    add_all Family.trace id (trace_filters trace) ++ trace_adds (wrapping_add64 id 1) traces

abbrev pub id_after {ℓ} : {A : Type ℓ} → ℕ → List A → ℕ
id_after id [] = id
id_after id (x ∷ xs) = id_after (wrapping_add64 id 1) xs

module _ (decode_2718 : List ℕ → Option (Option (List ℕ) × Option (List ℕ))) where
  abbrev pub tx_adds : ℕ → ℕ → ℕ → List QueryWriterTx → Result QueryError (List Add)
  tx_adds tx_id log_id trace_id [] = ok []
  tx_adds tx_id log_id trace_id (tx ∷ txs) =
      let traces = from_traces tx.traces in
      tx_filters decode_2718 tx.envelope >>= λ filters.
      tx_adds (wrapping_add64 tx_id 1) (id_after log_id tx.logs) (id_after trace_id traces) txs
      >>= λ rest. ok (
          add_all Family.transaction tx_id filters
          ++ (log_adds log_id tx.logs ++ (trace_adds trace_id traces ++ rest)))

  -- The calls of `add`, in order. One that fails ends the stage before it writes.
  unfoldable pub batch_adds : List AssignedBlock → Result QueryError (List Add)
  batch_adds [] = ok []
  batch_adds (a ∷ blocks) =
      tx_adds a.txs.first_primary_id a.logs.first_primary_id a.traces.first_primary_id a.block.txs
      >>= λ adds. batch_adds blocks >>= λ rest. ok (
          add_all Family.block_header a.block.header.number (header_filters a.block.header)
          ++ (adds ++ rest))

abbrev pub key_of : Add → BitmapIndexKey
key_of add = record { family = add.family; filter = add.filter; page = page_of add.id }

abbrev pub offset_of : Add → ℕ
offset_of add = (add.id - page_of add.id) % u32_mod

-- The first ID of a family that the batch is to write.
abbrev pub committed_of : QueryWriterFlushBatch → Family → ℕ
committed_of batch family = first_of family batch.blocks
  where
    first_of : Family → List AssignedBlock → ℕ
    first_of Family.block_header [] = 0
    first_of Family.transaction [] = batch.state.next_tx_id
    first_of Family.log [] = batch.state.next_log_id
    first_of Family.trace [] = batch.state.next_trace_id
    first_of Family.block_header (a ∷ _) = a.block.header.number
    first_of Family.transaction (a ∷ _) = a.txs.first_primary_id
    first_of Family.log (a ∷ _) = a.logs.first_primary_id
    first_of Family.trace (a ∷ _) = a.traces.first_primary_id

module _ (R : RoaringBitmap) where
  pub record BitmapIndexValue : Type 0 where
    pub id_start : ℕ
    pub id_end : ℕ
    pub bitmap : R.Bitmap

  -- `bitmap_index` and `bitmap_page_stats`. The stats' keys have the same fields.
  pub record BitmapTables : Type 0 where
    pub index : List (BitmapIndexKey × BitmapIndexValue)
    pub stats : List (BitmapIndexKey × ℕ)

  abbrev pub or_default : Option R.Bitmap → R.Bitmap
  or_default none = R.new
  or_default (some bitmap) = bitmap

  -- `pages`, after the calls of `add`.
  unfoldable pub accumulate :
      List (BitmapIndexKey × R.Bitmap) → List Add → List (BitmapIndexKey × R.Bitmap)
  accumulate pages [] = pages
  accumulate pages (add ∷ adds) =
      let key = key_of add in
      let bitmap = R.insert (offset_of add) (or_default (lookup_key same_key key pages)) in
      accumulate (insert_key same_key key bitmap pages) adds

  abbrev pub stored : Option BitmapIndexValue → R.Bitmap
  stored none = R.new
  stored (some value) = value.bitmap

  -- What a page keeps of its bitmap: the IDs before the batch.
  unfoldable pub kept : ℕ → ℕ → Option BitmapIndexValue → R.Bitmap
  kept committed page value =
      if leb committed page
      then R.new
      else if ltb committed (saturating_add64 page page_span)
      then R.remove_from ((committed - page) % u32_mod) (stored value)
      else stored value

  abbrev pub updated :
      (Family → ℕ)
      → List (BitmapIndexKey × BitmapIndexValue)
      → BitmapIndexKey
      → R.Bitmap
      → BitmapIndexValue
  updated committed index key pending = record {
    id_start = key.page;
    id_end = wrapping_add64 key.page page_span;
    bitmap = R.union (kept (committed key.family) key.page (lookup_key same_key key index)) pending;
  }

  abbrev pub index_writes :
      (Family → ℕ)
      → List (BitmapIndexKey × BitmapIndexValue)
      → List (BitmapIndexKey × R.Bitmap)
      → List (BitmapIndexKey × BitmapIndexValue)
  index_writes committed index pages =
      map (λ page. (page.0, updated committed index page.0 page.1)) pages

  -- A row for each bitmap that is not empty. They are written in the order of their keys, which differ.
  abbrev pub stats_writes : List (BitmapIndexKey × BitmapIndexValue) → List (BitmapIndexKey × ℕ)
  stats_writes [] = []
  stats_writes ((key, value) ∷ writes) =
      let rest = stats_writes writes in
      if R.len value.bitmap == 0 then rest else (key, R.len value.bitmap % u32_mod) ∷ rest

  abbrev pub write_pages :
      (Family → ℕ) → BitmapTables → List (BitmapIndexKey × R.Bitmap) → BitmapTables
  write_pages committed tables pages =
      let writes = index_writes committed tables.index pages in
      record {
        index = put_all same_key writes tables.index;
        stats = put_all same_key (stats_writes writes) tables.stats;
      }

  abbrev pub finish_bitmap :
      (Family → ℕ)
      → BitmapTables
      → Result QueryError (List Add)
      → BitmapTables × Result QueryError (Unit {0})
  finish_bitmap committed tables (err failure) = (tables, err failure)
  finish_bitmap committed tables (ok adds) =
      (write_pages committed tables (accumulate [] adds), ok tt)

  unfoldable pub flush_bitmap :
      (List ℕ → Option (Option (List ℕ) × Option (List ℕ)))
      → QueryWriterFlushBatch
      → BitmapTables
      → BitmapTables × Result QueryError (Unit {0})
  flush_bitmap decode_2718 batch tables =
      finish_bitmap (committed_of batch) tables (batch_adds decode_2718 batch.blocks)
