-- ===== src/Query/Payload.antt =====
-- crates/monad-query-write/src/payload.rs: the stage that appends the encoded items of a batch to the
-- blobs of their partitions. `Encoders` is the RLP of alloy for the stored items.
pub mod Log
pub mod Groups
pub mod Append
pub mod Rows
pub mod Appended
pub mod Refinement
pub mod Flush
mod Runs
use monad_services.Prelude.{
  ℕ, zero, suc, ◌+◌, ◌-◌, ◌≡◌, Bool, true, false, not, Option, none, some, List, [], ◌∷◌, ◌++◌,
  length, map, ◌==◌, if◌then◌else◌, wrapping_add64, Result, ok, err, ◌>>=◌,
}
use monad_services.Prelude.Map.{lookup, insert}
use monad_services.Query.Schema.{QueryError, Message, Family, partition_number}
use monad_services.Query.Items.{Header, StoredTxQueryItem, StoredLogQueryItem, StoredTraceQueryItem}
use monad_services.Query.Blobs.{Failure, Blobs, append_batch}
use monad_services.Query.Tables.{
  AssignedBlock, QueryWriterTx, StateIndex, PayloadTables, PerFamily, at_family, set_family,
  last_block_id,
}

pub record Encoders : Type 0 where
  pub header : Header → List ℕ
  pub tx : StoredTxQueryItem → List ℕ
  pub log : StoredLogQueryItem → List ℕ
  pub trace : StoredTraceQueryItem → List ℕ

abbrev pub families : List Family
families = Family.block_header ∷ Family.transaction ∷ Family.log ∷ Family.trace ∷ []

abbrev pub checked_pred : ℕ → Option ℕ
checked_pred n = if n == 0 then none else some (n - 1)

abbrev pub committed_id : Family → StateIndex → Option ℕ
committed_id Family.block_header state = last_block_id state
committed_id Family.transaction state = checked_pred state.next_tx_id
committed_id Family.log state = checked_pred state.next_log_id
committed_id Family.trace state = checked_pred state.next_trace_id

abbrev pub location_end : Option ℕ → Result Failure ℕ
location_end none =
    err (Failure.returned (QueryError.missing_data Message.missing_committed_location))
location_end (some end) = ok end

-- Where a partition's committed bytes end. Keys of one family are equal when the partitions are.
unfoldable pub committed_end : List (ℕ × ℕ) → Option ℕ → ℕ → Result Failure ℕ
committed_end locations none first = ok 0
committed_end locations (some committed) first =
    if partition_number committed == partition_number first
    then location_end (lookup committed locations)
    else ok 0

-- `enumerate`, and the IDs from the first on.
abbrev pub number_rows : ℕ → ℕ → List (List ℕ) → List (ℕ × List ℕ)
number_rows first index [] = []
number_rows first index (bytes ∷ rows) =
    (wrapping_add64 first index, bytes) ∷ number_rows first (suc index) rows

abbrev pub items_of : Option (List (ℕ × List ℕ)) → List (ℕ × List ℕ)
items_of none = []
items_of (some items) = items

-- `into_group_map`, by partition. The IDs ascend, so that the groups come in the order of the `BTreeMap`.
unfoldable pub group_items :
    List (ℕ × List (ℕ × List ℕ)) → List (ℕ × List ℕ) → List (ℕ × List (ℕ × List ℕ))
group_items groups [] = groups
group_items groups ((id, bytes) ∷ items) =
    let p = partition_number id in
    group_items (insert p (items_of (lookup p groups) ++ ((id, bytes) ∷ [])) groups) items

-- A group has an item, so that `expect` does not panic.
abbrev pub first_id : List (ℕ × List ℕ) → ℕ
first_id [] = 0
first_id ((id, bytes) ∷ items) = id

unfoldable pub with_ends :
    List (ℕ × ℕ)
    → Option ℕ
    → List (ℕ × List (ℕ × List ℕ))
    → Result Failure (List (ℕ × ℕ × List (List ℕ)))
with_ends locations committed [] = ok []
with_ends locations committed ((key, items) ∷ groups) =
    committed_end locations committed (first_id items) >>= λ end.
    with_ends locations committed groups >>= λ rest.
    ok ((key, end, map (λ item. item.1) items) ∷ rest)

abbrev pub zip_ends : List (ℕ × List ℕ) → List ℕ → List (ℕ × ℕ)
zip_ends ((id, bytes) ∷ items) (end ∷ ends) = (id, end) ∷ zip_ends items ends
zip_ends _ _ = []

-- The rows of locations, from the ends that `append_batch` returns.
unfoldable pub location_rows :
    List (ℕ × List (ℕ × List ℕ)) → List (ℕ × List ℕ) → Result Failure (List (ℕ × ℕ))
location_rows groups [] = ok []
location_rows groups ((key, ends) ∷ rest) =
    let items = items_of (lookup key groups) in
    if not (length items == length ends)
    then err (Failure.returned (QueryError.internal Message.mismatched_item_counts))
    else (location_rows groups rest >>= λ rows. ok (zip_ends items ends ++ rows))

unfoldable pub put_locations : List (ℕ × ℕ) → List (ℕ × ℕ) → List (ℕ × ℕ)
put_locations [] table = table
put_locations ((id, end) ∷ rows) table = put_locations rows (insert id end table)

-- What follows `append_batch`: blobs that were appended stay.
abbrev pub located :
    List (ℕ × List (ℕ × List ℕ))
    → Blobs
    → Result Failure (Blobs × List (ℕ × List ℕ))
    → Blobs × Result Failure (List (ℕ × ℕ))
located groups blobs (err failure) = (blobs, err failure)
located groups blobs (ok (appended, ends)) = (appended, location_rows groups ends)

-- A round of the loop over the families: the blobs after it, and the rows for the locations.
unfoldable pub append_family :
    (List ℕ → List ℕ)
    → List (ℕ × List ℕ)
    → Option ℕ
    → List (ℕ × ℕ)
    → Blobs
    → Blobs × Result Failure (List (ℕ × ℕ))
append_family compress items committed locations blobs =
    let groups = group_items [] items in
    located groups blobs
      (with_ends locations committed groups >>= λ prepared. append_batch compress blobs prepared)

abbrev pub log_rows : Encoders → List QueryWriterTx → List (List ℕ)
log_rows e [] = []
log_rows e (tx ∷ txs) = map e.log tx.logs ++ log_rows e txs

abbrev pub trace_rows : Encoders → List QueryWriterTx → List (List ℕ)
trace_rows e [] = []
trace_rows e (tx ∷ txs) = map e.trace tx.traces ++ trace_rows e txs

abbrev pub rows_of : Encoders → Family → AssignedBlock → ℕ × List (List ℕ)
rows_of e Family.block_header a = (a.block.header.number, e.header a.block.header ∷ [])
rows_of e Family.transaction a = (a.txs.first_primary_id, map (λ tx. e.tx tx.envelope) a.block.txs)
rows_of e Family.log a = (a.logs.first_primary_id, log_rows e a.block.txs)
rows_of e Family.trace a = (a.traces.first_primary_id, trace_rows e a.block.txs)

-- The items of a family in a batch, with their IDs.
unfoldable pub items_of_batch : Encoders → Family → List AssignedBlock → List (ℕ × List ℕ)
items_of_batch e family [] = []
items_of_batch e family (a ∷ blocks) =
    let rows = rows_of e family a in number_rows rows.0 0 rows.1 ++ items_of_batch e family blocks

-- What the loop has after a family, and after the others.
abbrev pub joined :
    Family
    → PayloadTables
    → Result Failure (List (ℕ × ℕ))
    → PayloadTables × Result Failure (List (Family × List (ℕ × ℕ)))
    → PayloadTables × Result Failure (List (Family × List (ℕ × ℕ)))
joined family kept (err failure) more = (kept, err failure)
joined family kept (ok rows) more = (more.0, more.1 >>= λ others. ok ((family, rows) ∷ others))

module _ (e : Encoders) (compress : List ℕ → List ℕ) where
  -- The loop over the families. A blob that was appended stays when a later family fails.
  unfoldable pub append_families :
      List Family
      → StateIndex
      → List AssignedBlock
      → PayloadTables
      → PayloadTables × Result Failure (List (Family × List (ℕ × ℕ)))
  append_families [] state blocks tables = (tables, ok [])
  append_families (family ∷ rest) state blocks tables =
      let one =
        append_family compress (items_of_batch e family blocks) (committed_id family state)
          (at_family family tables.locations) (at_family family tables.blobs) in
      let kept : PayloadTables = record tables { blobs = set_family family one.0 tables.blobs } in
      let more = append_families rest state blocks kept in joined family kept one.1 more

  abbrev pub put_all_locations :
      List (Family × List (ℕ × ℕ)) → PerFamily (List (ℕ × ℕ)) → PerFamily (List (ℕ × ℕ))
  put_all_locations [] all = all
  put_all_locations ((family, rows) ∷ rest) all =
      put_all_locations rest (set_family family (put_locations rows (at_family family all)) all)

  abbrev pub finish_payload :
      PayloadTables × Result Failure (List (Family × List (ℕ × ℕ)))
      → PayloadTables × Result Failure (Unit {0})
  finish_payload (tables, err failure) = (tables, err failure)
  finish_payload (tables, ok rows) =
      (record tables { locations = put_all_locations rows tables.locations }, ok tt)

  unfoldable pub flush_payload :
      StateIndex → List AssignedBlock → PayloadTables → PayloadTables × Result Failure (Unit {0})
  flush_payload state blocks tables = finish_payload (append_families families state blocks tables)
