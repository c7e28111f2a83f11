-- ===== src/Rpc/BlockBuffer/Heights.antt =====
-- The commit heights that tags resolve to.
use monad_services.Prelude.{ℕ, ◌≡◌, refl, inl, inr, List, [], ◌∷◌, ◌++◌, max, Bool-cases, arith}
use monad_services.Prelude.Map.{contains_key}
use monad_services.Rpc.BlockBuffer.Insert.{insert_all}
use monad_services.Rpc.BlockBuffer.{
  Header, Transaction, TransactionReceipt, BlockBuffer, EventServerEvent, BlockCommitState,
  bump_states, new, evict_block, evict, add_block, store_block, insert, returns_early,
}
use monad_services.Rpc.BlockBuffer.View.{BlockTags, resolve_block_height_from_tag}

evict_block-states : (h : ℕ) (b : BlockBuffer) → (evict_block h b).block_states ≡ b.block_states
unfolding evict_block
evict_block-states h b = ground arith

evict-states : (hs : List ℕ) (b : BlockBuffer) → (evict hs b).block_states ≡ b.block_states
unfolding evict
evict-states [] b = refl
evict-states (h ∷ hs) b =
    let ih = evict-states hs (evict_block h b) in ground (arith, ih, evict_block-states h b)

store_block-states :
    (header : Header) (ts : List (Transaction × TransactionReceipt)) (b : BlockBuffer)
    → (store_block header ts b).block_states ≡ b.block_states
unfolding store_block add_block
store_block-states header ts b =
    let e = evict-states (b.block_heights ++ (header.number ∷ [])) (add_block header ts b) in
    ground (arith, e)

-- The height that one event reports for a tag.
abbrev pub reported : BlockTags → EventServerEvent → ℕ
reported BlockTags.latest (EventServerEvent.block BlockCommitState.proposed header _) =
    header.number
reported BlockTags.safe (EventServerEvent.block BlockCommitState.voted header _) = header.number
reported BlockTags.finalized (EventServerEvent.block BlockCommitState.finalized header _) =
    header.number
reported _ _ = 0

-- The greatest height reported for a tag; a tag that is a number is that number.
abbrev pub newest : BlockTags → List EventServerEvent → ℕ
newest (BlockTags.number n) es = n
newest tag [] = 0
newest tag (e ∷ es) = max (reported tag e) (newest tag es)

insert-states :
    (b : BlockBuffer) (c : BlockCommitState) (header : Header)
    (ts : List (Transaction × TransactionReceipt))
    → (insert b (EventServerEvent.block c header ts)).block_states
      ≡ bump_states c header.number b.block_states
unfolding insert
insert-states b c header ts =
    elim (Bool-cases (returns_early c (contains_key header.hash b.block_height_by_hash))) [
      | inl back ↦ rw back
      | inr on ↦ rw on (store_block-states header ts _)
    ]

resolve-insert_block :
    (tag : BlockTags) (c : BlockCommitState) (b : BlockBuffer) (header : Header)
    (ts : List (Transaction × TransactionReceipt))
    → resolve_block_height_from_tag (insert b (EventServerEvent.block c header ts)) tag
      ≡ max
          (resolve_block_height_from_tag b tag)
          (reported tag (EventServerEvent.block c header ts))
unfolding resolve_block_height_from_tag bump_states
resolve-insert_block BlockTags.latest BlockCommitState.proposed b header ts =
    ground (arith, insert-states b BlockCommitState.proposed header ts)
resolve-insert_block _ c b header ts = ground (arith, insert-states b c header ts)

resolve-insert :
    (tag : BlockTags) (b : BlockBuffer) (e : EventServerEvent)
    → resolve_block_height_from_tag (insert b e) tag
      ≡ max (resolve_block_height_from_tag b tag) (reported tag e)
unfolding resolve_block_height_from_tag insert
resolve-insert BlockTags.latest b EventServerEvent.gap = omega arith
resolve-insert _ b EventServerEvent.gap = omega arith
resolve-insert tag b (EventServerEvent.block c header ts) = resolve-insert_block tag c b header ts

resolve-insert_all_from :
    (tag : BlockTags) (es : List EventServerEvent) (b : BlockBuffer)
    → resolve_block_height_from_tag (insert_all es b) tag
      ≡ max (resolve_block_height_from_tag b tag) (newest tag es)
unfolding resolve_block_height_from_tag
resolve-insert_all_from BlockTags.latest [] b = omega arith
resolve-insert_all_from _ [] b = omega arith
resolve-insert_all_from tag (e ∷ es) b =
    step tag e es b (resolve-insert_all_from tag es (insert b e)) (resolve-insert tag b e)
  where
    step :
        (tag : BlockTags) (e : EventServerEvent) (es : List EventServerEvent) (b : BlockBuffer)
        → resolve_block_height_from_tag (insert_all es (insert b e)) tag
          ≡ max (resolve_block_height_from_tag (insert b e) tag) (newest tag es)
        → resolve_block_height_from_tag (insert b e) tag
          ≡ max (resolve_block_height_from_tag b tag) (reported tag e)
        → resolve_block_height_from_tag (insert_all es (insert b e)) tag
          ≡ max (resolve_block_height_from_tag b tag) (newest tag (e ∷ es))
    step BlockTags.latest e es b p q = omega arith
    step _ e es b p q = omega arith

-- After any events, `Latest`, `Safe` and `Finalized` resolve to the greatest height proposed, voted
-- and finalized so far, also where blocks were not stored or have left the ring; a number resolves
-- to itself.
pub resolve-insert_all :
    (tag : BlockTags) (es : List EventServerEvent) (capacity : ℕ)
    → resolve_block_height_from_tag (insert_all es (new capacity)) tag ≡ newest tag es
unfolding resolve_block_height_from_tag new
resolve-insert_all BlockTags.latest es capacity =
    omega (arith, resolve-insert_all_from BlockTags.latest es (new capacity))
resolve-insert_all tag es capacity = omega (arith, resolve-insert_all_from tag es (new capacity))
