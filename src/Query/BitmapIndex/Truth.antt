-- ===== src/Query/BitmapIndex/Truth.antt =====
-- The bitmaps against the items that match each filter, of which they are an index.
use monad_services.Prelude.{
  ℕ, and-both, ◌+◌, ◌≤◌, ◌<◌, ◌≡◌, refl, sym, ap, ◌∙◌, Bool, true, false, ◌&&◌, ◌||◌, Option, List,
  [], ◌∷◌, ltb, ◌==◌, ==-refl, if◌then◌else◌, All, Bool-cases, inl, inr, ◌⊎◌, arith, u64_mod, ok,
}
use monad_services.Query.Schema.{BitmapIndexKey, Family}
use monad_services.Query.Tables.{QueryWriterFlushBatch}
use monad_services.Query.BitmapIndex.{
  RoaringBitmap, BitmapLaws, BitmapTables, BitmapIndexValue, Add, same_key, key_of, offset_of,
  page_span, page_of, flush_bitmap, batch_adds, committed_of,
}
use monad_services.Query.BitmapIndex.Keys.{same_key_sound, same_key_refl}
use monad_services.Query.BitmapIndex.Pages.{
  touched, added, page_contains, flush_bitmap-contains, or_true,
}

-- An add is one of a list.
abbrev pub IsIn : Add → List Add → Type 0
IsIn a [] = false ≡ true
IsIn a (b ∷ adds) = (a ≡ b) ⊎ IsIn a adds

or-either : (a b : Bool) → (a || b) ≡ true → (a ≡ true) ⊎ (b ≡ true)
or-either true b h = inl refl
or-either false b h = inr h

added-All :
    (P : Add → Type 0) (key : BitmapIndexKey) (o : ℕ) (adds : List Add)
    → All P adds
    → added key o adds ≡ true
    → (a : Add) × P a × (key_of a ≡ key) × (offset_of a ≡ o)
added-All P key o [] all h = absurd (ground (arith, h))
added-All P key o (a ∷ adds) all h =
    elim (or-either (same_key (key_of a) key && (offset_of a == o)) (added key o adds) h) [
      | inl here ↦
          let (keys, offsets) = and-both (same_key (key_of a) key) (offset_of a == o) here in
          (a, all.0, same_key_sound (key_of a) key keys, ground (arith, offsets))
      | inr later ↦ added-All P key o adds all.1 later
    ]

added_of_IsIn :
    (a : Add) (adds : List Add)
    → IsIn a adds
    → (touched (key_of a) adds ≡ true) × (added (key_of a) (offset_of a) adds ≡ true)
added_of_IsIn a [] h = absurd (ground (arith, h))
added_of_IsIn a (b ∷ adds) (inl e) =
    let t : same_key (key_of b) (key_of a) ≡ true =
      ap (λ c. same_key (key_of c) (key_of a)) (sym e) ∙ same_key_refl (key_of a) in
    let o : (offset_of b == offset_of a) ≡ true =
      ap (λ c. offset_of c == offset_of a) (sym e) ∙ ==-refl (offset_of a) in
    (
      ap (λ x. x || touched (key_of a) adds) t,
      ap (λ x. (x && (offset_of b == offset_of a)) || added (key_of a) (offset_of a) adds) t
          ∙ ap (λ x. x || added (key_of a) (offset_of a) adds) o,
    )
added_of_IsIn a (b ∷ adds) (inr h) =
    let (t, o) = added_of_IsIn a adds h in
    (
      ap (◌||◌ (same_key (key_of b) (key_of a))) t ∙ or_true (same_key (key_of b) (key_of a)),
      ap (◌||◌ (same_key (key_of b) (key_of a) && (offset_of b == offset_of a))) o
          ∙ or_true (same_key (key_of b) (key_of a) && (offset_of b == offset_of a)),
    )

offset_of-small : (a : Add) → offset_of a < page_span
offset_of-small a = omega arith

page_of-offset_of : (a : Add) → page_of a.id + offset_of a ≡ a.id
page_of-offset_of a = omega arith

pub Add-ext : (a b : Add) → key_of b ≡ key_of a → offset_of b ≡ offset_of a → b ≡ a
Add-ext a b keys offsets =
    let family : b.family ≡ a.family = ap (λ (k : BitmapIndexKey). k.family) keys in
    let filter : b.filter ≡ a.filter = ap (λ (k : BitmapIndexKey). k.filter) keys in
    let page : page_of b.id ≡ page_of a.id = ap (λ (k : BitmapIndexKey). k.page) keys in
    let id : b.id ≡ a.id =
      sym (page_of-offset_of b)
      ∙ ap (λ p. p + offset_of b) page
      ∙ ap (◌+◌ (page_of a.id)) offsets
      ∙ page_of-offset_of a in
    cc

module _ (R : RoaringBitmap) where
  -- Whether the bitmaps say that an item matches a filter.
  abbrev pub id_contains : List (BitmapIndexKey × BitmapIndexValue R) → Add → Bool
  id_contains index a = page_contains R index (key_of a) (offset_of a)

  -- The bitmaps list only items that match, and all of those before an ID of each family.
  pub record Indexes (matches : Add → Bool) (committed : Family → ℕ)
      (index : List (BitmapIndexKey × BitmapIndexValue R)) : Type 0 where
    pub sound :
        (a : Add) → a.id + page_span < u64_mod → id_contains index a ≡ true → matches a ≡ true
    pub complete :
        (a : Add)
        → a.id + page_span < u64_mod
        → a.id < committed a.family
        → matches a ≡ true
        → id_contains index a ≡ true

  id_contains-flush_bitmap :
      BitmapLaws R
      → (decode_2718 : List ℕ → Option (Option (List ℕ) × Option (List ℕ)))
      → (batch : QueryWriterFlushBatch) (tables : BitmapTables R) (adds : List Add)
      → batch_adds decode_2718 batch.blocks ≡ ok adds
      → (a : Add) → a.id + page_span < u64_mod
      → id_contains (flush_bitmap R decode_2718 batch tables).0.index a ≡ (
          if touched (key_of a) adds
          then ((if ltb a.id (committed_of batch a.family)
                then id_contains tables.index a
                else false)
              || added (key_of a) (offset_of a) adds)
          else id_contains tables.index a)
  id_contains-flush_bitmap laws decode_2718 batch tables adds decoded a fits =
      let small : page_of a.id + page_span < u64_mod = omega (arith, fits) in
      flush_bitmap-contains R laws decode_2718 batch tables adds decoded (key_of a) (offset_of a)
        (offset_of-small a) small
      ∙ ap
          (λ n.
            if touched (key_of a) adds
            then ((if ltb n (committed_of batch a.family)
                  then id_contains tables.index a
                  else false)
                || added (key_of a) (offset_of a) adds)
            else id_contains tables.index a)
          (page_of-offset_of a)

  -- Bitmaps that are a sound index of the matching items, complete up to the batch's first ID of
  -- each family, are one up to its end after the stage, for IDs below the last page of 64 bits:
  -- when the batch adds matching items only, and all those of its IDs. Bits that a failed flush
  -- has left do no harm if they match.
  pub flush_bitmap-Indexes :
      BitmapLaws R
      → (decode_2718 : List ℕ → Option (Option (List ℕ) × Option (List ℕ)))
      → (batch : QueryWriterFlushBatch) (tables : BitmapTables R) (adds : List Add)
      → batch_adds decode_2718 batch.blocks ≡ ok adds
      → (matches : Add → Bool) (next : Family → ℕ)
      → Indexes matches (committed_of batch) tables.index
      → All (λ a. matches a ≡ true) adds
      → ((a : Add)
          → committed_of batch a.family ≤ a.id
          → a.id < next a.family
          → matches a ≡ true
          → IsIn a adds)
      → Indexes matches next (flush_bitmap R decode_2718 batch tables).0.index
  flush_bitmap-Indexes laws decode_2718 batch tables adds decoded matches next before all listed =
      let index = tables.index in
      record {
        sound = λ a fits h.
            let after =
              id_contains-flush_bitmap laws decode_2718 batch tables adds decoded a fits in
            let old : Bool =
              if ltb a.id (committed_of batch a.family) then id_contains index a else false in
            let new = added (key_of a) (offset_of a) adds in
            let chosen : Bool → Bool = λ b. if b then (old || new) else id_contains index a in
            elim (Bool-cases (touched (key_of a) adds)) [
              | inr t ↦ before.sound a fits (sym (ap chosen t) ∙ sym after ∙ h)
              | inl t ↦ elim (or-either old new (sym (ap chosen t) ∙ sym after ∙ h)) [
                | inl kept ↦ elim (Bool-cases (ltb a.id (committed_of batch a.family))) [
                  | inl u ↦
                      before.sound a fits
                        (sym (ap (λ b. if b then id_contains index a else false) u) ∙ kept)
                  | inr u ↦
                      let no : false ≡ true =
                        sym (ap (λ b. if b then id_contains index a else false) u) ∙ kept in
                      absurd (ground (arith, no))
                ]
                | inr listed_here ↦
                    let (b, m, keys, offsets) =
                      added-All (λ b. matches b ≡ true) (key_of a) (offset_of a) adds all
                        listed_here in
                    ap matches (sym (Add-ext a b keys offsets)) ∙ m
              ]
            ];
        complete = λ a fits lt m.
            let after =
              id_contains-flush_bitmap laws decode_2718 batch tables adds decoded a fits in
            let old : Bool → Bool = λ b. if b then id_contains index a else false in
            let new = added (key_of a) (offset_of a) adds in
            let below = ltb a.id (committed_of batch a.family) in
            let chosen : Bool → Bool = λ b. if b then (old below || new) else id_contains index a in
            elim (Bool-cases below) [
              | inl u ↦
                  let earlier : a.id < committed_of batch a.family = ground (arith, u) in
                  let had = before.complete a fits earlier m in
                  elim (Bool-cases (touched (key_of a) adds)) [
                    | inl t ↦
                        after ∙ ap chosen t ∙ ap (λ b. old b || new) u ∙ ap (λ b. b || new) had
                    | inr t ↦ after ∙ ap chosen t ∙ had
                  ]
              | inr u ↦
                  let later : committed_of batch a.family ≤ a.id = ground (arith, u) in
                  let (t, there) = added_of_IsIn a adds (listed a later lt m) in
                  after ∙ ap chosen t ∙ ap (◌||◌ (old below)) there ∙ or_true (old below)
            ];
      }
