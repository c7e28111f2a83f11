-- ===== src/Query/BitmapIndex/Pages.antt =====
-- The pages that a batch changes, and what their bitmaps contain.
use monad_services.Prelude.{
  ℕ, ◌+◌, ◌-◌, ◌%◌, ◌<◌, ◌≡◌, refl, sym, ap, ◌∙◌, Bool, true, false, ◌&&◌, ◌||◌, Option, none, some,
  List, [], ◌∷◌, ltb, leb, ◌==◌, if◌then◌else◌, All-map, Bool-cases, inl, inr, arith, u32_mod,
  u64_mod, saturating_add64, ok,
}
use monad_services.Prelude.KeyMap.{
  lookup_key, insert_key, put_all, OneEach, lookup_key-insert_key, insert_key-OneEach,
  All-lookup_key, lookup_key-put_all, written_or,
}
use monad_services.Query.Schema.{BitmapIndexKey, Family}
use monad_services.Query.Tables.{QueryWriterFlushBatch}
use monad_services.Query.BitmapIndex.{
  RoaringBitmap, BitmapLaws, BitmapTables, BitmapIndexValue, Add, same_key, key_of, offset_of,
  page_span, or_default, accumulate, stored, kept, updated, index_writes, flush_bitmap, batch_adds,
  committed_of,
}
use monad_services.Query.BitmapIndex.Keys.{same_key_sound, same_key_refl}

-- Whether an add falls in a page, and whether it is of an offset there.
abbrev pub touched : BitmapIndexKey → List Add → Bool
touched key [] = false
touched key (add ∷ adds) = same_key (key_of add) key || touched key adds

abbrev pub added : BitmapIndexKey → ℕ → List Add → Bool
added key o [] = false
added key o (add ∷ adds) = (same_key (key_of add) key && (offset_of add == o)) || added key o adds

abbrev is_some {ℓ} : {A : Type ℓ} → Option A → Bool
is_some none = false
is_some (some _) = true

or_swap : (a b c : Bool) → ((a || b) || c) ≡ (b || (a || c))
or_swap true true c = refl
or_swap true false c = refl
or_swap false true c = refl
or_swap false false c = refl

pub or_true : (a : Bool) → (a || true) ≡ true
or_true true = refl
or_true false = refl

or_false : (a : Bool) → a ≡ (a || false)
or_false true = refl
or_false false = refl

written_or-is_some {κ μ} :
    {V : Type κ} {W : Type μ} (found : Option W) (new : V) (old : Option V)
    → written_or found new old ≡ (if is_some found then some new else old)
written_or-is_some none new old = refl
written_or-is_some (some _) new old = refl

module _ (R : RoaringBitmap) where
  accumulate-OneEach :
      (adds : List Add) (pages : List (BitmapIndexKey × R.Bitmap))
      → OneEach same_key pages
      → OneEach same_key (accumulate R pages adds)
  unfolding accumulate
  accumulate-OneEach [] pages d = d
  accumulate-OneEach (add ∷ adds) pages d =
      let key = key_of add in
      let bitmap = R.insert (offset_of add) (or_default R (lookup_key same_key key pages)) in
      accumulate-OneEach adds (insert_key same_key key bitmap pages)
        (insert_key-OneEach same_key same_key_sound same_key_refl key bitmap pages d)

  accumulate-touched :
      (key : BitmapIndexKey) (adds : List Add) (pages : List (BitmapIndexKey × R.Bitmap))
      → is_some (lookup_key same_key key (accumulate R pages adds))
        ≡ (is_some (lookup_key same_key key pages) || touched key adds)
  unfolding accumulate
  accumulate-touched key [] pages = or_false (is_some (lookup_key same_key key pages))
  accumulate-touched key (add ∷ adds) pages =
      let k = key_of add in
      let bitmap = R.insert (offset_of add) (or_default R (lookup_key same_key k pages)) in
      let old = lookup_key same_key key pages in
      let seen : Bool → Bool = λ b. is_some (if b then some bitmap else old) || touched key adds in
      let here =
        accumulate-touched key adds (insert_key same_key k bitmap pages)
        ∙ ap (λ l. is_some l || touched key adds)
            (lookup_key-insert_key same_key same_key_sound same_key_refl k key bitmap pages) in
      elim (Bool-cases (same_key k key)) [
        | inl t ↦
            here
            ∙ ap seen t
            ∙ sym (ap (λ b. is_some old || (b || touched key adds)) t ∙ or_true (is_some old))
        | inr t ↦ here ∙ ap seen t ∙ sym (ap (λ b. is_some old || (b || touched key adds)) t)
      ]

  accumulate-contains :
      BitmapLaws R
      → (key : BitmapIndexKey) (o : ℕ) (adds : List Add) (pages : List (BitmapIndexKey × R.Bitmap))
      → R.contains o (or_default R (lookup_key same_key key (accumulate R pages adds)))
        ≡ (R.contains o (or_default R (lookup_key same_key key pages)) || added key o adds)
  unfolding accumulate
  accumulate-contains laws key o [] pages =
      or_false (R.contains o (or_default R (lookup_key same_key key pages)))
  accumulate-contains laws key o (add ∷ adds) pages =
      let k = key_of add in
      let bitmap = R.insert (offset_of add) (or_default R (lookup_key same_key k pages)) in
      let old = lookup_key same_key key pages in
      let here = offset_of add == o in
      let rest = added key o adds in
      let seen : Bool → Bool =
        λ b. R.contains o (or_default R (if b then some bitmap else old)) || rest in
      let after =
        accumulate-contains laws key o adds (insert_key same_key k bitmap pages)
        ∙ ap (λ l. R.contains o (or_default R l) || rest)
            (lookup_key-insert_key same_key same_key_sound same_key_refl k key bitmap pages) in
      let asked : Bool → Bool = λ b. R.contains o (or_default R old) || ((b && here) || rest) in
      elim (Bool-cases (same_key k key)) [
        | inl t ↦
            after
            ∙ ap seen t
            ∙ ap (λ b. b || rest)
                (laws.contains_insert o (offset_of add)
                  (or_default R (lookup_key same_key k pages)))
            ∙ ap (λ j. (here || R.contains o (or_default R (lookup_key same_key j pages))) || rest)
                (same_key_sound k key t)
            ∙ or_swap here (R.contains o (or_default R old)) rest
            ∙ sym (ap asked t)
        | inr t ↦ after ∙ ap seen t ∙ sym (ap asked t)
      ]

  -- The IDs of a page that come before the batch.
  kept-contains :
      BitmapLaws R
      → (committed page o : ℕ) (value : Option (BitmapIndexValue R)) → o < page_span
      → page + page_span < u64_mod
      → R.contains o (kept R committed page value)
        ≡ (if ltb (page + o) committed then R.contains o (stored R value) else false)
  unfolding kept
  kept-contains laws committed page o value small fits = elim (Bool-cases (leb committed page)) [
    | inl t ↦
        let past : ltb (page + o) committed ≡ false = ground (arith, t) in
        rw (t, past) (laws.contains_new o)
    | inr t ↦
        let top : saturating_add64 page page_span ≡ page + page_span = ground (arith, fits) in
        elim (Bool-cases (ltb committed (page + page_span))) [
          | inl u ↦
              let low : committed < page + page_span = ground (arith, u) in
              let high : page < committed = ground (arith, t) in
              let n : (committed - page) % u32_mod ≡ committed - page = omega (arith, low, high) in
              let same : ltb o (committed - page) ≡ ltb (page + o) committed =
                ground (arith, high) in
              rw (t, top, u, n)
                (laws.contains_remove_from o (committed - page) (stored R value)
                  ∙ ap (λ b. if b then R.contains o (stored R value) else false) same)
          | inr u ↦
              let within : ltb (page + o) committed ≡ true = ground (arith, u, small) in
              rw (t, top, u, within) refl
        ]
  ]

  -- The value that a page is written with.
  abbrev pub target :
      (Family → ℕ)
      → List (BitmapIndexKey × BitmapIndexValue R)
      → List Add
      → BitmapIndexKey
      → BitmapIndexValue R
  target committed index adds key =
      updated R committed index key (or_default R (lookup_key same_key key (accumulate R [] adds)))

  written_or-index_writes :
      (committed : Family → ℕ) (index : List (BitmapIndexKey × BitmapIndexValue R))
      (key : BitmapIndexKey) (pages : List (BitmapIndexKey × R.Bitmap)) (new : BitmapIndexValue R)
      (old : Option (BitmapIndexValue R))
      → written_or (lookup_key same_key key (index_writes R committed index pages)) new old
        ≡ written_or (lookup_key same_key key pages) new old
  unfolding lookup_key
  written_or-index_writes committed index key [] new old = refl
  written_or-index_writes committed index key ((k, bitmap) ∷ pages) new old =
      elim (Bool-cases (same_key k key)) [
        | inl t ↦ rw t refl
        | inr t ↦ rw t (written_or-index_writes committed index key pages new old)
      ]

  pub lookup_key-index_writes :
      (committed : Family → ℕ) (index : List (BitmapIndexKey × BitmapIndexValue R))
      (key : BitmapIndexKey) (adds : List Add)
      → lookup_key same_key key
          (put_all same_key (index_writes R committed index (accumulate R [] adds)) index)
        ≡ (if touched key adds
            then some (target committed index adds key)
            else lookup_key same_key key index)
  unfolding lookup_key
  lookup_key-index_writes committed index key adds =
      let pages = accumulate R [] adds in
      let new = target committed index adds in
      let old = lookup_key same_key key index in
      let writes =
        All-map (λ w. w.1 ≡ new w.0) (λ page. (page.0, updated R committed index page.0 page.1))
          pages
          (All-lookup_key same_key same_key_sound same_key_refl
            (λ page. updated R committed index page.0 page.1 ≡ new page.0) pages
            (accumulate-OneEach adds [] tt)
            (λ k bitmap found.
              ap (λ l. updated R committed index k (or_default R l)) (sym found))) in
      lookup_key-put_all same_key same_key_sound same_key_refl new key
        (index_writes R committed index pages) index writes
      ∙ written_or-index_writes committed index key pages (new key) old
      ∙ written_or-is_some (lookup_key same_key key pages) (new key) old
      ∙ ap (λ b. if b then some (new key) else old) (accumulate-touched key adds [])

  -- The bitmap of a page, before or after a flush.
  abbrev pub page_contains : List (BitmapIndexKey × BitmapIndexValue R) → BitmapIndexKey → ℕ → Bool
  page_contains index key o = R.contains o (stored R (lookup_key same_key key index))

  -- After the stage, for a batch whose filters can be read, a page that the batch touches contains
  -- what it contained before the batch's first ID, and what the batch adds; any other page is as
  -- before. The page is not the last one of 64 bits, and the bitmaps are as their laws say.
  pub flush_bitmap-contains :
      BitmapLaws R
      → (decode_2718 : List ℕ → Option (Option (List ℕ) × Option (List ℕ)))
      → (batch : QueryWriterFlushBatch) (tables : BitmapTables R) (adds : List Add)
      → batch_adds decode_2718 batch.blocks ≡ ok adds
      → (key : BitmapIndexKey) (o : ℕ) → o < page_span
      → key.page + page_span < u64_mod
      → page_contains (flush_bitmap R decode_2718 batch tables).0.index key o ≡ (
          if touched key adds
          then ((if ltb (key.page + o) (committed_of batch key.family)
                then page_contains tables.index key o
                else false)
              || added key o adds)
          else page_contains tables.index key o)
  unfolding flush_bitmap lookup_key
  flush_bitmap-contains laws decode_2718 batch tables adds decoded key o small fits =
      let committed = committed_of batch in
      let index = tables.index in
      let pending = or_default R (lookup_key same_key key (accumulate R [] adds)) in
      let base = kept R (committed key.family) key.page (lookup_key same_key key index) in
      let written =
        ap (λ l. R.contains o (stored R l)) (lookup_key-index_writes committed index key adds) in
      rw decoded (elim (Bool-cases (touched key adds)) [
        | inl t ↦ rw t (
            written
            ∙ ap
                (λ b. R.contains o (
                  stored R (
                    if b
                    then some (target committed index adds key)
                    else lookup_key same_key key index)))
                t
            ∙ laws.contains_union o base pending
            ∙ ap (λ b. b || R.contains o pending)
                (kept-contains laws (committed key.family) key.page o
                  (lookup_key same_key key index) small fits)
            ∙ ap
                (◌||◌ (
                  if ltb (key.page + o) (committed key.family)
                  then page_contains index key o
                  else false))
                (accumulate-contains laws key o adds []
                  ∙ ap (λ b. b || added key o adds) (laws.contains_new o)))
        | inr t ↦ rw t (
            written
            ∙ ap
                (λ b. R.contains o (
                  stored R (
                    if b
                    then some (target committed index adds key)
                    else lookup_key same_key key index)))
                t)
      ])
