-- ===== src/Query/BitmapIndex/Keys.antt =====
-- The test of bitmap keys decides their equality.
use monad_services.Prelude.{
  ℕ, ◌≡◌, refl, sym, ap, ◌∙◌, true, ◌&&◌, Option, none, some, List, [], ◌∷◌, ◌==◌, ==-refl,
  some-inj, ok-inj, arith, and-both, same_bytes, same_bytes_sound, same_bytes_refl,
}
use monad_services.Query.Schema.{
  Family, family_tag, family_of_tag, BitmapFilterValue, Kind, kind_of_tag, encode_filter,
  BitmapIndexKey,
}
use monad_services.Query.Schema.Bytes.{family_of_tag-family_tag}
use monad_services.Query.BitmapIndex.{same_key}

of_kind : Option Kind → List ℕ → Option BitmapFilterValue
of_kind none body = none
of_kind (some Kind.address) body = some (BitmapFilterValue.address body)
of_kind (some Kind.from_address) body = some (BitmapFilterValue.from_address body)
of_kind (some Kind.has_transfer) body = some BitmapFilterValue.has_transfer
of_kind (some Kind.selector) body = some (BitmapFilterValue.selector body)
of_kind (some Kind.to_address) body = some (BitmapFilterValue.to_address body)
of_kind (some Kind.top_level) body = some BitmapFilterValue.top_level
of_kind (some Kind.topic0) body = some (BitmapFilterValue.topic0 body)
of_kind (some Kind.topic1) body = some (BitmapFilterValue.topic1 body)
of_kind (some Kind.topic2) body = some (BitmapFilterValue.topic2 body)
of_kind (some Kind.topic3) body = some (BitmapFilterValue.topic3 body)
of_kind (some Kind.miner) body = some (BitmapFilterValue.miner body)

of_bytes : List ℕ → Option BitmapFilterValue
of_bytes [] = none
of_bytes (tag ∷ body) = of_kind (kind_of_tag tag) body

of_bytes-encode_filter : (v : BitmapFilterValue) → of_bytes (encode_filter v) ≡ some v
unfolding of_bytes of_kind encode_filter kind_of_tag
of_bytes-encode_filter (BitmapFilterValue.address value) = refl
of_bytes-encode_filter (BitmapFilterValue.from_address value) = refl
of_bytes-encode_filter (BitmapFilterValue.to_address value) = refl
of_bytes-encode_filter (BitmapFilterValue.miner value) = refl
of_bytes-encode_filter BitmapFilterValue.has_transfer = refl
of_bytes-encode_filter BitmapFilterValue.top_level = refl
of_bytes-encode_filter (BitmapFilterValue.selector value) = refl
of_bytes-encode_filter (BitmapFilterValue.topic0 value) = refl
of_bytes-encode_filter (BitmapFilterValue.topic1 value) = refl
of_bytes-encode_filter (BitmapFilterValue.topic2 value) = refl
of_bytes-encode_filter (BitmapFilterValue.topic3 value) = refl

encode_filter-inj : (a b : BitmapFilterValue) → encode_filter a ≡ encode_filter b → a ≡ b
encode_filter-inj a b e =
    some-inj (sym (of_bytes-encode_filter a) ∙ ap of_bytes e ∙ of_bytes-encode_filter b)

family_tag-inj : (a b : Family) → family_tag a ≡ family_tag b → a ≡ b
family_tag-inj a b e =
    ok-inj (sym (family_of_tag-family_tag a) ∙ ap family_of_tag e ∙ family_of_tag-family_tag b)

pub same_key_sound : (a b : BitmapIndexKey) → same_key a b ≡ true → a ≡ b
same_key_sound a b h =
    let (tags, rest) =
      and-both (family_tag a.family == family_tag b.family)
        (same_bytes (encode_filter a.filter) (encode_filter b.filter) && (a.page == b.page)) h in
    let (filters, pages) =
      and-both (same_bytes (encode_filter a.filter) (encode_filter b.filter)) (a.page == b.page)
        rest in
    let family : a.family ≡ b.family = family_tag-inj a.family b.family (ground (arith, tags)) in
    let filter : a.filter ≡ b.filter =
      encode_filter-inj a.filter b.filter
        (same_bytes_sound (encode_filter a.filter) (encode_filter b.filter) filters) in
    let page : a.page ≡ b.page = ground (arith, pages) in cc

pub same_key_refl : (a : BitmapIndexKey) → same_key a a ≡ true
same_key_refl a =
    rw (==-refl (family_tag a.family), same_bytes_refl (encode_filter a.filter), ==-refl a.page)
      refl
