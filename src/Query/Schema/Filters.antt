-- ===== src/Query/Schema/Filters.antt =====
-- The bytes of bitmap filter values.
use monad_services.Prelude.{
  ℕ, ◌≡◌, refl, ap, ◌∙◌, sym, List, [], ◌∷◌, length, none, some, ok, err, arith, inl, inr,
  Option-cases, ==-cases,
}
use monad_services.Query.Schema.{
  BitmapFilterValue, Kind, kind_tag, kind_of_tag, encode_filter, decode_filter, decode_body, sized,
  Message, QueryError, decode_flag,
}

-- Addresses have 20 bytes, selectors 4 and topics 32, as their types have in the source.
abbrev pub IsSized : BitmapFilterValue → Type 0
IsSized (BitmapFilterValue.address value) = length value ≡ 20
IsSized (BitmapFilterValue.from_address value) = length value ≡ 20
IsSized (BitmapFilterValue.to_address value) = length value ≡ 20
IsSized (BitmapFilterValue.miner value) = length value ≡ 20
IsSized BitmapFilterValue.has_transfer = Unit
IsSized BitmapFilterValue.top_level = Unit
IsSized (BitmapFilterValue.selector value) = length value ≡ 4
IsSized (BitmapFilterValue.topic0 value) = length value ≡ 32
IsSized (BitmapFilterValue.topic1 value) = length value ≡ 32
IsSized (BitmapFilterValue.topic2 value) = length value ≡ 32
IsSized (BitmapFilterValue.topic3 value) = length value ≡ 32

-- A filter value of the widths of its type is read back from its bytes.
pub decode_filter-encode_filter :
    (v : BitmapFilterValue) → IsSized v → decode_filter (encode_filter v) ≡ ok v
unfolding decode_filter encode_filter decode_body kind_of_tag
decode_filter-encode_filter (BitmapFilterValue.address value) h = ground (arith, h)
decode_filter-encode_filter (BitmapFilterValue.from_address value) h = ground (arith, h)
decode_filter-encode_filter (BitmapFilterValue.to_address value) h = ground (arith, h)
decode_filter-encode_filter (BitmapFilterValue.miner value) h = ground (arith, h)
decode_filter-encode_filter BitmapFilterValue.has_transfer h = refl
decode_filter-encode_filter BitmapFilterValue.top_level h = refl
decode_filter-encode_filter (BitmapFilterValue.selector value) h = ground (arith, h)
decode_filter-encode_filter (BitmapFilterValue.topic0 value) h = ground (arith, h)
decode_filter-encode_filter (BitmapFilterValue.topic1 value) h = ground (arith, h)
decode_filter-encode_filter (BitmapFilterValue.topic2 value) h = ground (arith, h)
decode_filter-encode_filter (BitmapFilterValue.topic3 value) h = ground (arith, h)

-- What the body of a value says of it.
Reads : Kind → List ℕ → BitmapFilterValue → Type 0
Reads kind body v = (encode_filter v ≡ kind_tag kind ∷ body) × IsSized v

sized-inv :
    (width : ℕ) (m : Message) (f : List ℕ → BitmapFilterValue) (body : List ℕ)
    (v : BitmapFilterValue)
    → sized width m f body ≡ ok v
    → (v ≡ f body) × (length body ≡ width)
sized-inv width m f body v e = elim (==-cases (length body) width) [
  | inl (p, t) ↦ (ground (arith, t), p)
  | inr (p, t) ↦ absurd (ground (arith, t))
]

decode_flag-inv :
    (body : List ℕ) (f v : BitmapFilterValue) → decode_flag body f ≡ ok v → (v ≡ f) × (body ≡ [])
decode_flag-inv [] f v e = (cc, refl)
decode_flag-inv (b ∷ bs) f v e = absurd cc

decode_body-Reads :
    (kind : Kind) (body : List ℕ) (v : BitmapFilterValue)
    → decode_body kind body ≡ ok v
    → Reads kind body v
unfolding decode_body encode_filter Reads
decode_body-Reads Kind.address body v e =
    let (p, l) = sized-inv 20 Message.invalid_address BitmapFilterValue.address body v e in
    rw p (refl, l)
decode_body-Reads Kind.from_address body v e =
    let (p, l) = sized-inv 20 Message.invalid_from BitmapFilterValue.from_address body v e in
    rw p (refl, l)
decode_body-Reads Kind.has_transfer body v e =
    let (p, l) = decode_flag-inv body BitmapFilterValue.has_transfer v e in rw (p, l) (refl, tt)
decode_body-Reads Kind.selector body v e =
    let (p, l) = sized-inv 4 Message.invalid_selector BitmapFilterValue.selector body v e in
    rw p (refl, l)
decode_body-Reads Kind.to_address body v e =
    let (p, l) = sized-inv 20 Message.invalid_to BitmapFilterValue.to_address body v e in
    rw p (refl, l)
decode_body-Reads Kind.top_level body v e =
    let (p, l) = decode_flag-inv body BitmapFilterValue.top_level v e in rw (p, l) (refl, tt)
decode_body-Reads Kind.topic0 body v e =
    let (p, l) = sized-inv 32 Message.invalid_topic BitmapFilterValue.topic0 body v e in
    rw p (refl, l)
decode_body-Reads Kind.topic1 body v e =
    let (p, l) = sized-inv 32 Message.invalid_topic BitmapFilterValue.topic1 body v e in
    rw p (refl, l)
decode_body-Reads Kind.topic2 body v e =
    let (p, l) = sized-inv 32 Message.invalid_topic BitmapFilterValue.topic2 body v e in
    rw p (refl, l)
decode_body-Reads Kind.topic3 body v e =
    let (p, l) = sized-inv 32 Message.invalid_topic BitmapFilterValue.topic3 body v e in
    rw p (refl, l)
decode_body-Reads Kind.miner body v e =
    let (p, l) = sized-inv 20 Message.invalid_miner BitmapFilterValue.miner body v e in
    rw p (refl, l)

kind_of_tag-inv : (tag : ℕ) (kind : Kind) → kind_of_tag tag ≡ some kind → kind_tag kind ≡ tag
unfolding kind_of_tag
kind_of_tag-inv tag kind e = ground (arith, e)

decode_filter-known :
    (tag : ℕ) (kind : Kind) (body : List ℕ)
    → kind_of_tag tag ≡ some kind
    → decode_filter (tag ∷ body) ≡ decode_body kind body
unfolding decode_filter
decode_filter-known tag kind body known =
    ap
      (λ k. elim k [
        | none ↦ err (QueryError.decoding Message.invalid_filter_kind)
        | some kind ↦ decode_body kind body
      ])
      known

-- Bytes that are read as a filter value are its encoding, and the value has the widths of its type:
-- no two encodings name the same value.
pub decode_filter-canonical :
    (bytes : List ℕ) (v : BitmapFilterValue)
    → decode_filter bytes ≡ ok v
    → (encode_filter v ≡ bytes) × IsSized v
unfolding decode_filter Reads
decode_filter-canonical [] v e = absurd cc
decode_filter-canonical (tag ∷ body) v e = elim (Option-cases (kind_of_tag tag)) [
  | inl none_of ↦ absurd (ground (arith, none_of, e))
  | inr (kind, known) ↦
      let (p, s) =
        decode_body-Reads kind body v (sym (decode_filter-known tag kind body known) ∙ e) in
      (p ∙ ap (λ t. t ∷ body) (kind_of_tag-inv tag kind known), s)
]
