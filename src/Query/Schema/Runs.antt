-- ===== src/Query/Schema/Runs.antt =====
-- Concrete keys and values of the schema, and its theorems at concrete inputs.
use monad_services.Prelude.{◌≡◌, refl, [], ◌∷◌, ok, err}
use monad_services.Query.Schema.{
  QueryError, Message, Family, BitmapFilterValue, encode_filter, decode_filter, decode_body,
  kind_of_tag, encode_location_key, to_be_bytes,
}
use monad_services.Query.Schema.Filters.{
  IsSized, decode_filter-encode_filter, decode_filter-canonical,
}

abbrev transfer : BitmapFilterValue
transfer = BitmapFilterValue.selector (0xa9 ∷ 0x05 ∷ 0x9c ∷ 0xbb ∷ [])

short_test :
    (decode_filter (3 ∷ 1 ∷ []) ≡ err (QueryError.decoding Message.invalid_selector))
    × (decode_filter (11 ∷ []) ≡ err (QueryError.decoding Message.invalid_filter_kind))
    × (decode_filter (2 ∷ []) ≡ ok BitmapFilterValue.has_transfer)
unfolding decode_filter decode_body kind_of_tag
short_test = (refl, refl, refl)

encode_location_key_test :
    encode_location_key (record { family = Family.log; id = 258 })
    ≡ 2 ∷ 0 ∷ 0 ∷ 0 ∷ 0 ∷ 0 ∷ 0 ∷ 1 ∷ 2 ∷ []
unfolding encode_location_key to_be_bytes
encode_location_key_test = refl

selector_read : decode_filter (3 ∷ 0xa9 ∷ 0x05 ∷ 0x9c ∷ 0xbb ∷ []) ≡ ok transfer
unfolding decode_filter decode_body kind_of_tag
selector_read = refl

decode_filter-encode_filter_example : decode_filter (encode_filter transfer) ≡ ok transfer
decode_filter-encode_filter_example = decode_filter-encode_filter transfer refl

decode_filter-canonical_example :
    (encode_filter transfer ≡ 3 ∷ 0xa9 ∷ 0x05 ∷ 0x9c ∷ 0xbb ∷ []) × IsSized transfer
decode_filter-canonical_example =
    decode_filter-canonical (3 ∷ 0xa9 ∷ 0x05 ∷ 0x9c ∷ 0xbb ∷ []) transfer selector_read
