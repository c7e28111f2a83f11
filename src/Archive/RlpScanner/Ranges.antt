-- ===== src/Archive/RlpScanner/Ranges.antt =====
-- The ranges in an RLP list, and the items that they cut out.
use monad_services.Prelude.{
  ℕ, ◌+◌, ◌-◌, ◌<◌, ◌≡◌, refl, sym, ap, ◌∙◌, List, [], ◌∷◌, ◌++◌, length, map, length-append,
  take-append, drop-append, u64_mod, Result, ok, arith, append_assoc, append-nil,
}
use monad_services.Archive.RlpScanner.{
  Error, RangeRlp, scan_fuel, range, slice, get_rlp_list_ranges, wrapping_sub64,
}
use monad_services.Archive.RlpScanner.Encoding.{
  Item, encode, encode_all, prefix, encode-list, length-encode-list,
}
use monad_services.Archive.RlpScanner.Scan.{places, decode_length-encode, scan_items-encode_all}

abbrev pub cut : List ℕ → RangeRlp → Result Error (List ℕ)
cut bytes r = slice r.start r.end bytes

abbrev pub encoded : Item → Result Error (List ℕ)
encoded i = ok (encode i)

pub slice-middle :
    (before item rest : List ℕ)
    → slice (length before) (length before + length item) (before ++ (item ++ rest)) ≡ ok item
unfolding slice
slice-middle before item rest =
    let inside = length-append before (item ++ rest) in
    let inner = length-append item rest in
    let at_item = drop-append before (item ++ rest) in
    let taken = take-append item rest in
    let width : length before + length item - length before ≡ length item = omega arith in
    ground (arith, inside, inner, at_item, taken, width)

pub cut-places :
    (before : List ℕ) (is : List Item) (rest : List ℕ)
    → map (cut (before ++ (encode_all is ++ rest))) (map range (places (length before) is))
      ≡ map encoded is
cut-places before [] rest = refl
cut-places before (i ∷ is) rest =
    let one = slice-middle before (encode i) (encode_all is ++ rest) in
    let ih = cut-places (before ++ encode i) is rest in
    let front = length-append before (encode i) in
    let whole : before ++ ((encode i ++ encode_all is) ++ rest)
        ≡ (before ++ encode i) ++ (encode_all is ++ rest) =
      ap (◌++◌ before) (append_assoc (encode i) (encode_all is) rest)
      ∙ sym (append_assoc before (encode i) (encode_all is ++ rest)) in
    let same = append_assoc (encode i) (encode_all is) rest in
    ground (arith, one, ih, front, whole, same)

-- The list of the items, as RLP.
abbrev pub rlp_list : List Item → List ℕ
rlp_list is = encode (Item.list (encode_all is))

abbrev pub list_prefix : List Item → List ℕ
list_prefix is = prefix 0xc0 0xf7 (length (encode_all is))

pub rlp_list-parts : (is : List Item) → rlp_list is ≡ list_prefix is ++ (encode_all is ++ [])
rlp_list-parts is = encode-list (encode_all is) ∙ ap (◌++◌ (list_prefix is)) (sym (append-nil _))

pub wrapping_sub64-add : (p c : ℕ) → p + c < u64_mod → wrapping_sub64 (p + c) c ≡ p
wrapping_sub64-add p c h = omega arith

pub get_rlp_list_ranges-places :
    (is : List Item)
    → length (rlp_list is) + 9 < u64_mod
    → get_rlp_list_ranges (rlp_list is) ≡ ok (map range (places (length (list_prefix is)) is))
unfolding get_rlp_list_ranges
get_rlp_list_ranges-places is h =
    let content = encode_all is in
    let size = length-encode-list content in
    let read = rw append-nil at (decode_length-encode [] (Item.list content) [] h) in
    let start =
      wrapping_sub64-add (length (list_prefix is)) (length content) (omega (arith, size)) in
    let scanned =
      scan_items-encode_all (scan_fuel (rlp_list is)) (list_prefix is) is [] (omega (arith, size))
        (omega (arith, size)) in
    let whole = rlp_list-parts is in ground (arith, read, size, start, scanned, whole)

-- The ranges found in an RLP list (of less than 2 ^ 64 - 9 bytes) are, in order, those of its items:
-- each cuts out exactly the bytes of its item's encoding.
pub get_rlp_list_ranges-cut :
    (is : List Item)
    → length (rlp_list is) + 9 < u64_mod
    → (ranges : List RangeRlp) × (get_rlp_list_ranges (rlp_list is) ≡ ok ranges)
      × (map (cut (rlp_list is)) ranges ≡ map encoded is)
get_rlp_list_ranges-cut is h = (
  map range (places (length (list_prefix is)) is),
  get_rlp_list_ranges-places is h,
  rw (rlp_list-parts is) (cut-places (list_prefix is) is []),
)
