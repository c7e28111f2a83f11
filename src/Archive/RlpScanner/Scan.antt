-- ===== src/Archive/RlpScanner/Scan.antt =====
-- The scanner's loop on the encodings of items.
use monad_services.Prelude.{
  ℕ, zero, suc, ◌+◌, ◌<◌, ◌≡◌, sym, ap, ◌∙◌, List, [], ◌∷◌, ◌++◌, length, length-append,
  drop-append, u64_mod, wrapping_add64, ok, arith, append_assoc,
}
use native.Mathlib.Nat.{add-zero}
use monad_services.Archive.RlpScanner.{decode_length, scan_items}
use monad_services.Archive.RlpScanner.Encoding.{
  Item, encode, encode_all, content_length, decode_prefix-encode, length-encode_pos,
}

-- The items' places, one after the other.
abbrev pub places : ℕ → List Item → List (ℕ × ℕ)
places start [] = []
places start (i ∷ is) = (start, start + length (encode i)) ∷ places (start + length (encode i)) is

pub decode_length-encode :
    (before : List ℕ) (i : Item) (rest : List ℕ)
    → length (encode i) + 9 < u64_mod
    → decode_length (before ++ (encode i ++ rest)) (length before)
      ≡ ok (content_length i, length (encode i))
unfolding decode_length
decode_length-encode before i rest h =
    let inside = length-append before (encode i ++ rest) in
    let at_item = drop-append before (encode i ++ rest) in
    let read = decode_prefix-encode i rest h in ground (arith, inside, at_item, read)

pub wrapping_add64-lt : (a b : ℕ) → a + b < u64_mod → wrapping_add64 a b ≡ a + b
wrapping_add64-lt a b h = omega arith

scan_items-step :
    (fuel : ℕ) (bytes : List ℕ) (position end c l : ℕ) (ranges : List (ℕ × ℕ))
    → position < end
    → position + l < u64_mod
    → decode_length bytes position ≡ ok (c, l)
    → scan_items fuel bytes (position + l) end ≡ ok ranges
    → scan_items (suc fuel) bytes position end ≡ ok ((position, position + l) ∷ ranges)
unfolding scan_items
scan_items-step fuel bytes position end c l ranges lt fits read more =
    let sum = wrapping_add64-lt position l fits in ground (arith, read, sum, more)

scan_items-stop :
    (fuel : ℕ) (bytes : List ℕ) (position : ℕ) → scan_items fuel bytes position position ≡ ok []
unfolding scan_items
scan_items-stop zero bytes position = ground arith
scan_items-stop (suc fuel) bytes position = ground arith

-- The loop over items that stand between other bytes.
pub scan_items-encode_all :
    (fuel : ℕ) (before : List ℕ) (is : List Item) (rest : List ℕ)
    → length before + length (encode_all is) + 9 < u64_mod
    → length (encode_all is) < fuel
    → scan_items fuel
        (before ++ (encode_all is ++ rest))
        (length before)
        (length before + length (encode_all is))
      ≡ ok (places (length before) is)
scan_items-encode_all zero before is rest h f = absurd (omega arith)
scan_items-encode_all (suc fuel) before [] rest h f =
    rw add-zero (scan_items-stop (suc fuel) (before ++ rest) (length before))
scan_items-encode_all (suc fuel) before (i ∷ is) rest h f =
    let size = length-append (encode i) (encode_all is) in
    let pos = length-encode_pos i in
    let front = length-append before (encode i) in
    let ih =
      scan_items-encode_all fuel (before ++ encode i) is rest (omega (arith, size, front))
        (omega (arith, size)) in
    let whole : (before ++ encode i) ++ (encode_all is ++ rest)
        ≡ before ++ ((encode i ++ encode_all is) ++ rest) =
      append_assoc before (encode i) (encode_all is ++ rest)
      ∙ ap (◌++◌ before) (sym (append_assoc (encode i) (encode_all is) rest)) in
    let read = decode_length-encode before i (encode_all is ++ rest) (omega (arith, size)) in
    let ends : length before + length (encode i) + length (encode_all is)
        ≡ length before + length (encode i ++ encode_all is) =
      omega (arith, size) in
    scan_items-step fuel _ (length before) (length before + length (encode i ++ encode_all is))
      (content_length i) (length (encode i)) (places (length before + length (encode i)) is)
      (omega (arith, size)) (omega (arith, size))
      (ground (arith, read, append_assoc (encode i) (encode_all is) rest))
      (ground (arith, ih, front, whole, ends))
