-- ===== src/Archive/RlpScanner/Offsets.antt =====
-- The offsets of a block's transactions, receipts and traces.
use monad_services.Prelude.{
  ℕ, suc, ◌+◌, ◌<◌, ◌≡◌, ◌≢◌, refl, sym, ap, ◌∙◌, not, ◌||◌, List, [], ◌∷◌, ◌++◌, length, map,
  length-append, ◌==◌, if◌then◌else◌, u64_mod, wrapping_add64, ok, err, arith, append_assoc,
  append-nil, ◌⊎◌, inl, inr,
}
use monad_services.Archive.RlpScanner.{
  Error, RangeRlp, TxByteOffsets, decode_length, range, slice, transactions_position, shift_range,
  zip_offsets, get_all_tx_offsets,
}
use monad_services.Archive.RlpScanner.Encoding.{
  Item, encode, encode_all, prefix, encode-list, length-encode-list,
}
use monad_services.Archive.RlpScanner.Scan.{places, decode_length-encode, wrapping_add64-lt}
use monad_services.Archive.RlpScanner.Ranges.{
  cut, encoded, rlp_list, list_prefix, cut-places, slice-middle, rlp_list-parts, wrapping_sub64-add,
  get_rlp_list_ranges-places,
}

length-map : {A B : Type 0} (f : A → B) (xs : List A) → length (map f xs) ≡ length xs
length-map f [] = refl
length-map f (x ∷ xs) = ap suc (length-map f xs)

length-places : (s : ℕ) (is : List Item) → length (map range (places s is)) ≡ length is
length-places s [] = refl
length-places s (i ∷ is) = ap suc (length-places (s + length (encode i)) is)

shift_range-range :
    (k a b : ℕ)
    → k + a < u64_mod
    → k + b < u64_mod
    → shift_range k (range (a, b)) ≡ range (k + a, k + b)
shift_range-range k a b ha hb =
    let start : wrapping_add64 a k ≡ k + a = omega (arith, ha) in
    let end : wrapping_add64 b k ≡ k + b = omega (arith, hb) in rw (start, end)

shift-places :
    (k s : ℕ) (is : List Item)
    → k + s + length (encode_all is) < u64_mod
    → map (shift_range k) (map range (places s is)) ≡ map range (places (k + s) is)
shift-places k s [] h = refl
shift-places k s (i ∷ is) h =
    let size = length-append (encode i) (encode_all is) in
    let e : k + (s + length (encode i)) ≡ k + s + length (encode i) = omega arith in
    let one =
      shift_range-range k s (s + length (encode i)) (omega (arith, h)) (omega (arith, h, size)) in
    let ih = shift-places k (s + length (encode i)) is (omega (arith, h, size)) in
    let same : map range (places (k + (s + length (encode i))) is)
        ≡ map range (places (k + s + length (encode i)) is) =
      ap (λ n. map range (places n is)) e in
    ap (λ r. r ∷ map (shift_range k) (map range (places (s + length (encode i)) is))) one
    ∙ ap (◌∷◌ (range (k + s, k + (s + length (encode i))))) (ih ∙ same)
    ∙ ap (λ n. range (k + s, n) ∷ map range (places (k + s + length (encode i)) is)) e

-- Three lists of one length are what their offsets are made of.
zip_offsets-parts :
    {A : Type 0} (f g h : RangeRlp → A) (txs receipts traces : List RangeRlp)
    → length txs ≡ length receipts
    → length txs ≡ length traces
    → (map (λ o. f o.tx) (zip_offsets txs receipts traces) ≡ map f txs)
      × (map (λ o. g o.receipt) (zip_offsets txs receipts traces) ≡ map g receipts)
      × (map (λ o. h o.trace) (zip_offsets txs receipts traces) ≡ map h traces)
unfolding zip_offsets
zip_offsets-parts f g h [] [] [] a b = (refl, refl, refl)
zip_offsets-parts f g h [] [] (z ∷ zs) a b = absurd (omega (arith, b))
zip_offsets-parts f g h [] (y ∷ ys) zs a b = absurd (omega (arith, a))
zip_offsets-parts f g h (x ∷ xs) [] zs a b = absurd (omega (arith, a))
zip_offsets-parts f g h (x ∷ xs) (y ∷ ys) [] a b = absurd (omega (arith, b))
zip_offsets-parts f g h (x ∷ xs) (y ∷ ys) (z ∷ zs) a b =
    let (p, q, r) = zip_offsets-parts f g h xs ys zs (omega (arith, a)) (omega (arith, b)) in
    (ap (◌∷◌ (f x)) p, ap (◌∷◌ (g y)) q, ap (◌∷◌ (h z)) r)

-- A block as RLP: a list of the header, the list of transactions and what follows it.
abbrev pub block_content : Item → List Item → List ℕ → List ℕ
block_content header txs tail = encode header ++ (rlp_list txs ++ tail)

abbrev pub block_rlp : Item → List Item → List ℕ → List ℕ
block_rlp header txs tail = encode (Item.list (block_content header txs tail))

module _ (header : Item) (txs : List Item) (tail : List ℕ)
    (small : length (block_rlp header txs tail) + 9 < u64_mod) where
  abbrev content : List ℕ
  content = block_content header txs tail

  abbrev head : List ℕ
  head = prefix 0xc0 0xf7 (length content)

  abbrev front : List ℕ
  front = head ++ encode header

  block-parts : block_rlp header txs tail ≡ front ++ (rlp_list txs ++ tail)
  block-parts = encode-list content ∙ sym (append_assoc head (encode header) (rlp_list txs ++ tail))

  sizes :
      (length (block_rlp header txs tail) ≡ length head + length content)
      × (length content ≡ length (encode header) + (length (rlp_list txs) + length tail))
      × (length front ≡ length head + length (encode header))
  sizes = (
    length-encode-list content,
    length-append (encode header) (rlp_list txs ++ tail)
        ∙ ap (◌+◌ (length (encode header))) (length-append (rlp_list txs) tail),
    length-append head (encode header),
  )

  transactions_position-block :
      transactions_position (block_rlp header txs tail) ≡ ok (length front)
  unfolding transactions_position
  transactions_position-block =
      let (whole, inner, ahead) = sizes in
      let read = rw append-nil at (decode_length-encode [] (Item.list content) [] small) in
      let start = wrapping_sub64-add (length head) (length content) (omega (arith, whole, small)) in
      let second = rw (sym (encode-list content)) at (
        decode_length-encode head header (rlp_list txs ++ tail)
          (omega (arith, whole, inner, small))) in
      let sum =
        wrapping_add64-lt (length head) (length (encode header))
          (omega (arith, whole, inner, small)) in
      rw (read, whole, start, second, sum, ahead)

  txs_read :
      decode_length (block_rlp header txs tail) (length front)
      ≡ ok (length (encode_all txs), length (rlp_list txs))
  txs_read =
      let (whole, inner, ahead) = sizes in
      rw block-parts (
        decode_length-encode front (Item.list (encode_all txs)) tail
          (omega (arith, whole, inner, small)))

  txs_slice :
      slice
        (length front)
        (wrapping_add64 (length front) (length (rlp_list txs)))
        (block_rlp header txs tail)
      ≡ ok (rlp_list txs)
  txs_slice =
      let (whole, inner, ahead) = sizes in
      let sum =
        wrapping_add64-lt (length front) (length (rlp_list txs))
          (omega (arith, whole, inner, ahead, small)) in
      rw (sum, block-parts) (slice-middle front (rlp_list txs) tail)

  abbrev ranges_of : List Item → List RangeRlp
  ranges_of is = map range (places (length (list_prefix is)) is)

  -- The transactions' ranges, moved to their place in the block, cut out the transactions.
  cut-shifted :
      map (cut (block_rlp header txs tail)) (map (shift_range (length front)) (ranges_of txs))
      ≡ map encoded txs
  cut-shifted =
      let (whole, inner, ahead) = sizes in
      let list_size = length-encode-list (encode_all txs) in
      let moved =
        shift-places (length front) (length (list_prefix txs)) txs
          (omega (arith, whole, inner, ahead, list_size, small)) in
      let place : length front + length (list_prefix txs) ≡ length (front ++ list_prefix txs) =
        sym (length-append front (list_prefix txs)) in
      let parts : block_rlp header txs tail
          ≡ (front ++ list_prefix txs) ++ (encode_all txs ++ tail) =
        block-parts
        ∙ ap (λ l. front ++ (l ++ tail)) (encode-list (encode_all txs))
        ∙ ap (◌++◌ front) (append_assoc (list_prefix txs) (encode_all txs) tail)
        ∙ sym (append_assoc front (list_prefix txs) (encode_all txs ++ tail)) in
      ap (map (cut (block_rlp header txs tail))) (moved ∙ ap (λ n. map range (places n txs)) place)
      ∙ ap (λ b. map (cut b) (map range (places (length (front ++ list_prefix txs)) txs))) parts
      ∙ cut-places (front ++ list_prefix txs) txs tail

  module _ (receipts traces : List Item) (small_receipts : length (rlp_list receipts) + 9 < u64_mod)
      (small_traces : length (rlp_list traces) + 9 < u64_mod) where
    offsets : List TxByteOffsets
    offsets =
        zip_offsets (map (shift_range (length front)) (ranges_of txs)) (ranges_of receipts)
          (ranges_of traces)

    get_all_tx_offsets-checked :
        get_all_tx_offsets (block_rlp header txs tail) (rlp_list receipts) (rlp_list traces) ≡ (
          if not (length txs == length receipts) || not (length txs == length traces)
          then err Error.mismatched_counts
          else ok offsets)
    unfolding get_all_tx_offsets offsets
    get_all_tx_offsets-checked =
        let (whole, inner, ahead) = sizes in
        let of_txs = get_rlp_list_ranges-places txs (omega (arith, whole, inner, small)) in
        let of_receipts = get_rlp_list_ranges-places receipts small_receipts in
        let of_traces = get_rlp_list_ranges-places traces small_traces in
        rw (
          transactions_position-block,
          txs_read,
          txs_slice,
          of_txs,
          of_receipts,
          of_traces,
          length-places (length (list_prefix txs)) txs,
          length-places (length (list_prefix receipts)) receipts,
          length-places (length (list_prefix traces)) traces,
        )

    -- For a block with a header and a list of transactions, and lists of receipts and of traces, each of
    -- less than 2 ^ 64 - 9 bytes: with as many receipts and traces as transactions there is an offset for
    -- each transaction, in order, whose ranges cut the transaction out of the block, its receipt out of
    -- the receipts and its trace out of the traces; otherwise the counts are reported.
    pub get_all_tx_offsets-cut :
        (length txs ≡ length receipts
          → length txs ≡ length traces
          → (found : List TxByteOffsets) × (get_all_tx_offsets
                (block_rlp header txs tail)
                (rlp_list receipts)
                (rlp_list traces)
              ≡ ok found)
            × (map (λ o. cut (block_rlp header txs tail) o.tx) found ≡ map encoded txs)
            × (map (λ o. cut (rlp_list receipts) o.receipt) found ≡ map encoded receipts)
            × (map (λ o. cut (rlp_list traces) o.trace) found ≡ map encoded traces))
        × ((length txs ≢ length receipts) ⊎ (length txs ≢ length traces)
            → get_all_tx_offsets (block_rlp header txs tail) (rlp_list receipts) (rlp_list traces)
              ≡ err Error.mismatched_counts)
    unfolding offsets
    get_all_tx_offsets-cut = (
      λ a b.
          let count_txs : length (map (shift_range (length front)) (ranges_of txs)) ≡ length txs =
            length-map (shift_range (length front)) (ranges_of txs)
            ∙ length-places (length (list_prefix txs)) txs in
          let count_receipts = length-places (length (list_prefix receipts)) receipts in
          let count_traces = length-places (length (list_prefix traces)) traces in
          let (p, q, r) =
            zip_offsets-parts (cut (block_rlp header txs tail)) (cut (rlp_list receipts))
              (cut (rlp_list traces)) (map (shift_range (length front)) (ranges_of txs))
              (ranges_of receipts) (ranges_of traces) (count_txs ∙ a ∙ sym count_receipts)
              (count_txs ∙ b ∙ sym count_traces) in
          (
            offsets,
            get_all_tx_offsets-checked ∙ ground (arith, a, b),
            p ∙ cut-shifted,
            q ∙ rw (rlp_list-parts receipts) (cut-places (list_prefix receipts) receipts []),
            r ∙ rw (rlp_list-parts traces) (cut-places (list_prefix traces) traces []),
          ),
      λ differ.
          get_all_tx_offsets-checked
          ∙ elim differ [ inl d ↦ ground (arith, d) | inr d ↦ ground (arith, d) ],
    )
