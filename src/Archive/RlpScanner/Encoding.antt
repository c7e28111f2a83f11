-- ===== src/Archive/RlpScanner/Encoding.antt =====
-- RLP as its specification has it, and the reading of its prefixes.
use monad_services.Prelude.{
  ℕ, zero, suc, ◌+◌, ◌*◌, ◌/◌, ◌%◌, ◌^◌, ◌≤◌, ◌<◌, ◌≡◌, ◌≢◌, refl, ap, ◌∙◌, List, [], ◌∷◌, ◌++◌,
  ◌⊎◌, inl, inr, length, length-append, take-append, ltb, ◌==◌, if◌then◌else◌, u64_mod, ok, ◌>>=◌,
  arith, append_assoc, Bool-cases, ==-ne,
}
use native.Mathlib.Nat.{pow-suc}
use monad_services.Archive.RlpScanner.{
  Error, decode_uint_loop, decode_uint, decode_long, decode_prefix,
}

-- The big-endian bytes of a number below 256 ^ k, with no leading zero.
unfoldable pub be_bytes : ℕ → ℕ → List ℕ
be_bytes zero n = []
be_bytes (suc k) n =
    let front = be_bytes k (n / 256) in if n == 0 then [] else front ++ (n % 256 ∷ [])

-- Short and long prefixes: of strings with 0x80 and 0xb7, of lists with 0xc0 and 0xf7.
unfoldable pub prefix : ℕ → ℕ → ℕ → List ℕ
prefix short long len =
    if ltb len 56 then ((short + len) ∷ []) else ((long + length (be_bytes 8 len)) ∷ be_bytes 8 len)

pub data Item : Type 0 where
  string : List ℕ → Item
  list : List ℕ → Item

-- The encoding of an item. `list` holds the concatenation of its items' encodings.
unfoldable pub encode : Item → List ℕ
encode (Item.list content) = prefix 0xc0 0xf7 (length content) ++ content
encode (Item.string []) = 0x80 ∷ []
encode (Item.string (b ∷ [])) = if ltb b 0x80 then (b ∷ []) else (0x81 ∷ b ∷ [])
encode (Item.string (a ∷ b ∷ bs)) = prefix 0x80 0xb7 (suc (suc (length bs))) ++ (a ∷ b ∷ bs)

abbrev pub encode_all : List Item → List ℕ
encode_all [] = []
encode_all (i ∷ is) = encode i ++ encode_all is

be_bytes-suc : (k n : ℕ) → n ≢ 0 → be_bytes (suc k) n ≡ be_bytes k (n / 256) ++ (n % 256 ∷ [])
unfolding be_bytes
be_bytes-suc k n h = rw (==-ne n 0 h)

be_bytes-zero : (k : ℕ) → be_bytes k 0 ≡ []
unfolding be_bytes
be_bytes-zero zero = refl
be_bytes-zero (suc k) = refl

decode_uint_loop-append :
    (xs ys : List ℕ) (acc : ℕ)
    → decode_uint_loop (xs ++ ys) acc ≡ (decode_uint_loop xs acc >>= λ r. decode_uint_loop ys r)
unfolding decode_uint_loop
decode_uint_loop-append [] ys acc = refl
decode_uint_loop-append (x ∷ xs) ys acc =
    ground (arith, decode_uint_loop-append xs ys (acc * 256 + x))

decode_uint_loop-one :
    (acc b : ℕ) → acc * 256 + b < u64_mod → decode_uint_loop (b ∷ []) acc ≡ ok (acc * 256 + b)
unfolding decode_uint_loop
decode_uint_loop-one acc b h = ground arith

zero_or : (n : ℕ) → (n ≡ 0) ⊎ (n ≢ 0)
zero_or zero = inl refl
zero_or (suc n) = inr (λ e. omega arith)

decode_uint_loop-be_bytes :
    (k n : ℕ) → n < 256 ^ k → n < u64_mod → decode_uint_loop (be_bytes k n) 0 ≡ ok n
decode_uint_loop-be_bytes zero n h b = unfold decode_uint_loop be_bytes in ap ok (omega arith)
decode_uint_loop-be_bytes (suc k) n h b = elim (zero_or n) [
  | inl e ↦ rw (e, be_bytes-zero) (unfold decode_uint_loop in refl)
  | inr ne ↦
      let ih = decode_uint_loop-be_bytes k (n / 256) (omega (arith, pow-suc 256 k)) (omega arith) in
      rw (be_bytes-suc k n ne, decode_uint_loop-append, ih)
        (decode_uint_loop-one (n / 256) (n % 256) (omega arith) ∙ ap ok (omega arith))
]

be_bytes_head :
    (k n : ℕ) → n < 256 ^ k → n ≢ 0 → (b : ℕ) × (bs : List ℕ) × (be_bytes k n ≡ b ∷ bs) × (b ≢ 0)
be_bytes_head zero n h ne = absurd (ne (omega arith))
be_bytes_head (suc k) n h ne = elim (zero_or (n / 256)) [
  | inl e ↦ (n % 256, [], rw (be_bytes-suc k n ne, e, be_bytes-zero), λ z. ne (omega arith))
  | inr more ↦
      let (b, bs, e, nz) = be_bytes_head k (n / 256) (omega (arith, pow-suc 256 k)) more in
      (b, bs ++ (n % 256 ∷ []), rw (be_bytes-suc k n ne, e), nz)
]

length-be_bytes : (k n : ℕ) → length (be_bytes k n) ≤ k
length-be_bytes zero n = unfold be_bytes in omega arith
length-be_bytes (suc k) n = elim (zero_or n) [
  | inl e ↦ rw (e, be_bytes-zero) (omega arith)
  | inr ne ↦ rw (be_bytes-suc k n ne, length-append) (omega (arith, length-be_bytes k (n / 256)))
]

decode_uint-be_bytes : (n : ℕ) → n ≢ 0 → n < u64_mod → decode_uint (be_bytes 8 n) ≡ ok n
decode_uint-be_bytes n ne h =
    let (b, bs, e, nz) = be_bytes_head 8 n (omega arith) ne in
    let value = rw e at (decode_uint_loop-be_bytes 8 n (omega arith) h) in
    rw e (first b bs nz value)
  where
    first :
        (b : ℕ) (bs : List ℕ)
        → b ≢ 0
        → decode_uint_loop (b ∷ bs) 0 ≡ ok n
        → decode_uint (b ∷ bs) ≡ ok n
    first b bs nz value = unfold decode_uint in ground (arith, value)

decode_long-be_bytes :
    (e : Error) (len : ℕ) (rest : List ℕ)
    → len ≢ 0
    → len + 9 < u64_mod
    → decode_long e (length (be_bytes 8 len)) (be_bytes 8 len ++ rest)
      ≡ ok (len, suc (length (be_bytes 8 len)) + len)
unfolding decode_long
decode_long-be_bytes e len rest ne h =
    let room = length-append (be_bytes 8 len) rest in
    let short = length-be_bytes 8 len in
    let read = decode_uint-be_bytes len ne (omega arith) in
    let taken = take-append (be_bytes 8 len) rest in ground (arith, room, short, taken, read)

length-be_bytes_pos : (n : ℕ) → n ≢ 0 → n < u64_mod → 1 ≤ length (be_bytes 8 n)
length-be_bytes_pos n ne h =
    let (b, bs, e, nz) = be_bytes_head 8 n (omega arith) ne in rw e (omega arith)

module _ (n : ℕ) (rest : List ℕ) (low : 1 ≤ n) (high : n ≤ 8) where
  decode_prefix-long_string :
      decode_prefix ((0xb7 + n) ∷ rest) ≡ decode_long Error.short_string_length n rest
  unfolding decode_prefix
  decode_prefix-long_string = ground arith

  decode_prefix-long_list :
      decode_prefix ((0xf7 + n) ∷ rest) ≡ decode_long Error.short_list_length n rest
  unfolding decode_prefix
  decode_prefix-long_list = ground arith

module _ (len : ℕ) (rest : List ℕ) (fits : len + 9 < u64_mod) where
  -- A prefix reads back as the content's length, with its own length added to the total.
  pub decode_prefix-string :
      decode_prefix (prefix 0x80 0xb7 len ++ rest) ≡ ok (len, length (prefix 0x80 0xb7 len) + len)
  unfolding prefix
  decode_prefix-string = elim (Bool-cases (ltb len 56)) [
    | inl short ↦ rw (short) (unfold decode_prefix in ground arith)
    | inr long ↦
        let ne : len ≢ 0 = λ e. ground arith in
        rw long (
          decode_prefix-long_string (length (be_bytes 8 len)) (be_bytes 8 len ++ rest)
            (length-be_bytes_pos len ne (omega arith)) (length-be_bytes 8 len)
          ∙ decode_long-be_bytes Error.short_string_length len rest ne fits)
  ]

  pub decode_prefix-list :
      decode_prefix (prefix 0xc0 0xf7 len ++ rest) ≡ ok (len, length (prefix 0xc0 0xf7 len) + len)
  unfolding prefix
  decode_prefix-list = elim (Bool-cases (ltb len 56)) [
    | inl short ↦ rw (short) (unfold decode_prefix in ground arith)
    | inr long ↦
        let ne : len ≢ 0 = λ e. ground arith in
        rw long (
          decode_prefix-long_list (length (be_bytes 8 len)) (be_bytes 8 len ++ rest)
            (length-be_bytes_pos len ne (omega arith)) (length-be_bytes 8 len)
          ∙ decode_long-be_bytes Error.short_list_length len rest ne fits)
  ]

-- The length of an item's content.
abbrev pub content_length : Item → ℕ
content_length (Item.list content) = length content
content_length (Item.string bs) = length bs

length-encode_list :
    (content : List ℕ)
    → length (encode (Item.list content))
      ≡ length (prefix 0xc0 0xf7 (length content)) + length content
unfolding encode
length-encode_list content = length-append (prefix 0xc0 0xf7 (length content)) content

length-encode_string :
    (a b : ℕ) (bs : List ℕ)
    → length (encode (Item.string (a ∷ b ∷ bs)))
      ≡ length (prefix 0x80 0xb7 (suc (suc (length bs)))) + suc (suc (length bs))
unfolding encode
length-encode_string a b bs = length-append (prefix 0x80 0xb7 (suc (suc (length bs)))) (a ∷ b ∷ bs)

-- Whatever follows it, an encoded item is read as its content's length and its own length.
pub decode_prefix-encode :
    (i : Item) (rest : List ℕ)
    → length (encode i) + 9 < u64_mod
    → decode_prefix (encode i ++ rest) ≡ ok (content_length i, length (encode i))
decode_prefix-encode (Item.list content) rest h = rw (length-encode_list content) (
    unfold encode in
    rw append_assoc (
      decode_prefix-list (length content) (content ++ rest)
        (omega (arith, length-encode_list content))))
decode_prefix-encode (Item.string []) rest h = unfold encode decode_prefix in refl
decode_prefix-encode (Item.string (b ∷ [])) rest h = unfold encode decode_prefix in ground arith
decode_prefix-encode (Item.string (a ∷ b ∷ bs)) rest h = rw (length-encode_string a b bs) (
    unfold encode in
    rw append_assoc (
      decode_prefix-string (suc (suc (length bs))) ((a ∷ b ∷ bs) ++ rest)
        (omega (arith, length-encode_string a b bs))))

length-prefix_pos : (short long len : ℕ) → 0 < length (prefix short long len)
unfolding prefix
length-prefix_pos short long len = ground arith

pub length-encode_pos : (i : Item) → 0 < length (encode i)
length-encode_pos (Item.list content) =
    omega (arith, length-encode_list content, length-prefix_pos 0xc0 0xf7 (length content))
length-encode_pos (Item.string []) = unfold encode in omega arith
length-encode_pos (Item.string (b ∷ [])) = unfold encode in ground arith
length-encode_pos (Item.string (a ∷ b ∷ bs)) = omega (arith, length-encode_string a b bs)

-- What a list's scan starts from.
pub encode-list :
    (content : List ℕ) → encode (Item.list content) ≡ prefix 0xc0 0xf7 (length content) ++ content
unfolding encode
encode-list content = refl

pub length-encode-list :
    (content : List ℕ)
    → length (encode (Item.list content))
      ≡ length (prefix 0xc0 0xf7 (length content)) + length content
length-encode-list content = length-encode_list content
