-- ===== src/Archive/RlpScanner/Termination.antt =====
-- When the scanner's loop ends.
use monad_services.Prelude.{
  ℕ, zero, suc, ◌+◌, ◌-◌, ◌*◌, ◌<◌, ◌≤◌, ◌≡◌, ◌≢◌, refl, sym, ap, ◌∙◌, Bool, true, false, ◌&&◌,
  List, [], ◌∷◌, length, drop, take, ltb, ◌==◌, if◌then◌else◌, u64_mod, wrapping_add64, Result, ok,
  err, ◌>>=◌, arith, Bool-cases, inl, inr,
}
use monad_services.Archive.RlpScanner.{
  Error, decode_length, decode_prefix, decode_long, decode_uint, decode_uint_loop, scan_items,
  scan_fuel,
}

wrapping_add64-zero : (a : ℕ) → a < u64_mod → wrapping_add64 a 0 ≡ a
wrapping_add64-zero a h = omega arith

-- An item whose total length wraps around to 0 holds the loop up: before the end, at such an item, no
-- number of rounds is enough, so that the loop of the source never leaves it.
pub scan_items-wrapped :
    (fuel : ℕ) (bytes : List ℕ) (position end content : ℕ)
    → position < end
    → position < u64_mod
    → decode_length bytes position ≡ ok (content, 0)
    → scan_items fuel bytes position end ≡ err Error.out_of_fuel
unfolding scan_items
scan_items-wrapped zero bytes position end content lt fits read = ground arith
scan_items-wrapped (suc fuel) bytes position end content lt fits read =
    let ih = scan_items-wrapped fuel bytes position end content lt fits read in
    let stays = wrapping_add64-zero position fits in ground (arith, read, ih, stays)

-- No item's total length is 0 or takes its end past the 64 bits.
abbrev pub NoWrap : List ℕ → Type 0
NoWrap bytes =
    (position content total : ℕ)
    → decode_length bytes position ≡ ok (content, total)
    → (1 ≤ total) × (position + total < u64_mod)

decode_length_past :
    (bytes : List ℕ) (position : ℕ)
    → length bytes < position
    → decode_length bytes position ≡ err Error.panicked
unfolding decode_length
decode_length_past bytes position h = ground (arith, h)

-- Whether a result comes of rounds enough.
abbrev pub ends {ℓ} : {A : Type ℓ} → Result Error A → Bool
ends (err Error.out_of_fuel) = false
ends _ = true

ends-bind {ℓ κ} :
    {A : Type ℓ} {B : Type κ} (m : Result Error A) (f : A → Result Error B)
    → ends m ≡ true
    → ((a : A) → m ≡ ok a → ends (f a) ≡ true)
    → ends (m >>= f) ≡ true
ends-bind {A = A} {B = B} (ok a) f h k = k a refl
ends-bind {A = A} {B = B} (err e) f h k = err_ends e h
  where
    err_ends : (e : Error) → ends {A = A} (err e) ≡ true → ends {A = B} (err e) ≡ true
    err_ends Error.unexpected_end h = refl
    err_ends Error.short_string_length h = refl
    err_ends Error.short_list_length h = refl
    err_ends Error.empty_uint h = refl
    err_ends Error.leading_zero h = refl
    err_ends Error.uint_overflow h = refl
    err_ends Error.mismatched_counts h = refl
    err_ends Error.panicked h = refl
    err_ends Error.out_of_fuel h = h

ends-if {ℓ} :
    {A : Type ℓ} (b : Bool) (x y : Result Error A)
    → ends x ≡ true
    → ends y ≡ true
    → ends (if b then x else y) ≡ true
ends-if true x y hx hy = hx
ends-if false x y hx hy = hy

ends-decode_uint_loop : (bytes : List ℕ) (n : ℕ) → ends (decode_uint_loop bytes n) ≡ true
unfolding decode_uint_loop
ends-decode_uint_loop [] n = refl
ends-decode_uint_loop (b ∷ bytes) n = elim (Bool-cases (ltb (n * 256) u64_mod)) [
  | inl fits ↦ elim (Bool-cases (ltb (n * 256 + b) u64_mod)) [
    | inl more ↦ ground (arith, fits, more, ends-decode_uint_loop bytes (n * 256 + b))
    | inr more ↦ ground (arith, fits, more)
  ]
  | inr fits ↦ ground (arith, fits)
]

ends-decode_uint : (bytes : List ℕ) → ends (decode_uint bytes) ≡ true
unfolding decode_uint
ends-decode_uint [] = refl
ends-decode_uint (b ∷ bytes) =
    ends-if (b == 0 && ltb 0 (length bytes)) (err Error.leading_zero)
      (decode_uint_loop (b ∷ bytes) 0) refl (ends-decode_uint_loop (b ∷ bytes) 0)

module _ (e : Error) (known : ends {A = ℕ × ℕ} (err e) ≡ true) where
  ends-decode_long : (n : ℕ) (rest : List ℕ) → ends (decode_long e n rest) ≡ true
  unfolding decode_long
  ends-decode_long n rest =
      ends-if (ltb (suc (length rest)) (1 + n)) (err e)
        (decode_uint (take n rest) >>= λ len. ok (len, wrapping_add64 (1 + n) len)) known
        (ends-bind (decode_uint (take n rest)) (λ len. ok (len, wrapping_add64 (1 + n) len))
          (ends-decode_uint (take n rest)) (λ a f. refl))

ends-decode_prefix : (bytes : List ℕ) → ends (decode_prefix bytes) ≡ true
unfolding decode_prefix
ends-decode_prefix [] = refl
ends-decode_prefix (b ∷ rest) =
    let string = ends-decode_long Error.short_string_length refl (b - 0xb7) rest in
    let list = ends-decode_long Error.short_list_length refl (b - 0xf7) rest in
    ground (arith, string, list)

ends-decode_length : (bytes : List ℕ) (position : ℕ) → ends (decode_length bytes position) ≡ true
unfolding decode_length
ends-decode_length bytes position = ground (arith, ends-decode_prefix (drop position bytes))

clash : {lens : ℕ × ℕ} → ◌≢◌ {A = Result Error (ℕ × ℕ)} (err Error.panicked) (ok lens)
clash e = cc

module _ (bytes : List ℕ) (fine : NoWrap bytes) where
  scan_items-ends :
      (fuel position end : ℕ)
      → 1 ≤ fuel
      → length bytes + 2 ≤ fuel + position
      → ends (scan_items fuel bytes position end) ≡ true
  unfolding scan_items
  scan_items-ends zero position end some_fuel enough = absurd (omega arith)
  scan_items-ends (suc fuel) position end some_fuel enough =
      let ih = scan_items-ends fuel in
      let round : Result Error (List (ℕ × ℕ)) =
        (decode_length bytes position >>= λ lens.
        scan_items fuel bytes (wrapping_add64 position lens.1) end >>= λ ranges.
        ok ((position, wrapping_add64 position lens.1) ∷ ranges)) in
      let rounds : ends round ≡ true =
        ends-bind (decode_length bytes position)
          (λ lens. scan_items fuel bytes (wrapping_add64 position lens.1) end >>= λ ranges.
            ok ((position, wrapping_add64 position lens.1) ∷ ranges))
          (ends-decode_length bytes position)
          (λ lens read.
            ends-bind (scan_items fuel bytes (wrapping_add64 position lens.1) end)
              (λ ranges. ok ((position, wrapping_add64 position lens.1) ∷ ranges))
              (elim (Bool-cases (ltb (length bytes) position)) [
                | inl past ↦
                    absurd (
                      clash (sym (decode_length_past bytes position (ground (arith, past))) ∙ read))
                | inr within ↦
                    let (low, high) = fine position lens.0 lens.1 read in
                    let sum : wrapping_add64 position lens.1 ≡ position + lens.1 =
                      omega (arith, high) in
                    let inside : position ≤ length bytes = ground (arith, within) in
                    rw sum (
                      ih (position + lens.1) end (omega (arith, low, enough, inside))
                        (omega (arith, low, enough)))
              ])
              (λ a f. refl)) in
      ends-if (ltb position end) round (ok []) rounds refl

-- On data where no item's total length is 0 or passes the 64 bits, the loop ends with the fuel it
-- is given, wherever it starts: with the ranges or with an error of the source.
pub scan_items-total :
    (bytes : List ℕ) (position end : ℕ)
    → NoWrap bytes
    → scan_items (scan_fuel bytes) bytes position end ≢ err Error.out_of_fuel
scan_items-total bytes position end fine e =
    let t = scan_items-ends bytes fine (scan_fuel bytes) position end (omega arith) (omega arith) in
    stuck (sym (ap ends e) ∙ t)
  where
    stuck : false ≢ true
    stuck p = cc
