-- ===== src/Query/Schema/Bytes.antt =====
-- Big-endian bytes of a fixed width, and the tags of the families.
use monad_services.Prelude.{
  ℕ, zero, suc, ◌+◌, ◌*◌, ◌/◌, ◌%◌, ◌^◌, ◌<◌, ◌≡◌, refl, ◌∙◌, List, [], ◌∷◌, ◌++◌, length,
  length-append, ok, arith,
}
use native.Mathlib.Nat.{pow-suc}
use monad_services.Query.Schema.{
  to_be_bytes, be_loop, from_be_bytes, Family, family_tag, family_of_tag,
}

pub length-to_be_bytes : (k n : ℕ) → length (to_be_bytes k n) ≡ k
unfolding to_be_bytes
length-to_be_bytes zero n = refl
length-to_be_bytes (suc k) n =
    omega (
      arith,
      length-append (to_be_bytes k (n / 256)) (n % 256 ∷ []),
      length-to_be_bytes k (n / 256),
    )

be_loop-append : (acc : ℕ) (xs ys : List ℕ) → be_loop acc (xs ++ ys) ≡ be_loop (be_loop acc xs) ys
unfolding be_loop
be_loop-append acc [] ys = refl
be_loop-append acc (x ∷ xs) ys = be_loop-append (acc * 256 + x) xs ys

be_loop-one : (acc b : ℕ) → be_loop acc (b ∷ []) ≡ acc * 256 + b
unfolding be_loop
be_loop-one acc b = refl

be_loop-nil : (acc : ℕ) → be_loop acc [] ≡ acc
unfolding be_loop
be_loop-nil acc = refl

pub from_be_bytes-to_be_bytes : (k n : ℕ) → n < 256 ^ k → from_be_bytes (to_be_bytes k n) ≡ n
unfolding to_be_bytes
from_be_bytes-to_be_bytes zero n h = be_loop-nil 0 ∙ omega arith
from_be_bytes-to_be_bytes (suc k) n h =
    let ih = from_be_bytes-to_be_bytes k (n / 256) (omega (arith, pow-suc 256 k)) in
    be_loop-append 0 (to_be_bytes k (n / 256)) (n % 256 ∷ [])
    ∙ be_loop-one (be_loop 0 (to_be_bytes k (n / 256))) (n % 256)
    ∙ omega (arith, ih)

pub family_of_tag-family_tag : (f : Family) → family_of_tag (family_tag f) ≡ ok f
family_of_tag-family_tag Family.block_header = refl
family_of_tag-family_tag Family.transaction = refl
family_of_tag-family_tag Family.log = refl
family_of_tag-family_tag Family.trace = refl
