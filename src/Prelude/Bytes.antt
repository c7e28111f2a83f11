-- ===== src/Prelude/Bytes.antt =====
-- The test of byte strings decides their equality.
use Prim.Native.Nat.{ℕ}
use mathlib.Core.Path.{◌≡◌, refl}
use mathlib.Core.Bool.{Bool, true, false, ◌&&◌}
use mathlib.Core.List.{List, [], ◌∷◌}
use native.Mathlib.Omega.{arith}
use monad_services.Prelude.Tests.{◌==◌, ==-refl}
use monad_services.Prelude.Lists.{same_bytes}

pub and-both : (a b : Bool) → (a && b) ≡ true → (a ≡ true) × (b ≡ true)
and-both true b h = (refl, h)
and-both false b h = absurd (ground (arith, h))

pub same_bytes_sound : (xs ys : List ℕ) → same_bytes xs ys ≡ true → xs ≡ ys
same_bytes_sound [] [] h = refl
same_bytes_sound [] (y ∷ ys) h = absurd (ground (arith, h))
same_bytes_sound (x ∷ xs) [] h = absurd (ground (arith, h))
same_bytes_sound (x ∷ xs) (y ∷ ys) h =
    let (first, rest) = and-both (x == y) (same_bytes xs ys) h in
    let ih = same_bytes_sound xs ys rest in let head : x ≡ y = ground (arith, first) in cc

pub same_bytes_refl : (xs : List ℕ) → same_bytes xs xs ≡ true
same_bytes_refl [] = refl
same_bytes_refl (x ∷ xs) = rw (==-refl x, same_bytes_refl xs) refl
