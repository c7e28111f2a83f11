-- ===== src/Prelude/Words.antt =====
-- Unsigned machine words.
use Prim.Native.Nat.{ℕ, ◌+◌, ◌*◌, ◌%◌, ◌^◌, ◌-◌}
use mathlib.Core.Option.{Option, none, some}
use monad_services.Prelude.Tests.{ltb, if◌then◌else◌}

abbrev pub u32_mod : ℕ
u32_mod = 2 ^ 32

abbrev pub u64_mod : ℕ
u64_mod = 2 ^ 64

-- `a + b` of a release build wraps around.
abbrev pub wrapping_add32 : ℕ → ℕ → ℕ
wrapping_add32 a b = (a + b) % u32_mod

abbrev pub wrapping_add64 : ℕ → ℕ → ℕ
wrapping_add64 a b = (a + b) % u64_mod

-- `u64::checked_add` and `usize::checked_mul`.
abbrev pub checked_add64 : ℕ → ℕ → Option ℕ
checked_add64 a b = if ltb (a + b) u64_mod then some (a + b) else none

abbrev pub checked_mul64 : ℕ → ℕ → Option ℕ
checked_mul64 a b = if ltb (a * b) u64_mod then some (a * b) else none

abbrev pub saturating_add64 : ℕ → ℕ → ℕ
saturating_add64 a b = if ltb (a + b) u64_mod then a + b else u64_mod - 1

-- `a - b` and `a * b` of a release build.
abbrev pub wrapping_sub64 : ℕ → ℕ → ℕ
wrapping_sub64 a b = (a + (u64_mod - b % u64_mod)) % u64_mod

abbrev pub wrapping_mul64 : ℕ → ℕ → ℕ
wrapping_mul64 a b = (a * b) % u64_mod
