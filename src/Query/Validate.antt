-- ===== src/Query/Validate.antt =====
-- crates/monad-query-cli/src/validate/mod.rs: how the validator finds the bytes of an item, from the
-- locations of it and of the item before it.
pub mod Items
pub mod Unaligned
mod Runs
use monad_services.Prelude.{
  ℕ, ◌-◌, ◌≡◌, Option, none, some, List, [], ◌∷◌, ltb, ◌==◌, if◌then◌else◌, Result, ok, err, ◌>>=◌,
}
use monad_services.Prelude.Map.{lookup}
use monad_services.Query.Schema.{partition_start}

pub data ValidateError : Type 0 where
  missing_location missing_preceding invalid_bounds : ℕ → ValidateError

abbrev pub found_or : ValidateError → Option ℕ → Result ValidateError ℕ
found_or missing none = err missing
found_or missing (some end) = ok end

abbrev pub bounds_start : List (ℕ × ℕ) → ℕ → Result ValidateError ℕ
bounds_start locations id =
    if id == partition_start id
    then ok 0
    else found_or (ValidateError.missing_preceding id) (lookup (id - 1) locations)

-- The loop body that gives an item's bounds in the blob of its partition.
unfoldable pub payload_bounds : List (ℕ × ℕ) → ℕ → Result ValidateError (ℕ × ℕ)
payload_bounds locations id =
    found_or (ValidateError.missing_location id) (lookup id locations) >>= λ end.
    bounds_start locations id >>= λ start.
    if ltb end start then err (ValidateError.invalid_bounds id) else ok (start, end)
