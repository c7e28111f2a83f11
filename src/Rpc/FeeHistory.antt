-- ===== src/Rpc/FeeHistory.antt =====
-- crates/monad-rpc/src/handlers/eth/gas.rs: the rewards of `eth_feeHistory`. A percentile is a floating-point number:
-- its type and the gas at which it stands in a block, rounded, are parameters.
pub mod Order
mod Runs
use monad_services.Prelude.{
  ℕ, zero, suc, ◌+◌, ◌-◌, ◌≡◌, Bool, true, false, ◌&&◌, Option, none, some, List, [], ◌∷◌, length,
  get_elem?, map, ltb, leb, if◌then◌else◌, wrapping_add64, ◌>>=?◌,
}

-- `sorted_by_key` of the gas and the reward of each transaction, by the reward.
unfoldable pub insert_sorted : ℕ × ℕ → List (ℕ × ℕ) → List (ℕ × ℕ)
insert_sorted pair [] = pair ∷ []
insert_sorted pair (other ∷ rest) =
    let more = insert_sorted pair rest in
    if leb pair.1 other.1 then pair ∷ other ∷ rest else other ∷ more

unfoldable pub sorted_by_reward : List (ℕ × ℕ) → List (ℕ × ℕ)
sorted_by_reward [] = []
sorted_by_reward (pair ∷ pairs) = insert_sorted pair (sorted_by_reward pairs)

-- The `while` loop, on what is left of the transactions and their counted number: the index and the gas after it.
-- An index past the receipts panics, which is `none`.
unfoldable pub pass_threshold : ℕ → ℕ → ℕ → ℕ → List (ℕ × ℕ) → Option (ℕ × ℕ)
pass_threshold zero threshold index gas rest = some (index, gas)
pass_threshold (suc left) threshold index gas [] =
    if ltb gas threshold then none else some (index, gas)
pass_threshold (suc left) threshold index gas ((used, reward) ∷ rest) =
    let more = pass_threshold left threshold (suc index) (wrapping_add64 gas used) rest in
    if ltb gas threshold then more else some (index, gas)

abbrev pub clamped : ℕ → ℕ → ℕ
clamped count index = if ltb (count - 1) index then count - 1 else index

abbrev pub drop_to : ℕ → List (ℕ × ℕ) → List (ℕ × ℕ)
drop_to zero pairs = pairs
drop_to (suc n) [] = []
drop_to (suc n) (pair ∷ pairs) = drop_to n pairs

-- The loop over the percentiles.
unfoldable pub rewards_from : ℕ → List (ℕ × ℕ) → ℕ → ℕ → List ℕ → Option (List ℕ)
rewards_from count pairs index gas [] = some []
rewards_from count pairs index gas (threshold ∷ thresholds) =
    pass_threshold (count - index) threshold index gas (drop_to index pairs) >>=? λ passed.
    get_elem? pairs (clamped count passed.0) >>=? λ pair.
    rewards_from count pairs passed.0 passed.1 thresholds >>=? λ rest. some (pair.1 ∷ rest)

abbrev pub zip_receipts : List ℕ → List ℕ → List (ℕ × ℕ)
zip_receipts (tip ∷ tips) (used ∷ receipts) = (used, tip) ∷ zip_receipts tips receipts
zip_receipts _ _ = []

abbrev pub zeros : List ℕ → List ℕ
zeros [] = []
zeros (_ ∷ rest) = 0 ∷ zeros rest

-- `calculate_fee_history_rewards`: the transactions are their effective tips, the receipts the gas that each used, and
-- the percentiles their thresholds.
unfoldable pub calculate_fee_history_rewards : List ℕ → List ℕ → Option (List ℕ) → Option (List ℕ)
calculate_fee_history_rewards tips receipts none = some []
calculate_fee_history_rewards [] receipts (some thresholds) = some (zeros thresholds)
calculate_fee_history_rewards (tip ∷ tips) receipts (some thresholds) =
    rewards_from (length (tip ∷ tips)) (sorted_by_reward (zip_receipts (tip ∷ tips) receipts)) 0 0
      thresholds
