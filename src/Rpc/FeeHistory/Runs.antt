-- ===== src/Rpc/FeeHistory/Runs.antt =====
-- The rewards of small blocks.
use monad_services.Prelude.{ℕ, ◌≡◌, refl, none, some, List, [], ◌∷◌, length}
use monad_services.Rpc.FeeHistory.{
  insert_sorted, sorted_by_reward, pass_threshold, rewards_from, calculate_fee_history_rewards,
}
use monad_services.Rpc.FeeHistory.Order.{IsAscending, calculate_fee_history_rewards-IsAscending}

-- 60 of 100 gas have a tip of at most 3.
two_percentiles :
    calculate_fee_history_rewards (9 ∷ 3 ∷ []) (40 ∷ 60 ∷ []) (some (50 ∷ 70 ∷ []))
    ≡ some (9 ∷ 9 ∷ [])
unfolding calculate_fee_history_rewards rewards_from sorted_by_reward insert_sorted pass_threshold
two_percentiles = refl

-- A block with fewer receipts than transactions panics.
missing_receipt : calculate_fee_history_rewards (9 ∷ 3 ∷ []) (40 ∷ []) (some (70 ∷ [])) ≡ none
unfolding calculate_fee_history_rewards rewards_from sorted_by_reward insert_sorted pass_threshold
missing_receipt = refl

calculate_fee_history_rewards-IsAscending_example :
    (rewards : List ℕ) × (calculate_fee_history_rewards
        (9 ∷ 3 ∷ [])
        (40 ∷ 60 ∷ [])
        (some (50 ∷ 70 ∷ []))
      ≡ some rewards)
    × (length rewards ≡ 2)
    × IsAscending 0 rewards
calculate_fee_history_rewards-IsAscending_example =
    calculate_fee_history_rewards-IsAscending (9 ∷ 3 ∷ []) (40 ∷ 60 ∷ []) (50 ∷ 70 ∷ []) refl
