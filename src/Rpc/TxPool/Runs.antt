-- ===== src/Rpc/TxPool/Runs.antt =====
-- Concrete runs of the bridge, and its theorems at concrete inputs.
use monad_services.Prelude.{
  ◌⊎◌, ℕ, ◌/◌, ◌+◌, ◌-◌, ◌<◌, ◌≡◌, refl, true, none, some, List, [], ◌∷◌, ◌++◌, contains,
  if◌then◌else◌, ◌==◌, arith,
}
use monad_services.Prelude.Map
use monad_services.Prelude.Map.{lookup, remove, contains_key}
use monad_services.Rpc.TxPool.{
  TxStatus, Action, EthTxPoolEvent, empty, new, add_tx, apply_snapshot, handle_events, cleanup,
  get_status_by_hash, get_status_by_address, tx_evict_duration,
}
use monad_services.Rpc.TxPool.Invariant.{IsValid}
use monad_services.Rpc.TxPool.Eviction.{Op, run, QueuedAt, run-IsValid, run-Fresh}
use monad_services.Rpc.TxPool.Statuses.{
  last_status, get_status_by_hash-apply_snapshot, get_status_by_hash-handle_events,
  get_status_by_hash-add_tx,
}

-- What the tests compute with.
program : Unit {0}
unfolding new add_tx apply_snapshot handle_events cleanup get_status_by_hash get_status_by_address
    run lookup remove contains_key Map.insert
program = tt

-- Transaction 10 a + n is sent by the address a.
abbrev sender : ℕ → ℕ
sender h = h / 10

abbrev inserted : ℕ → EthTxPoolEvent
inserted h = record { tx_hash = h; action = Action.insert (h / 10) }

abbrev evicted : ℕ → EthTxPoolEvent
evicted h = record { tx_hash = h; action = Action.evict 4 }

abbrev history : List (ℕ × Op)
history =
    (5, Op.add 11)
    ∷ (6, Op.events (inserted 11 ∷ inserted 12 ∷ inserted 21 ∷ []))
    ∷ (7, Op.events (evicted 12 ∷ []))
    ∷ []

-- A transaction dropped by a snapshot leaves its address, and old ones are cleaned up.
history_test :
    let b = run history (new 1 (31 ∷ [])) in
    (get_status_by_address b 1 ≡ some ((11, TxStatus.tracked) ∷ (12, TxStatus.evicted 4) ∷ []))
    × (get_status_by_hash b 31 ≡ some TxStatus.tracked)
    × (get_status_by_address (apply_snapshot b 9 (12 ∷ [])) 1 ≡ some ((12, TxStatus.tracked) ∷ []))
    × (get_status_by_address (cleanup b (tx_evict_duration + 6)) 1 ≡ none)
unfolding program
history_test = (refl, refl, refl, refl)

run-IsValid_example : IsValid sender (run history (new 1 (31 ∷ [])))
run-IsValid_example =
    run-IsValid sender history 1 (31 ∷ []) ((refl, (refl, (refl, tt))), ((tt, tt), tt))

run-Fresh_example :
    (at : ℕ) × QueuedAt at 21
      (run (history ++ ((9, Op.clean) ∷ [])) (new 1 (31 ∷ []))).eviction_queue
    × (9 - at < tx_evict_duration)
unfolding program
run-Fresh_example =
    run-Fresh sender history 1 9 (31 ∷ []) 21 ((refl, (refl, (refl, tt))), ((tt, tt), tt))
      (omega arith) refl

get_status_by_hash-apply_snapshot_example :
    get_status_by_hash (apply_snapshot (run history empty) 9 (12 ∷ 50 ∷ [])) 50
    ≡ (if contains 50 (12 ∷ 50 ∷ []) then some TxStatus.tracked else none)
get_status_by_hash-apply_snapshot_example =
    get_status_by_hash-apply_snapshot (run history empty) 9 (12 ∷ 50 ∷ []) 50

get_status_by_hash-handle_events_example :
    get_status_by_hash (handle_events empty 6 (inserted 11 ∷ evicted 11 ∷ [])) 11
    ≡ elim (last_status 11 (inserted 11 ∷ evicted 11 ∷ [])) [
      | some s ↦ some s
      | none ↦ get_status_by_hash empty 11
    ]
get_status_by_hash-handle_events_example =
    get_status_by_hash-handle_events (inserted 11 ∷ evicted 11 ∷ []) empty 6 11

get_status_by_hash-add_tx_example :
    (get_status_by_hash (add_tx (run history empty) 9 12).0 12
      ≡ elim (get_status_by_hash (run history empty) 12) [
        | some s ↦ some s
        | none ↦ if 12 == 12 then some TxStatus.unknown else none
      ])
    × ((add_tx (run history empty) 9 12).2 ≡ true
        → (get_status_by_hash (run history empty) 12 ≡ none)
          ⊎ (get_status_by_hash (run history empty) 12 ≡ some TxStatus.unknown))
    × ((get_status_by_hash (run history empty) 12 ≡ none)
          ⊎ (get_status_by_hash (run history empty) 12 ≡ some TxStatus.unknown)
        → (add_tx (run history empty) 9 12).2 ≡ true)
get_status_by_hash-add_tx_example = get_status_by_hash-add_tx (run history empty) 9 12 12
