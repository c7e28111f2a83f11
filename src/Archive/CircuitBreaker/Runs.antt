-- ===== src/Archive/CircuitBreaker/Runs.antt =====
-- Concrete runs of the breaker, and its theorems at concrete inputs.
use monad_services.Prelude.{
  ℕ, ◌-◌, ◌<◌, ◌≡◌, refl, ◌↔◌, true, false, some, [], ◌∷◌, Result, ok, err, arith, ltb, leb,
  if◌then◌else◌, ◌&&◌,
}
use monad_services.Archive.CircuitBreaker.{
  State, Breaker, new, read_route, finish_check, should_use_fallback, record_success,
  record_failure, metrics, execute,
}
use monad_services.Archive.CircuitBreaker.Invariant.{IsValid, Write, run_writes, run_writes-IsValid}
use monad_services.Archive.CircuitBreaker.Failover.{
  fail_all, fail_all-new, should_use_fallback_iff, recovery, execute-recovery, finish_check-late,
}

-- `test_circuit_breaker_states`: the third failure opens the circuit, a success does not close it,
-- and after the timeout the primary is tried.
states_test :
    let b = fail_all (1 ∷ 2 ∷ 3 ∷ []) (new 3 1000) in
    ((should_use_fallback b 4).1 ≡ true)
    × ((should_use_fallback (record_success b) 5).1 ≡ true)
    × ((should_use_fallback (record_success b) 1003).1 ≡ false)
    × ((record_success (should_use_fallback b 1003).0).state ≡ State.closed)
unfolding should_use_fallback record_success record_failure new
states_test = (refl, refl, refl, refl)

-- `test_circuit_breaker_metrics`
metrics_test :
    metrics (fail_all (1 ∷ 2 ∷ []) (new 2 5000)) 10
    ≡ record { state = some State.opened; failure_count = 2; time_until_recovery = some 4992 }
unfolding metrics record_failure new
metrics_test = refl

abbrev waiting : Breaker
waiting = record {
  state = State.opened;
  failure_count = 3;
  failure_threshold = 3;
  recovery_timeout = 1000;
  opened_at = some 5;
  poisoned = false;
}

-- Provider 0 fails and any other answers its number.
abbrev ask : ℕ → Result (Unit {0}) ℕ
ask n = if ltb 0 n then ok n else err tt

run_writes-IsValid_example :
    IsValid (run_writes (Write.failure 4 ∷ Write.half_open ∷ Write.success ∷ []) (new 1 9))
run_writes-IsValid_example =
    run_writes-IsValid (Write.failure 4 ∷ Write.half_open ∷ Write.success ∷ []) 1 9 (omega arith)

fail_all-new_example :
    (fail_all (1 ∷ 2 ∷ 3 ∷ []) (new 3 1000)).state
    ≡ (if ltb 0 3 && leb 3 3 then State.opened else State.closed)
fail_all-new_example = fail_all-new (1 ∷ 2 ∷ 3 ∷ []) 3 1000 (omega arith)

waiting-IsValid : IsValid waiting
waiting-IsValid = record { consistent = (5, refl); threshold_fits = omega arith }

should_use_fallback_iff_example : ((should_use_fallback waiting 9).1 ≡ true) ↔ (
    (waiting.state ≡ State.opened)
    × ((t : ℕ) × (waiting.opened_at ≡ some t) × (9 - t < waiting.recovery_timeout)))
should_use_fallback_iff_example = should_use_fallback_iff waiting 9 waiting-IsValid refl

execute-recovery_example :
    execute ask
      (λ x. x)
      2000
      2001
      (record { primary = 0; fallback = some 7; circuit_breaker = waiting })
    ≡ recovery ask waiting 0 7 2001 (ask 0)
execute-recovery_example = execute-recovery ask waiting 0 7 5 2000 2001 refl refl refl (omega arith)

finish_check-late_example :
    let reopened = record_failure (should_use_fallback waiting 1005).0 1006 in
    (reopened.state ≡ State.opened)
    × (reopened.opened_at ≡ some 1006)
    × ((should_use_fallback reopened 1006).1 ≡ true)
    × ((finish_check (read_route waiting 1005) reopened).0.state ≡ State.half_open)
    × ((finish_check (read_route waiting 1005) reopened).1 ≡ false)
finish_check-late_example =
    finish_check-late waiting 5 1005 1006 refl refl refl (omega arith) (omega arith)
