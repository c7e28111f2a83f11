-- ===== src/Archive/CircuitBreaker.antt =====
-- crates/monad-archive/src/failover_circuit_breaker.rs. An `Instant` and a `Duration` are numbers
-- of nanoseconds; an operation that reads the clock takes the time as an argument. A `Breaker` is
-- the locked state with a mark for a poisoned lock, on which `read` and `write` answer an error.
pub mod Invariant
pub mod Failover
mod Runs
use monad_services.Prelude.{
  ℕ, ◌-◌, ◌≤◌, Bool, true, false, Option, none, some, List, [], ◌∷◌, leb, ltb, if◌then◌else◌,
  wrapping_add32, Result, ok, err,
}

pub data State : Type 0 where
  closed opened half_open : State

pub record Breaker : Type 0 where
  pub state : State
  pub failure_count : ℕ
  pub failure_threshold : ℕ
  pub recovery_timeout : ℕ
  pub opened_at : Option ℕ
  pub poisoned : Bool

unfoldable pub new : ℕ → ℕ → Breaker
new failure_threshold recovery_timeout = record {
  state = State.closed;
  failure_count = 0;
  failure_threshold = failure_threshold;
  recovery_timeout = recovery_timeout;
  opened_at = none;
  poisoned = false;
}

-- What a request reads under the read lock: the answer of `should_use_fallback`, or that it is to
-- take the write lock before it answers `false`.
pub data Route : Type 0 where
  use_fallback use_primary try_half_open : Route

unfoldable pub route_in : State → Option ℕ → ℕ → ℕ → Route
route_in State.closed opened_at timeout now = Route.use_primary
route_in State.opened none timeout now = Route.use_fallback
route_in State.opened (some t) timeout now =
    if leb timeout (now - t) then Route.try_half_open else Route.use_fallback
route_in State.half_open opened_at timeout now = Route.use_primary

unfoldable pub read_route : Breaker → ℕ → Route
unfolding route_in
read_route b now =
    if b.poisoned then Route.use_primary else route_in b.state b.opened_at b.recovery_timeout now

-- The write under the write lock, which other requests may precede.
unfoldable pub enter_half_open : Breaker → Breaker
enter_half_open b =
    if b.poisoned
    then b
    else elim b.state [ State.opened ↦ record b { state = State.half_open } | _ ↦ b ]

unfoldable pub finish_check : Route → Breaker → Breaker × Bool
unfolding enter_half_open
finish_check Route.use_fallback b = (b, true)
finish_check Route.use_primary b = (b, false)
finish_check Route.try_half_open b = (enter_half_open b, false)

-- The whole call, when no other request takes the lock between the two.
unfoldable pub should_use_fallback : Breaker → ℕ → Breaker × Bool
unfolding read_route finish_check
should_use_fallback b now = finish_check (read_route b now) b

unfoldable pub record_success : Breaker → Breaker
record_success b = if b.poisoned then b else elim b.state [
  | State.half_open ↦ record b { state = State.closed; failure_count = 0; opened_at = none }
  | State.closed ↦ record b { failure_count = 0 }
  | State.opened ↦ record b { failure_count = 0 }
]

-- The `match` of `record_failure`, after the count has gone up (a release build wraps).
unfoldable pub note_failure : Breaker → ℕ → Breaker
note_failure b now = elim b.state [
  | State.closed ↦
      if leb b.failure_threshold b.failure_count
      then record b { state = State.opened; opened_at = some now }
      else b
  | State.half_open ↦ record b { state = State.opened; opened_at = some now }
  | State.opened ↦ b
]

unfoldable pub record_failure : Breaker → ℕ → Breaker
unfolding note_failure
record_failure b now =
    if b.poisoned
    then b
    else note_failure (record b { failure_count = wrapping_add32 b.failure_count 1 }) now

-- `CircuitBreakerMetrics`; a poisoned lock reads as "unknown", which is `none` here.
pub record CircuitBreakerMetrics : Type 0 where
  pub state : Option State
  pub failure_count : ℕ
  pub time_until_recovery : Option ℕ

unfoldable pub time_until_recovery : State → Option ℕ → ℕ → ℕ → Option ℕ
time_until_recovery State.opened (some t) timeout now =
    if ltb (now - t) timeout then some (timeout - (now - t)) else some 0
time_until_recovery _ _ _ _ = none

unfoldable pub metrics : Breaker → ℕ → CircuitBreakerMetrics
unfolding time_until_recovery
metrics b now =
    if b.poisoned
    then record { state = none; failure_count = 0; time_until_recovery = none }
    else record {
      state = some b.state;
      failure_count = b.failure_count;
      time_until_recovery = time_until_recovery b.state b.opened_at b.recovery_timeout now;
    }

pub record FallbackExecutor {ℓ} (P : Type ℓ) : Type ℓ where
  pub primary : P
  pub fallback : Option P
  pub circuit_breaker : Breaker

-- `execute`: the breaker after the call, the answer, and the providers that were asked. `f` is the
-- request; `during` is what other requests do to the shared breaker while the primary is awaited;
-- the breaker is checked at `now`, and a failure is recorded at `later`.
module _ {ℓ κ} {P : Type ℓ} {E : Type 0} {R : Type κ} (f : P → Result E R) where
  module _ (during : Breaker → Breaker) (later : ℕ) (primary fallback : P) where
    unfoldable pub after_primary : Breaker → Result E R → Breaker × Result E R × List P
    unfolding record_success record_failure
    after_primary b (ok r) = (record_success b, ok r, primary ∷ [])
    after_primary b (err e) = (record_failure b later, f fallback, primary ∷ fallback ∷ [])

    unfoldable pub after_check : Breaker × Bool → Breaker × Result E R × List P
    unfolding after_primary
    after_check (b, true) = (b, f fallback, fallback ∷ [])
    after_check (b, false) = after_primary (during b) (f primary)

  unfoldable pub execute :
      (Breaker → Breaker) → ℕ → ℕ → FallbackExecutor P → Breaker × Result E R × List P
  unfolding after_check should_use_fallback
  execute during now later x = elim x.fallback [
    | none ↦ (x.circuit_breaker, f x.primary, x.primary ∷ [])
    | some fallback ↦
        after_check during later x.primary fallback (should_use_fallback x.circuit_breaker now)
  ]
