-- ===== src/Archive/CircuitBreaker/Failover.antt =====
-- When the breaker opens, whom a request asks, and how the breaker recovers.
use monad_services.Prelude.{
  ℕ, ◌+◌, ◌-◌, ◌≤◌, ◌<◌, ◌≡◌, refl, ◌⊎◌, inl, inr, ◌↔◌, true, false, none, some, List, [], ◌∷◌,
  length, u32_mod, Result, ok, err, arith, ◌%◌, ltb, leb, if◌then◌else◌, ◌&&◌, Bool-cases,
  Result-cases,
}
use native.Mathlib.Nat.{zero-add}
use monad_services.Archive.CircuitBreaker.{
  State, Breaker, new, read_route, finish_check, should_use_fallback, record_failure, execute,
}
use monad_services.Archive.CircuitBreaker.Invariant.{IsValid}

abbrev pub fail_all : List ℕ → Breaker → Breaker
fail_all [] b = b
fail_all (t ∷ ts) b = fail_all ts (record_failure b t)

fail_all_opened :
    (ts : List ℕ) (b : Breaker)
    → b.state ≡ State.opened
    → b.poisoned ≡ false
    → (fail_all ts b).state ≡ State.opened
unfolding record_failure
fail_all_opened [] b e p = e
fail_all_opened (t ∷ ts) b e p =
    fail_all_opened ts (record_failure b t) (ground arith) (ground arith)

le_or_lt : (a b : ℕ) → (a ≤ b) ⊎ (b < a)
le_or_lt a b = grind arith

fail_all_closed :
    (ts : List ℕ) (b : Breaker)
    → b.state ≡ State.closed
    → b.poisoned ≡ false
    → b.failure_threshold < u32_mod
    → (b.failure_count ≡ 0) ⊎ (b.failure_count < b.failure_threshold)
    → ((b.failure_count + length ts < b.failure_threshold
          → ((fail_all ts b).state ≡ State.closed)
            × ((fail_all ts b).failure_count ≡ b.failure_count + length ts))
        × (0 < length ts
            → b.failure_threshold ≤ b.failure_count + length ts
            → (fail_all ts b).state ≡ State.opened))
unfolding record_failure
fail_all_closed [] b e p k h = ground arith
fail_all_closed (t ∷ ts) b e p k h = elim (le_or_lt b.failure_threshold (b.failure_count + 1)) [
  | inl reached ↦ (
    λ few. absurd (omega arith),
    λ _ _. fail_all_opened ts (record_failure b t) (ground arith) (ground arith),
  )
  | inr below ↦
      let counted : (record_failure b t).failure_count ≡ b.failure_count + 1 = ground arith in
      let kept : (record_failure b t).failure_threshold ≡ b.failure_threshold = ground arith in
      let ih =
        fail_all_closed ts (record_failure b t) (ground arith) (ground arith) (ground arith)
          (inr (ground arith)) in
      (
        λ few. ((ih.0 (omega arith)).0, omega (arith, (ih.0 (omega arith)).1)),
        λ _ many. ih.1 (omega arith) (omega arith),
      )
]

-- Failures recorded on a new breaker with a u32 threshold open it exactly when there are at least
-- as many as the threshold, and at least one.
pub fail_all-new :
    (ts : List ℕ) (threshold timeout : ℕ)
    → threshold < u32_mod
    → (fail_all ts (new threshold timeout)).state
      ≡ (if ltb 0 (length ts) && leb threshold (length ts) then State.opened else State.closed)
unfolding new
fail_all-new [] k r h = refl
fail_all-new (t ∷ ts) k r h =
    let facts = rw zero-add at (fail_all_closed (t ∷ ts) (new k r) refl refl h (inl refl)) in
    elim (le_or_lt k (length (t ∷ ts))) [
      | inl many ↦ let reached = facts.1 (omega arith) many in ground (arith, reached)
      | inr few ↦ let still_closed = (facts.0 few).0 in ground (arith, still_closed)
    ]

-- A consistent breaker with a lock that is not poisoned sends a request to the fallback exactly
-- when it is open and less than the recovery timeout has passed since it opened.
pub should_use_fallback_iff :
    (b : Breaker) (now : ℕ)
    → IsValid b
    → b.poisoned ≡ false
    → ((should_use_fallback b now).1 ≡ true) ↔ (
        (b.state ≡ State.opened)
        × ((t : ℕ) × (b.opened_at ≡ some t) × (now - t < b.recovery_timeout)))
unfolding should_use_fallback
should_use_fallback_iff b now v p = (λ e. ground arith, λ h. ground arith)

-- The outcome of a request that tries the primary of a breaker that has waited long enough.
abbrev pub recovery {ℓ κ} :
    {P : Type ℓ} {E : Type 0} {R : Type κ}
    → (P → Result E R)
    → Breaker
    → P
    → P
    → ℕ
    → Result E R
    → Breaker × Result E R × List P
recovery f b p q later (ok r) =
    (record b { state = State.closed; failure_count = 0; opened_at = none }, ok r, p ∷ [])
recovery f b p q later (err e) = (
  record b {
    state = State.opened;
    failure_count = (b.failure_count + 1) % u32_mod;
    opened_at = some later;
  },
  f q,
  p ∷ q ∷ [],
)

-- A request to an open breaker with a lock that is not poisoned, a fallback, and at least the
-- recovery timeout since it opened, asks the primary. If that succeeds, its answer is returned and
-- the breaker closes with no failure counted; if it fails, the fallback is asked too and its answer
-- returned, and the breaker is open again from the time of the failure. (No other request writes
-- while the primary is awaited.)
pub execute-recovery {ℓ κ} :
    {P : Type ℓ} {E : Type 0} {R : Type κ} (f : P → Result E R) (b : Breaker) (p q : P)
    (t now later : ℕ)
    → b.poisoned ≡ false
    → b.state ≡ State.opened
    → b.opened_at ≡ some t
    → b.recovery_timeout ≤ now - t
    → execute f (λ x. x) now later (record { primary = p; fallback = some q; circuit_breaker = b })
      ≡ recovery f b p q later (f p)
unfolding execute
execute-recovery f b p q t now later h1 h2 h3 h4 = ground arith

-- If the fallback answers, then a request always returns an answer, the primary's or the
-- fallback's, whatever the breaker, the clock and the other requests do.
pub execute-available {ℓ κ} :
    {P : Type ℓ} {E : Type 0} {R : Type κ} (f : P → Result E R) (during : Breaker → Breaker)
    (b : Breaker) (p q : P) (now later : ℕ) (r : R)
    → f q ≡ ok r
    → (a : R) × ((execute f during now later
          (record { primary = p; fallback = some q; circuit_breaker = b })).1
        ≡ ok a)
      × ((a ≡ r) ⊎ (f p ≡ ok a))
unfolding execute
execute-available f during b p q now later r h = elim (Bool-cases (should_use_fallback b now).1) [
  | inl asked ↦ (r, ground arith, inl refl)
  | inr shut ↦ elim (Result-cases (f p)) [
    | inl (a, e) ↦ (a, ground arith, inr e)
    | inr (x, e) ↦ (r, ground arith, inl refl)
  ]
]

-- The write lock is taken after the read lock is dropped. If another request turns half-open and
-- fails in between, then the late write turns the breaker half-open again, however little time has
-- passed since it opened: the answer `false` of both requests rests on the first opening.
pub finish_check-late :
    (b : Breaker) (t now later : ℕ)
    → b.poisoned ≡ false
    → b.state ≡ State.opened
    → b.opened_at ≡ some t
    → b.recovery_timeout ≤ now - t
    → 0 < b.recovery_timeout
    → let reopened = record_failure (should_use_fallback b now).0 later in
      (reopened.state ≡ State.opened)
      × (reopened.opened_at ≡ some later)
      × ((should_use_fallback reopened later).1 ≡ true)
      × ((finish_check (read_route b now) reopened).0.state ≡ State.half_open)
      × ((finish_check (read_route b now) reopened).1 ≡ false)
unfolding should_use_fallback record_failure
finish_check-late b t now later h1 h2 h3 h4 h5 = ground arith
