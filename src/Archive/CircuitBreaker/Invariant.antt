-- ===== src/Archive/CircuitBreaker/Invariant.antt =====
-- The breaker's invariant over every interleaving of requests.
use monad_services.Prelude.{
  ℕ, ◌<◌, ◌≡◌, refl, ◌⊎◌, inl, Bool, false, Option, none, some, List, [], ◌∷◌, u32_mod, arith,
}
use monad_services.Archive.CircuitBreaker.{
  State, Breaker, new, enter_half_open, record_success, record_failure,
}

abbrev pub StateInvariant : State → ℕ → ℕ → Option ℕ → Type 0
StateInvariant State.closed count threshold opened_at =
    (opened_at ≡ none) × ((count ≡ 0) ⊎ (count < threshold))
StateInvariant State.opened count threshold opened_at = (t : ℕ) × (opened_at ≡ some t)
StateInvariant State.half_open count threshold opened_at = (t : ℕ) × (opened_at ≡ some t)

pub record IsValid (b : Breaker) : Type 0 where
  pub consistent : StateInvariant b.state b.failure_count b.failure_threshold b.opened_at
  pub threshold_fits : b.failure_threshold < u32_mod

-- The writes of all requests, in the order in which they get the lock.
pub data Write : Type 0 where
  half_open : Write
  success : Write
  failure : ℕ → Write

unfoldable pub apply : Write → Breaker → Breaker
unfolding enter_half_open record_success record_failure
apply Write.half_open b = enter_half_open b
apply Write.success b = record_success b
apply (Write.failure now) b = record_failure b now

unfoldable pub run_writes : List Write → Breaker → Breaker
run_writes [] b = b
run_writes (w ∷ ws) b = run_writes ws (apply w b)

apply-IsValid_at :
    (w : Write) (s : State) (p : Bool) (b : Breaker)
    → b.state ≡ s
    → b.poisoned ≡ p
    → IsValid b
    → IsValid (apply w b)
unfolding apply
apply-IsValid_at Write.half_open State.closed false b es ep v = ground arith
apply-IsValid_at _ _ _ b es ep v = ground arith

pub apply-IsValid : (w : Write) (b : Breaker) → IsValid b → IsValid (apply w b)
apply-IsValid w b v = apply-IsValid_at w b.state b.poisoned b refl refl v

run_writes-IsValid_from : (ws : List Write) (b : Breaker) → IsValid b → IsValid (run_writes ws b)
unfolding run_writes
run_writes-IsValid_from [] b v = v
run_writes-IsValid_from (w ∷ ws) b v = run_writes-IsValid_from ws (apply w b) (apply-IsValid w b v)

-- However requests interleave, a breaker made by `new` with a u32 threshold is consistent: closed
-- means that no opening time is stored and that fewer failures than the threshold are counted (or
-- none); open or half-open means that the opening time is stored.
pub run_writes-IsValid :
    (ws : List Write) (threshold timeout : ℕ)
    → threshold < u32_mod
    → IsValid (run_writes ws (new threshold timeout))
unfolding new
run_writes-IsValid ws k r h =
    run_writes-IsValid_from ws (new k r)
      (record { consistent = (refl, inl refl); threshold_fits = h })
