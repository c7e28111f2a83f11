-- ===== src/Rpc/GasEstimate/Runs.antt =====
-- Estimates of a call that needs 50,000 gas to use 40,000.
use monad_services.Prelude.{
  ℕ, ◌*◌, ◌≤◌, ◌<◌, ◌≡◌, refl, sym, Bool, Option, none, some, ltb, if◌then◌else◌, inl, inr, Result,
  ok, err, ok-inj, Bool-cases, arith,
}
use monad_services.Rpc.GasEstimate.{JsonRpcError, CallResult, EthCallResult, search, estimate_gas}
use monad_services.Rpc.GasEstimate.Search.{IsFound, search-IsFound}
use monad_services.Rpc.GasEstimate.Estimate.{Ends, estimate_gas-Ends}

abbrev limit_of : ℕ → ℕ
limit_of tx = tx

abbrev build : Option ℕ → Result JsonRpcError ℕ
build none = ok 200000
build (some gas) = ok gas

abbrev run : ℕ → CallResult
run tx =
    if ltb tx 50000 then CallResult.failure EthCallResult.out_of_gas else CallResult.success 40000 0

-- 1.5 percent.
abbrev close_enough : ℕ → ℕ → Bool
close_enough width upper = ltb (1000 * width) (15 * upper)

estimate_50000 :
    estimate_gas ℕ limit_of build run close_enough 40 none 200000 300000 300000 ≡ some (ok 50331)
unfolding estimate_gas search
estimate_50000 = refl

estimate_too_low :
    estimate_gas ℕ limit_of build run close_enough 40 (some 45000) 60000 50000 300000
    ≡ some (err JsonRpcError.provider_gas_limit_exceeded)
unfolding estimate_gas
estimate_too_low = refl

run-uses :
    (tx gas_used gas_refund : ℕ)
    → run tx ≡ CallResult.success gas_used gas_refund
    → (0 < gas_used) × (gas_used ≤ tx)
run-uses tx gas_used gas_refund e = elim (Bool-cases (ltb tx 50000)) [
  | inl t ↦ absurd (ground (arith, e, t))
  | inr t ↦
      let same : CallResult.success 40000 0 ≡ CallResult.success gas_used gas_refund =
        ground (arith, e, t) in
      let used : 40000 ≡ gas_used = cc in (omega (arith, used), ground (arith, used, t))
]

search-IsFound_example :
    (outcome : Result JsonRpcError ℕ) × (search ℕ limit_of build run close_enough 40000 39999 70000
      ≡ some outcome)
    × IsFound ℕ limit_of build run close_enough 39999 70000 outcome
search-IsFound_example =
    search-IsFound ℕ limit_of build run close_enough 40000 39999 70000 (omega arith) (omega arith)
      (omega arith)

estimate_gas-Ends_example :
    Ends ℕ limit_of build run close_enough none
      (estimate_gas ℕ limit_of build run close_enough 200000 none 200000 300000 300000)
estimate_gas-Ends_example =
    estimate_gas-Ends ℕ limit_of build run close_enough (λ g tx e. sym (ok-inj e)) run-uses 200000
      none 200000 300000 300000
      (λ tx e. let same : 200000 ≡ tx = ok-inj e in (omega (arith, same), omega (arith, same)))
