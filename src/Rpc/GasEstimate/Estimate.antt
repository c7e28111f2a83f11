-- ===== src/Rpc/GasEstimate/Estimate.antt =====
-- What an estimate is worth.
use monad_services.Prelude.{
  ℕ, ◌-◌, ◌^◌, ◌≤◌, ◌<◌, ◌≡◌, refl, sym, ap, Bool, true, false, Option, some, ltb, ◌&&◌, subst, ◌⊎◌,
  inl, inr, wrapping_sub64, Result, ok, err, ◌>>=◌, Result-cases, Bool-cases, arith, >>=-eq-ok,
}
use monad_services.Rpc.GasEstimate.{
  JsonRpcError, CallResult, EthCallResult, search, searched, search_bounds, first_outcome,
  second_outcome, succeeded, optimistic_gas, estimate_gas,
}
use monad_services.Rpc.GasEstimate.Search.{IsFound, search-IsFound}

abbrev pub Succeeds : CallResult → Type 0
Succeeds (CallResult.success gas_used gas_refund) = Unit
Succeeds (CallResult.failure code) = true ≡ false
Succeeds CallResult.revert = true ≡ false

succeeded-Succeeds : (outcome : CallResult) → succeeded outcome ≡ ok true → Succeeds outcome
succeeded-Succeeds (CallResult.success gas_used gas_refund) e = tt
succeeded-Succeeds (CallResult.failure code) e = cc
succeeded-Succeeds CallResult.revert e = absurd cc

module _ (Tx : Type 0) (gas_limit : Tx → ℕ) (build_tx : Option ℕ → Result JsonRpcError Tx)
    (eth_call : Tx → CallResult) (below_ratio : ℕ → ℕ → Bool) where
  -- An estimate is the gas limit of a transaction that succeeds: the one requested, or one built with the estimate.
  abbrev pub IsWorth : Option ℕ → Result JsonRpcError ℕ → Type 0
  IsWorth requested (err failed) = Unit
  IsWorth requested (ok found) =
      (gas : Option ℕ) × ((gas ≡ requested) ⊎ (gas ≡ some found))
      × (tx : Tx) × (build_tx gas ≡ ok tx)
      × (gas_limit tx ≡ found)
      × Succeeds (eth_call tx)

  abbrev pub Ends : Option ℕ → Option (Result JsonRpcError ℕ) → Type 0
  Ends requested m =
      (outcome : Result JsonRpcError ℕ) × (m ≡ some outcome) × IsWorth requested outcome

  module _ (limits : (g : ℕ) (tx : Tx) → build_tx (some g) ≡ ok tx → gas_limit tx ≡ g)
      (uses : (tx : Tx) (gas_used gas_refund : ℕ)
        → eth_call tx ≡ CallResult.success gas_used gas_refund
        → (0 < gas_used) × (gas_used ≤ gas_limit tx))
      (fuel : ℕ) (requested : Option ℕ) where
    abbrev run_search : ℕ → ℕ → Option (Result JsonRpcError ℕ)
    run_search = search Tx gas_limit build_tx eth_call below_ratio fuel

    Found-IsWorth :
        (lower upper : ℕ) (outcome : Result JsonRpcError ℕ)
        → IsWorth requested (ok upper)
        → IsFound Tx gas_limit build_tx eth_call below_ratio lower upper outcome
        → IsWorth requested outcome
    Found-IsWorth lower upper (err failed) w f = tt
    Found-IsWorth lower upper (ok found) w f = elim f.succeeds [
      | inl e ↦ subst (λ n. IsWorth requested (ok n)) (sym e) w
      | inr e ↦
          let (tx, built, called) =
            >>=-eq-ok (build_tx (some found)) (λ tx. succeeded (eth_call tx)) e in
          (
            some found,
            inr refl,
            tx,
            built,
            limits found tx built,
            succeeded-Succeeds (eth_call tx) called,
          )
    ]

    run_search-Ends :
        (lower upper : ℕ)
        → lower < upper
        → (upper < 2 ^ 63) × (upper ≤ fuel)
        → IsWorth requested (ok upper)
        → Ends requested (run_search lower upper)
    run_search-Ends lower upper lt small w =
        let (outcome, done, f) =
          search-IsFound Tx gas_limit build_tx eth_call below_ratio fuel lower upper lt small.0
            (omega (arith, small.1)) in
        (outcome, done, Found-IsWorth lower upper outcome w f)

    after_used :
        (gas_used upper : ℕ)
        → (0 < gas_used) × (gas_used ≤ upper)
        → (upper < 2 ^ 63) × (upper ≤ fuel)
        → IsWorth requested (ok upper)
        → Ends requested (run_search (wrapping_sub64 gas_used 1) upper)
    after_used gas_used upper used small w =
        let before : wrapping_sub64 gas_used 1 ≡ gas_used - 1 = omega (arith, used, small) in
        subst (λ n. Ends requested (run_search n upper)) (sym before)
          (run_search-Ends (gas_used - 1) upper (omega (arith, used)) small w)

    after_second :
        (g : ℕ) (tx : Tx) (upper : ℕ) (called : CallResult)
        → build_tx (some g) ≡ ok tx
        → eth_call tx ≡ called
        → gas_limit tx < upper
        → (upper < 2 ^ 63) × (upper ≤ fuel)
        → IsWorth requested (ok upper)
        → Ends requested (
            searched Tx gas_limit build_tx eth_call below_ratio fuel
              (second_outcome (gas_limit tx) upper called))
    after_second g tx upper (CallResult.success gas_used gas_refund) built e lt small w =
        after_used gas_used (gas_limit tx) (uses tx gas_used gas_refund e)
          (omega (arith, small, lt), omega (arith, small, lt))
          (
            some g,
            inr (ap some (sym (limits g tx built))),
            tx,
            built,
            refl,
            subst Succeeds (sym e) tt,
          )
    after_second g tx upper (CallResult.failure code) built e lt small w =
        run_search-Ends (gas_limit tx) upper lt small w
    after_second g tx upper CallResult.revert built e lt small w =
        (err JsonRpcError.unexpected_call_result, refl, tt)

    after_bounds :
        (gas_used gas_refund upper : ℕ)
        → (0 < gas_used) × (gas_used ≤ upper)
        → (upper < 2 ^ 63) × (upper ≤ fuel)
        → IsWorth requested (ok upper)
        → Ends requested (
            searched Tx gas_limit build_tx eth_call below_ratio fuel (
              search_bounds Tx gas_limit build_tx eth_call below_ratio upper
                (gas_used, gas_refund)))
    after_bounds gas_used gas_refund upper used small w =
        let g = optimistic_gas gas_used gas_refund in
        elim (Result-cases (build_tx (some g))) [
          | inr (failed, e) ↦ rw e (err failed, refl, tt)
          | inl (tx, e) ↦ elim (Bool-cases (ltb (gas_limit tx) upper)) [
            | inl t ↦
                rw (e, t) (after_second g tx upper (eth_call tx) e refl (ground (arith, t)) small w)
            | inr t ↦ rw (e, t) (after_used gas_used upper used small w)
          ]
        ]

    after_first :
        (original provider protocol : ℕ) (tx : Tx) (called : CallResult)
        → build_tx requested ≡ ok tx
        → eth_call tx ≡ called
        → (gas_limit tx < 2 ^ 63) × (gas_limit tx ≤ fuel)
        → Ends requested (
            searched Tx gas_limit build_tx eth_call below_ratio fuel (
              first_outcome original provider protocol called >>= λ used.
              search_bounds Tx gas_limit build_tx eth_call below_ratio (gas_limit tx) used))
    after_first original provider protocol tx (CallResult.success gas_used gas_refund) built e
          small =
        after_bounds gas_used gas_refund (gas_limit tx) (uses tx gas_used gas_refund e) small
          (requested, inl refl, tx, built, refl, subst Succeeds (sym e) tt)
    after_first original provider protocol tx (CallResult.failure EthCallResult.out_of_gas) built e
          small =
        elim (Bool-cases (ltb provider protocol && ltb provider original)) [
          | inl t ↦ rw t (err JsonRpcError.provider_gas_limit_exceeded, refl, tt)
          | inr t ↦ rw t (err JsonRpcError.out_of_gas_allowance, refl, tt)
        ]
    after_first original provider protocol tx (CallResult.failure (EthCallResult.other code)) built
          e small =
        (err (JsonRpcError.call_failed (EthCallResult.other code)), refl, tt)
    after_first original provider protocol tx CallResult.revert built e small =
        (err JsonRpcError.unexpected_call_result, refl, tt)

    -- An estimate ends, with an error or with the gas limit of a transaction that succeeds, when a transaction has the
    -- gas limit it is built with, a call that succeeds uses some gas and no more than the limit, and the request's
    -- limit is below 2 ^ 63 and the fuel.
    pub estimate_gas-Ends :
        (original provider protocol : ℕ)
        → ((tx : Tx) → build_tx requested ≡ ok tx → (gas_limit tx < 2 ^ 63) × (gas_limit tx ≤ fuel))
        → Ends requested (
            estimate_gas Tx gas_limit build_tx eth_call below_ratio fuel requested original provider
              protocol)
    unfolding estimate_gas
    estimate_gas-Ends original provider protocol small = elim (Result-cases (build_tx requested)) [
      | inr (failed, e) ↦ rw e (err failed, refl, tt)
      | inl (tx, e) ↦
          rw e (after_first original provider protocol tx (eth_call tx) e refl (small tx e))
    ]
