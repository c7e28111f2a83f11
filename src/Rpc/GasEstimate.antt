-- ===== src/Rpc/GasEstimate.antt =====
-- crates/monad-rpc/src/handlers/eth/gas.rs: the search of `eth_estimateGas` for a gas limit. A transaction is
-- what `build_tx` makes of the request with a gas limit, and `eth_call` runs it on the virtual machine. The
-- test of the error ratio is a comparison of floating-point numbers, `below_ratio`.
pub mod Search
pub mod Estimate
mod Runs
use monad_services.Prelude.{
  ℕ, zero, suc, ◌+◌, ◌-◌, ◌*◌, ◌/◌, ◌≡◌, Bool, true, false, not, ◌&&◌, Option, none, some, ltb,
  if◌then◌else◌, wrapping_add64, wrapping_sub64, wrapping_mul64, Result, ok, err, ◌>>=◌,
}

pub data EthCallResult : Type 0 where
  out_of_gas : EthCallResult
  other : ℕ → EthCallResult

pub data CallResult : Type 0 where
  success : (gas_used gas_refund : ℕ) → CallResult
  failure : (error_code : EthCallResult) → CallResult
  revert : CallResult

pub data JsonRpcError : Type 0 where
  provider_gas_limit_exceeded out_of_gas_allowance unexpected_call_result : JsonRpcError
  call_failed : EthCallResult → JsonRpcError
  invalid_params block_not_found tip_too_high : JsonRpcError
  max_fee_below_base_fee priority_fee_above_max_fee : JsonRpcError
  code_size_too_large : ℕ → JsonRpcError

abbrev pub call_stipend : ℕ
call_stipend = 2300

-- The first call, of the request as it came.
abbrev pub first_outcome : ℕ → ℕ → ℕ → CallResult → Result JsonRpcError (ℕ × ℕ)
first_outcome original provider protocol (CallResult.success gas_used gas_refund) =
    ok (gas_used, gas_refund)
first_outcome original provider protocol (CallResult.failure EthCallResult.out_of_gas) =
    if ltb provider protocol && ltb provider original
    then err JsonRpcError.provider_gas_limit_exceeded
    else err JsonRpcError.out_of_gas_allowance
first_outcome original provider protocol (CallResult.failure (EthCallResult.other code)) =
    err (JsonRpcError.call_failed (EthCallResult.other code))
first_outcome original provider protocol CallResult.revert = err JsonRpcError.unexpected_call_result

-- The 63/64 rule.
abbrev pub optimistic_gas : ℕ → ℕ → ℕ
optimistic_gas gas_used gas_refund =
    wrapping_mul64 (wrapping_add64 (wrapping_add64 gas_used gas_refund) call_stipend) 64 / 63

abbrev pub second_outcome : ℕ → ℕ → CallResult → Result JsonRpcError (ℕ × ℕ)
second_outcome limit upper (CallResult.success gas_used gas_refund) =
    ok (wrapping_sub64 gas_used 1, limit)
second_outcome limit upper (CallResult.failure code) = ok (limit, upper)
second_outcome limit upper CallResult.revert = err JsonRpcError.unexpected_call_result

abbrev pub succeeded : CallResult → Result JsonRpcError Bool
succeeded (CallResult.success gas_used gas_refund) = ok true
succeeded (CallResult.failure code) = ok false
succeeded CallResult.revert = err JsonRpcError.unexpected_call_result

module _ (Tx : Type 0) (gas_limit : Tx → ℕ) (build_tx : Option ℕ → Result JsonRpcError Tx)
    (eth_call : Tx → CallResult) (below_ratio : ℕ → ℕ → Bool) where
  abbrev pub search_bounds : ℕ → ℕ × ℕ → Result JsonRpcError (ℕ × ℕ)
  search_bounds upper (gas_used, gas_refund) =
      build_tx (some (optimistic_gas gas_used gas_refund)) >>= λ tx.
      if ltb (gas_limit tx) upper
      then second_outcome (gas_limit tx) upper (eth_call tx)
      else ok (wrapping_sub64 gas_used 1, upper)

  abbrev pub probe : ℕ → Result JsonRpcError Bool
  probe gas = build_tx (some gas) >>= λ tx. succeeded (eth_call tx)

  abbrev pub narrowed :
      (ℕ → ℕ → Option (Result JsonRpcError ℕ))
      → ℕ
      → ℕ
      → ℕ
      → Result JsonRpcError Bool
      → Option (Result JsonRpcError ℕ)
  narrowed continue lower mid upper (err failed) = some (err failed)
  narrowed continue lower mid upper (ok true) = continue lower mid
  narrowed continue lower mid upper (ok false) = continue mid upper

  -- The binary search, on fuel: `none` when it is used up.
  unfoldable pub search : ℕ → ℕ → ℕ → Option (Result JsonRpcError ℕ)
  search zero lower upper = none
  search (suc fuel) lower upper =
      let width = wrapping_sub64 upper lower in
      let mid = wrapping_add64 upper lower / 2 in
      let rest = narrowed (search fuel) lower mid upper (probe mid) in
      if not (ltb 1 width)
      then some (ok upper)
      else if below_ratio width upper
      then some (ok upper)
      else rest

  abbrev pub searched : ℕ → Result JsonRpcError (ℕ × ℕ) → Option (Result JsonRpcError ℕ)
  searched fuel (err failed) = some (err failed)
  searched fuel (ok (lower, upper)) = search fuel lower upper

  -- `estimate_gas_with_builder`, of a request with or without a gas limit.
  unfoldable pub estimate_gas : ℕ → Option ℕ → ℕ → ℕ → ℕ → Option (Result JsonRpcError ℕ)
  estimate_gas fuel requested original provider protocol = searched fuel (
      build_tx requested >>= λ tx.
      first_outcome original provider protocol (eth_call tx) >>= λ used.
      search_bounds (gas_limit tx) used)
