-- ===== src/Rpc/FillTransaction/Filled.antt =====
-- The gas that is filled in.
use monad_services.Prelude.{
  ℕ, ◌^◌, ◌≤◌, ◌<◌, ◌≡◌, refl, sym, ap, ◌∙◌, Bool, Option, none, some, ltb, if◌then◌else◌, inl, inr,
  Result, ok, err, Bool-cases, arith,
}
use monad_services.Rpc.GasEstimate.{JsonRpcError, CallResult}
use monad_services.Rpc.GasEstimate.Estimate.{Succeeds, IsWorth, estimate_gas-Ends}
use monad_services.Rpc.CallRequest.{CallRequest, Transaction, gas_limit_of}
use monad_services.Rpc.FillTransaction.{
  Head, build_with, with_estimate, fill_gas, filled_request, build_unsigned_transaction,
}
use monad_services.Rpc.FillTransaction.Envelope.{
  build_unsigned_transaction-build_fill_transaction_envelope,
}

module _ (max_code_size : ℕ) (head : Option Head) (account_nonce : ℕ → Result JsonRpcError ℕ)
    (eth_call : Transaction → CallResult) (below_ratio : ℕ → ℕ → Bool)
    (provider_gas_limit chain_id : ℕ) where
  -- The transaction that is returned succeeded, and its gas limit is the request's.
  abbrev pub IsSimulated : Result JsonRpcError (Transaction × CallRequest) → Type 0
  IsSimulated (err failed) = Unit
  IsSimulated (ok (t, filled)) = Succeeds (eth_call t) × (filled.gas ≡ some (gas_limit_of t))

  abbrev build_of : CallRequest → Option ℕ → Result JsonRpcError Transaction
  build_of =
      build_with max_code_size head account_nonce eth_call below_ratio provider_gas_limit chain_id

  agrees :
      (tx : CallRequest) (gas : ℕ) (t : Transaction)
      → tx.chain_id ≡ some chain_id
      → build_of tx (some gas) ≡ ok t
      → (build_unsigned_transaction max_code_size (record tx { gas = some gas }) chain_id
          ≡ ok (t, filled_request max_code_size (record tx { gas = some gas }) chain_id))
        × (gas_limit_of t ≡ gas)
  agrees tx gas t c built =
      build_unsigned_transaction-build_fill_transaction_envelope max_code_size chain_id
        (record tx { gas = some gas }) gas t refl c built

  worth :
      (tx : CallRequest) (provider : ℕ) (outcome : Result JsonRpcError ℕ)
      → tx.chain_id ≡ some chain_id
      → IsWorth Transaction gas_limit_of (build_of tx) eth_call below_ratio (some provider) outcome
      → (filled : Result JsonRpcError (Transaction × CallRequest)) × (with_estimate max_code_size
            head account_nonce eth_call below_ratio provider_gas_limit chain_id tx
            (some outcome)
          ≡ some filled)
        × IsSimulated filled
  worth tx provider (err failed) c w = (err failed, refl, tt)
  worth tx provider (ok gas) c (given, from, t, built, limit, good) =
      let at : (n : ℕ) × (given ≡ some n) = elim from [
        | inl e ↦ (provider, e)
        | inr e ↦ (gas, e)
      ] in
      let built_at : build_of tx (some at.0) ≡ ok t = ap (build_of tx) (sym at.1) ∙ built in
      let same : gas ≡ at.0 = sym limit ∙ (agrees tx at.0 t c built_at).1 in
      let built_gas : build_of tx (some gas) ≡ ok t =
        ap (λ n. build_of tx (some n)) same ∙ built_at in
      (
        ok (t, filled_request max_code_size (record tx { gas = some gas }) chain_id),
        ap some (agrees tx gas t c built_gas).0,
        (good, ap some (sym limit)),
      )

  -- A request with this chain's ID and no gas is filled or refused, when the protocol's gas limit
  -- is below 2 ^ 63 and within the fuel, and a call that succeeds uses some gas and no more than
  -- its limit. Where it is filled, the very transaction that is returned has succeeded in a call,
  -- and its gas limit is the gas of the request that is returned.
  pub fill_gas-IsSimulated :
      ((tx : Transaction) (gas_used gas_refund : ℕ)
        → eth_call tx ≡ CallResult.success gas_used gas_refund
        → (0 < gas_used) × (gas_used ≤ gas_limit_of tx))
      → (fuel protocol_gas_limit : ℕ) (tx : CallRequest) → tx.chain_id ≡ some chain_id
      → protocol_gas_limit < 2 ^ 63
      → protocol_gas_limit ≤ fuel
      → (filled : Result JsonRpcError (Transaction × CallRequest)) × (fill_gas max_code_size head
            account_nonce eth_call below_ratio provider_gas_limit chain_id fuel protocol_gas_limit
            tx none
          ≡ some filled)
        × IsSimulated filled
  unfolding fill_gas
  fill_gas-IsSimulated uses fuel protocol tx c small enough =
      let provider = if ltb protocol provider_gas_limit then protocol else provider_gas_limit in
      let lower : provider ≤ protocol = elim (Bool-cases (ltb protocol provider_gas_limit)) [
        | inl t ↦ rw t (omega arith)
        | inr t ↦ rw t (ground (arith, t))
      ] in
      let (outcome, done, w) =
        estimate_gas-Ends Transaction gas_limit_of (build_of tx) eth_call below_ratio
          (λ g t e. (agrees tx g t c e).1) uses fuel (some provider) protocol provider protocol
          (λ t e.
            let is : gas_limit_of t ≡ provider = (agrees tx provider t c e).1 in
            (omega (arith, is, lower, small), omega (arith, is, lower, enough))) in
      let (filled, same, good) = worth tx provider outcome c w in
      (
        filled,
        ap
              (λ m.
                with_estimate max_code_size head account_nonce eth_call below_ratio
                  provider_gas_limit chain_id tx m)
              done
            ∙ same,
        good,
      )
