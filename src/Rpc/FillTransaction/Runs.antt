-- ===== src/Rpc/FillTransaction/Runs.antt =====
-- Requests filled on a chain whose calls need 50,000 gas to use 40,000.
use monad_services.Prelude.{
  ℕ, ◌*◌, ◌≤◌, ◌<◌, ◌≡◌, refl, Bool, Option, none, some, [], ◌∷◌, ltb, if◌then◌else◌, inl, inr,
  Result, ok, err, Bool-cases, arith,
}
use monad_services.Rpc.GasEstimate.{JsonRpcError, CallResult, EthCallResult, estimate_gas, search}
use monad_services.Rpc.CallRequest.{
  GasPriceDetails, CallRequest, Transaction, gas_limit_of, try_from,
}
use monad_services.Rpc.FillTransaction.{
  Head, fill_details, fill_request, fill_gas, filled_request, normalize_fill_transaction_request,
  requires_eip2930_encoding, validate_fill_transaction_type, build_fill_transaction_envelope,
  build_unsigned_transaction,
}
use monad_services.Rpc.FillTransaction.Fees.{IsSignable, Keeps, fill_details-IsSignable}
use monad_services.Rpc.FillTransaction.Envelope.{
  build_unsigned_transaction-build_fill_transaction_envelope,
}
use monad_services.Rpc.FillTransaction.Filled.{IsSimulated, fill_gas-IsSimulated}

abbrev run : Transaction → CallResult
run tx =
    if ltb (gas_limit_of tx) 50000
    then CallResult.failure EthCallResult.out_of_gas
    else CallResult.success 40000 0

abbrev close_enough : ℕ → ℕ → Bool
close_enough width upper = ltb (1000 * width) (15 * upper)

abbrev a_head : Option Head
a_head = some (record { base_fee_per_gas = some 100; gas_limit = 200000 })

abbrev first_nonce : ℕ → Result JsonRpcError ℕ
first_nonce sender = ok 5

abbrev a_request : CallRequest
a_request = record {
  sender = some 1;
  to = some 2;
  gas = some 0;
  gas_price_details = GasPriceDetails.eip1559 (some 7) none;
  value = none;
  input = record { input = none; data_bytes = some (9 ∷ []) };
  nonce = none;
  chain_id = none;
  access_list = none;
  authorization_list = none;
  max_fee_per_blob_gas = none;
  blob_versioned_hashes = none;
  transaction_type = some 2;
}

abbrev a_filled : CallRequest
a_filled = record a_request {
  gas = none;
  gas_price_details = GasPriceDetails.eip1559 (some 2000000000) (some 2000000000);
  value = some 0;
  input = record { input = some (9 ∷ []); data_bytes = none };
  nonce = some 5;
  chain_id = some 143;
}

filled_up_to_gas :
    fill_request 1000 a_head first_nonce run close_enough 300000 143 a_request ≡ ok a_filled
unfolding fill_request normalize_fill_transaction_request validate_fill_transaction_type
    fill_details
filled_up_to_gas = refl

blob_refused :
    fill_request 1000 a_head first_nonce run close_enough 300000 143
      (record a_request { transaction_type = some 3 })
    ≡ err JsonRpcError.invalid_params
unfolding fill_request normalize_fill_transaction_request
blob_refused = refl

wrong_type_refused :
    fill_request 1000 a_head first_nonce run close_enough 300000 143
      (record a_request { transaction_type = some 1 })
    ≡ err JsonRpcError.invalid_params
unfolding fill_request normalize_fill_transaction_request validate_fill_transaction_type
wrong_type_refused = refl

abbrev with_gas : CallRequest
with_gas = record a_filled { gas = some 50331 }

abbrev a_transaction : Transaction
a_transaction = Transaction.eip1559 143 5 50331 2000000000 2000000000 (some 2) 0 [] (9 ∷ [])

gas_filled :
    fill_gas 1000 a_head first_nonce run close_enough 300000 143 40 200000 a_filled none
    ≡ some (ok (a_transaction, filled_request 1000 with_gas 143))
unfolding fill_gas estimate_gas search build_fill_transaction_envelope build_unsigned_transaction
    try_from requires_eip2930_encoding
gas_filled = refl

a_built : build_fill_transaction_envelope 1000 with_gas 143 ≡ ok a_transaction
unfolding build_fill_transaction_envelope try_from requires_eip2930_encoding
a_built = refl

build_unsigned_transaction-build_fill_transaction_envelope_example :
    (build_unsigned_transaction 1000 with_gas 143
      ≡ ok (a_transaction, filled_request 1000 with_gas 143))
    × (gas_limit_of a_transaction ≡ 50331)
build_unsigned_transaction-build_fill_transaction_envelope_example =
    build_unsigned_transaction-build_fill_transaction_envelope 1000 143 with_gas 50331 a_transaction
      refl refl a_built

fill_details-IsSignable_example :
    (filled : GasPriceDetails) × (fill_details 100 150
        (some 3)
        (GasPriceDetails.eip1559 (some 7) none)
      ≡ ok filled)
    × IsSignable 100 filled
    × Keeps (GasPriceDetails.eip1559 (some 7) none) filled
fill_details-IsSignable_example =
    fill_details-IsSignable 100 150 (some 3) (some 7) none (omega arith) (omega arith)

run-uses :
    (tx : Transaction) (gas_used gas_refund : ℕ)
    → run tx ≡ CallResult.success gas_used gas_refund
    → (0 < gas_used) × (gas_used ≤ gas_limit_of tx)
run-uses tx gas_used gas_refund e = elim (Bool-cases (ltb (gas_limit_of tx) 50000)) [
  | inl t ↦ absurd (ground (arith, e, t))
  | inr t ↦
      let same : CallResult.success 40000 0 ≡ CallResult.success gas_used gas_refund =
        ground (arith, e, t) in
      let used : 40000 ≡ gas_used = cc in (omega (arith, used), ground (arith, used, t))
]

fill_gas-IsSimulated_example :
    (filled : Result JsonRpcError (Transaction × CallRequest)) × (fill_gas 1000 a_head first_nonce
        run close_enough 300000 143 200000 200000 a_filled none
      ≡ some filled)
    × IsSimulated 1000 a_head first_nonce run close_enough 300000 143 filled
fill_gas-IsSimulated_example =
    fill_gas-IsSimulated 1000 a_head first_nonce run close_enough 300000 143 run-uses 200000 200000
      a_filled refl (omega arith) (omega arith)
