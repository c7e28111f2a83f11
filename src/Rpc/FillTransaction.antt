-- ===== src/Rpc/FillTransaction.antt =====
-- crates/monad-rpc/src/handlers/eth/gas.rs: the steps of `eth_fillTransaction`.
pub mod Fees
pub mod Envelope
pub mod Filled
mod Runs
use monad_services.Prelude.{
  ℕ, ◌+◌, ◌*◌, ◌/◌, ◌^◌, ◌-◌, ◌≡◌, Bool, true, false, not, ◌&&◌, ◌||◌, Option, none, some, List, [],
  ◌∷◌, length, same_bytes, max, ltb, ◌==◌, if◌then◌else◌, u64_mod, Result, ok, err, ◌>>=◌,
}
use monad_services.Rpc.GasEstimate.{JsonRpcError, CallResult, estimate_gas}
use monad_services.Rpc.CallRequest.{
  GasPriceDetails, CallInput, AccessList, CallRequest, Transaction, gas_limit_of, unwrap_or,
  ok_or_invalid, is_some, to_u64, to_u128, fill_gas_prices, check_create, try_from,
}

-- `fill_transaction_gas_price_details`.
unfoldable pub fill_details :
    (current_base_fee default_fill_base_fee : ℕ) (suggested_priority_fee : Option ℕ)
    → GasPriceDetails
    → Result JsonRpcError GasPriceDetails
fill_details current fill suggested (GasPriceDetails.legacy gas_price) =
    fill_gas_prices fill (GasPriceDetails.legacy gas_price)
fill_details current fill suggested (GasPriceDetails.eip1559 none priority) =
    fill_gas_prices fill
      (GasPriceDetails.eip1559 none (some (unwrap_or (unwrap_or 0 suggested) priority)))
fill_details current fill suggested (GasPriceDetails.eip1559 (some max_fee) priority) =
    let tip = unwrap_or (unwrap_or 0 suggested) priority in
    let default = fill_gas_prices fill (GasPriceDetails.eip1559 none (some tip)) in
    if max_fee == 0
    then default
    else ok (GasPriceDetails.eip1559 (some (max (max max_fee current) tip)) (some tip))

abbrev pub is_legacy : GasPriceDetails → Bool
is_legacy (GasPriceDetails.legacy gas_price) = true
is_legacy (GasPriceDetails.eip1559 max_fee priority) = false

-- The type of EIP-2930 is 1, of EIP-1559 2, of EIP-4844 3 and of EIP-7702 4.
abbrev pub is_type : ℕ → Option ℕ → Bool
is_type tag none = false
is_type tag (some given) = given == tag

abbrev pub wants_access_list : Option ℕ → Option AccessList → Bool
wants_access_list none access_list = is_some access_list
wants_access_list (some given) access_list = given == 1

unfoldable pub requires_eip2930_encoding : CallRequest → Bool
requires_eip2930_encoding tx =
    is_legacy tx.gas_price_details && wants_access_list tx.transaction_type tx.access_list

abbrev pub expected_type : GasPriceDetails → Option (List ℕ) → Option AccessList → ℕ
expected_type (GasPriceDetails.legacy gas_price) auths none = 0
expected_type (GasPriceDetails.legacy gas_price) auths (some access_list) = 1
expected_type (GasPriceDetails.eip1559 max_fee priority) none access_list = 2
expected_type (GasPriceDetails.eip1559 max_fee priority) (some auths) access_list = 4

abbrev pub type_matches : ℕ → Option ℕ → Result JsonRpcError (Unit {0})
type_matches expected none = ok tt
type_matches expected (some given) =
    if expected == given then ok tt else err JsonRpcError.invalid_params

unfoldable pub validate_fill_transaction_type : CallRequest → Result JsonRpcError (Unit {0})
validate_fill_transaction_type tx =
    type_matches (expected_type tx.gas_price_details tx.authorization_list tx.access_list)
      tx.transaction_type

abbrev pub normal_input : Option (List ℕ) → Option (List ℕ) → Result JsonRpcError CallInput
normal_input (some input) (some data_bytes) =
    if same_bytes input data_bytes
    then ok (record { input = some input; data_bytes = none })
    else err JsonRpcError.invalid_params
normal_input none data_bytes = ok (record { input = data_bytes; data_bytes = none })
normal_input (some input) none = ok (record { input = some input; data_bytes = none })

abbrev pub non_zero : Option ℕ → Option ℕ
non_zero none = none
non_zero (some gas) = if gas == 0 then none else some gas

abbrev pub checked : CallRequest → Result JsonRpcError (Unit {0}) → Result JsonRpcError CallRequest
checked tx (err failed) = err failed
checked tx (ok valid) = ok tx

unfoldable pub normalize_fill_transaction_request : CallRequest → Result JsonRpcError CallRequest
normalize_fill_transaction_request tx = normal_input tx.input.input tx.input.data_bytes >>= λ input.
    let taken : CallRequest = record tx { input = input; gas = non_zero tx.gas } in
    if is_type 3 tx.transaction_type
      || (is_some tx.max_fee_per_blob_gas || is_some tx.blob_versioned_hashes)
    then err JsonRpcError.invalid_params
    else if is_legacy tx.gas_price_details && is_some tx.authorization_list
    then err JsonRpcError.invalid_params
    else checked taken (validate_fill_transaction_type taken)

module _ (max_code_size : ℕ) where
  -- The fees are legacy ones.
  abbrev pub eip2930_of : CallRequest → ℕ → ℕ → Result JsonRpcError Transaction
  eip2930_of tx chain_id gas_price =
      check_create max_code_size tx.to (unwrap_or [] tx.input.input) >>= λ fits.
      to_u128 gas_price >>= λ price. to_u64 (unwrap_or 0 tx.gas) >>= λ limit. ok (
        Transaction.eip2930 chain_id (unwrap_or 0 tx.nonce) price limit tx.to (unwrap_or 0 tx.value)
          (unwrap_or [] tx.access_list) (unwrap_or [] tx.input.input))

  abbrev pub legacy_price : GasPriceDetails → ℕ
  legacy_price (GasPriceDetails.legacy gas_price) = gas_price
  legacy_price (GasPriceDetails.eip1559 max_fee priority) = 0

  unfoldable pub build_fill_transaction_eip2930 : CallRequest → ℕ → Result JsonRpcError Transaction
  build_fill_transaction_eip2930 tx chain_id =
      eip2930_of tx chain_id (legacy_price tx.gas_price_details)

  unfoldable pub build_fill_transaction_envelope : CallRequest → ℕ → Result JsonRpcError Transaction
  build_fill_transaction_envelope tx chain_id =
      if requires_eip2930_encoding tx
      then build_fill_transaction_eip2930 tx chain_id
      else try_from max_code_size tx

  -- `build_unsigned_transaction`: the transaction whose bytes for signing are `raw`.
  abbrev pub dynamic_unsigned :
      CallRequest → ℕ → ℕ → Option ℕ → Option ℕ → Option (List ℕ) → Result JsonRpcError Transaction
  dynamic_unsigned tx chain_id limit max_fee priority (some auths) =
      to_u128 (unwrap_or 0 max_fee) >>= λ max_fee. to_u128 (unwrap_or 0 priority) >>= λ priority.
      ok_or_invalid tx.to >>= λ to. ok (
        Transaction.eip7702 chain_id (unwrap_or 0 tx.nonce) limit max_fee priority to
          (unwrap_or 0 tx.value) (unwrap_or [] tx.access_list) auths (unwrap_or [] tx.input.input))
  dynamic_unsigned tx chain_id limit max_fee priority none =
      to_u128 (unwrap_or 0 max_fee) >>= λ max_fee. to_u128 (unwrap_or 0 priority) >>= λ priority.
      ok (
        Transaction.eip1559 chain_id (unwrap_or 0 tx.nonce) limit max_fee priority tx.to
          (unwrap_or 0 tx.value) (unwrap_or [] tx.access_list) (unwrap_or [] tx.input.input))

  abbrev pub priced_unsigned :
      CallRequest → ℕ → ℕ → GasPriceDetails → Result JsonRpcError Transaction
  priced_unsigned tx chain_id limit (GasPriceDetails.legacy gas_price) =
      let plain = to_u128 gas_price >>= λ price. ok (
        Transaction.legacy (some chain_id) (unwrap_or 0 tx.nonce) price limit tx.to
          (unwrap_or 0 tx.value) (unwrap_or [] tx.input.input)) in
      if requires_eip2930_encoding tx then build_fill_transaction_eip2930 tx chain_id else plain
  priced_unsigned tx chain_id limit (GasPriceDetails.eip1559 max_fee priority) =
      dynamic_unsigned tx chain_id limit max_fee priority tx.authorization_list

  abbrev pub filled_request : CallRequest → ℕ → CallRequest
  filled_request tx chain_id = record tx {
    sender = some (unwrap_or 0 tx.sender);
    gas = some (unwrap_or 0 tx.gas);
    value = some (unwrap_or 0 tx.value);
    nonce = some (unwrap_or 0 tx.nonce);
    chain_id = some (unwrap_or chain_id tx.chain_id);
    transaction_type = if requires_eip2930_encoding tx then some 1 else tx.transaction_type;
  }

  unfoldable pub build_unsigned_transaction :
      CallRequest → ℕ → Result JsonRpcError (Transaction × CallRequest)
  build_unsigned_transaction tx chain_id = to_u64 (unwrap_or 0 tx.gas) >>= λ limit.
      priced_unsigned tx chain_id limit tx.gas_price_details >>= λ unsigned.
      ok (unsigned, filled_request tx chain_id)

pub record Head : Type 0 where
  pub base_fee_per_gas : Option ℕ
  pub gas_limit : ℕ

abbrev pub found_head : Option Head → Result JsonRpcError Head
found_head none = err JsonRpcError.block_not_found
found_head (some head) = ok head

-- 2 gwei, and nothing for a legacy transaction.
abbrev pub suggested_priority_fee : ℕ
suggested_priority_fee = 2000000000

abbrev pub fill_fees : ℕ → GasPriceDetails → Result JsonRpcError GasPriceDetails
fill_fees base_fee (GasPriceDetails.legacy gas_price) =
    fill_details base_fee base_fee none (GasPriceDetails.legacy gas_price)
fill_fees base_fee (GasPriceDetails.eip1559 max_fee priority) =
    fill_details base_fee (base_fee * 3 / 2) (some suggested_priority_fee)
      (GasPriceDetails.eip1559 max_fee priority)

abbrev pub fill_nonce : (ℕ → Result JsonRpcError ℕ) → ℕ → Option ℕ → Result JsonRpcError ℕ
fill_nonce account_nonce sender none = account_nonce sender
fill_nonce account_nonce sender (some nonce) = ok nonce

-- `fill_transaction_with_provider`: the head and the account's nonce are what the provider finds.
module _ (max_code_size : ℕ) (head : Option Head) (account_nonce : ℕ → Result JsonRpcError ℕ)
    (eth_call : Transaction → CallResult) (below_ratio : ℕ → ℕ → Bool)
    (provider_gas_limit chain_id : ℕ) where
  -- Up to the gas.
  unfoldable pub fill_request : CallRequest → Result JsonRpcError CallRequest
  fill_request request = normalize_fill_transaction_request request >>= λ tx.
      ok_or_invalid tx.sender >>= λ sender. found_head head >>= λ latest.
      fill_nonce account_nonce sender tx.nonce >>= λ nonce.
      fill_fees (unwrap_or 0 latest.base_fee_per_gas) tx.gas_price_details >>= λ fees.
      ok (record tx {
        value = some (unwrap_or 0 tx.value);
        chain_id = some chain_id;
        nonce = some nonce;
        gas_price_details = fees;
      })

  abbrev pub build_with : CallRequest → Option ℕ → Result JsonRpcError Transaction
  build_with tx gas =
      build_fill_transaction_envelope max_code_size (record tx { gas = gas }) chain_id

  abbrev pub with_estimate :
      CallRequest
      → Option (Result JsonRpcError ℕ)
      → Option (Result JsonRpcError (Transaction × CallRequest))
  with_estimate tx none = none
  with_estimate tx (some (err failed)) = some (err failed)
  with_estimate tx (some (ok gas)) =
      some (build_unsigned_transaction max_code_size (record tx { gas = some gas }) chain_id)

  -- The gas, and the transaction.
  unfoldable pub fill_gas :
      ℕ → ℕ → CallRequest → Option ℕ → Option (Result JsonRpcError (Transaction × CallRequest))
  fill_gas fuel protocol_gas_limit tx (some gas) =
      some (build_unsigned_transaction max_code_size tx chain_id)
  fill_gas fuel protocol_gas_limit tx none =
      let provider =
        if ltb protocol_gas_limit provider_gas_limit
        then protocol_gas_limit
        else provider_gas_limit in
      with_estimate tx (
        estimate_gas Transaction gas_limit_of (build_with tx) eth_call below_ratio fuel
          (some provider) protocol_gas_limit provider protocol_gas_limit)
