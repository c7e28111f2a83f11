-- ===== src/Rpc/CallRequest.antt =====
-- crates/monad-rpc/src/handlers/eth/call.rs: the request of a call, how its fees are filled, and the transaction that
-- it is made into. Numbers of 256 bits are numbers below 2 ^ 256; those of 64 bits need no check.
use monad_services.Prelude.{
  ℕ, ◌+◌, ◌*◌, ◌^◌, ◌-◌, Bool, true, false, Option, none, some, List, [], length, ltb,
  if◌then◌else◌, u64_mod, Result, ok, err, ◌>>=◌,
}
use monad_services.Rpc.GasEstimate.{JsonRpcError}

pub data GasPriceDetails : Type 0 where
  legacy : (gas_price : ℕ) → GasPriceDetails
  eip1559 : (max_fee_per_gas max_priority_fee_per_gas : Option ℕ) → GasPriceDetails

pub record CallInput : Type 0 where
  pub input : Option (List ℕ)
  pub data_bytes : Option (List ℕ)

abbrev pub AccessList : Type 0
AccessList = List (ℕ × List ℕ)

pub record CallRequest : Type 0 where
  pub sender : Option ℕ
  pub to : Option ℕ
  pub gas : Option ℕ
  pub gas_price_details : GasPriceDetails
  pub value : Option ℕ
  pub input : CallInput
  pub nonce : Option ℕ
  pub chain_id : Option ℕ
  pub access_list : Option AccessList
  pub authorization_list : Option (List ℕ)
  pub max_fee_per_blob_gas : Option ℕ
  pub blob_versioned_hashes : Option (List ℕ)
  pub transaction_type : Option ℕ

-- The transactions, with the signature of zeros or before they are signed.
pub data Transaction : Type 0 where
  legacy :
      (chain_id : Option ℕ) (nonce gas_price gas_limit : ℕ) (to : Option ℕ) (value : ℕ)
      (input : List ℕ)
      → Transaction
  eip2930 :
      (chain_id nonce gas_price gas_limit : ℕ) (to : Option ℕ) (value : ℕ)
      (access_list : AccessList) (input : List ℕ)
      → Transaction
  eip1559 :
      (chain_id nonce gas_limit max_fee_per_gas max_priority_fee_per_gas : ℕ) (to : Option ℕ)
      (value : ℕ) (access_list : AccessList) (input : List ℕ)
      → Transaction
  eip7702 :
      (chain_id nonce gas_limit max_fee_per_gas max_priority_fee_per_gas to value : ℕ)
      (access_list : AccessList) (authorization_list : List ℕ) (input : List ℕ)
      → Transaction

abbrev pub gas_limit_of : Transaction → ℕ
gas_limit_of (Transaction.legacy _ _ _ limit _ _ _) = limit
gas_limit_of (Transaction.eip2930 _ _ _ limit _ _ _ _) = limit
gas_limit_of (Transaction.eip1559 _ _ limit _ _ _ _ _ _) = limit
gas_limit_of (Transaction.eip7702 _ _ limit _ _ _ _ _ _ _) = limit

abbrev pub unwrap_or {ℓ} : {A : Type ℓ} → A → Option A → A
unwrap_or d none = d
unwrap_or d (some a) = a

abbrev pub ok_or_invalid {ℓ} : {A : Type ℓ} → Option A → Result JsonRpcError A
ok_or_invalid none = err JsonRpcError.invalid_params
ok_or_invalid (some a) = ok a

abbrev pub is_some {ℓ} : {A : Type ℓ} → Option A → Bool
is_some none = false
is_some (some _) = true

abbrev pub to_u64 : ℕ → Result JsonRpcError ℕ
to_u64 n = if ltb n u64_mod then ok n else err JsonRpcError.invalid_params

abbrev pub to_u128 : ℕ → Result JsonRpcError ℕ
to_u128 n = if ltb n (2 ^ 128) then ok n else err JsonRpcError.invalid_params

abbrev pub checked_add256 : ℕ → ℕ → Result JsonRpcError ℕ
checked_add256 a b = if ltb (a + b) (2 ^ 256) then ok (a + b) else err JsonRpcError.tip_too_high

-- `fill_gas_prices`, on the fees.
abbrev pub capped : ℕ → ℕ → Option ℕ → Option ℕ → Result JsonRpcError ℕ
capped base_fee cap none priority = ok cap
capped base_fee cap (some max_fee) none =
    if ltb max_fee base_fee
    then err JsonRpcError.max_fee_below_base_fee
    else ok (if ltb cap max_fee then cap else max_fee)
capped base_fee cap (some max_fee) (some priority) =
    if ltb max_fee base_fee
    then err JsonRpcError.max_fee_below_base_fee
    else if ltb max_fee priority
    then err JsonRpcError.priority_fee_above_max_fee
    else ok (if ltb cap max_fee then cap else max_fee)

unfoldable pub fill_gas_prices : ℕ → GasPriceDetails → Result JsonRpcError GasPriceDetails
fill_gas_prices base_fee (GasPriceDetails.legacy gas_price) =
    ok (GasPriceDetails.legacy (if ltb gas_price base_fee then base_fee else gas_price))
fill_gas_prices base_fee (GasPriceDetails.eip1559 max_fee priority) =
    checked_add256 base_fee (unwrap_or 0 priority) >>= λ cap.
    capped base_fee cap max_fee priority >>= λ filled.
    ok (GasPriceDetails.eip1559 (some filled) priority)

-- EIP-3860, with the limit of the latest revision.
abbrev pub check_contract_creation_size : ℕ → List ℕ → Result JsonRpcError (Unit {0})
check_contract_creation_size max_code_size code =
    if ltb (2 * max_code_size) (length code)
    then err (JsonRpcError.code_size_too_large (length code))
    else ok tt

module _ (max_code_size : ℕ) where
  abbrev pub check_create : Option ℕ → List ℕ → Result JsonRpcError (Unit {0})
  check_create (some to) input = ok tt
  check_create none input = check_contract_creation_size max_code_size input

  -- `TxEnvelope::try_from`, by the fees and the authorizations.
  abbrev pub dynamic_envelope :
      CallRequest → ℕ → ℕ → ℕ → Option (List ℕ) → Result JsonRpcError Transaction
  dynamic_envelope tx limit max_fee priority (some auths) = ok_or_invalid tx.to >>= λ to. ok (
      Transaction.eip7702 (unwrap_or 0 tx.chain_id) (unwrap_or 0 tx.nonce) limit max_fee priority to
        (unwrap_or 0 tx.value) (unwrap_or [] tx.access_list) auths (unwrap_or [] tx.input.input))
  dynamic_envelope tx limit max_fee priority none =
      check_create tx.to (unwrap_or [] tx.input.input) >>= λ fits. ok (
        Transaction.eip1559 (unwrap_or 0 tx.chain_id) (unwrap_or 0 tx.nonce) limit max_fee priority
          tx.to (unwrap_or 0 tx.value) (unwrap_or [] tx.access_list) (unwrap_or [] tx.input.input))

  abbrev pub priced_envelope : CallRequest → ℕ → GasPriceDetails → Result JsonRpcError Transaction
  priced_envelope tx limit (GasPriceDetails.legacy gas_price) = to_u128 gas_price >>= λ price.
      check_create tx.to (unwrap_or [] tx.input.input) >>= λ fits. ok (
        Transaction.legacy tx.chain_id (unwrap_or 0 tx.nonce) price limit tx.to
          (unwrap_or 0 tx.value) (unwrap_or [] tx.input.input))
  priced_envelope tx limit (GasPriceDetails.eip1559 max_fee priority) =
      to_u128 (unwrap_or 0 max_fee) >>= λ max_fee. to_u128 (unwrap_or 0 priority) >>= λ priority.
      dynamic_envelope tx limit max_fee priority tx.authorization_list

  unfoldable pub try_from : CallRequest → Result JsonRpcError Transaction
  try_from tx = to_u64 (unwrap_or (u64_mod - 1) tx.gas) >>= λ limit.
      priced_envelope tx limit tx.gas_price_details
