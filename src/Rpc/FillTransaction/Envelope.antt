-- ===== src/Rpc/FillTransaction/Envelope.antt =====
-- The transaction that gas is estimated with and the one that is returned.
use monad_services.Prelude.{
  ℕ, ◌-◌, ◌≡◌, sym, ap, ◌∙◌, Bool, true, false, Option, none, some, List, [], ltb, if◌then◌else◌,
  u64_mod, Result, ok, ok-inj, ◌>>=◌, >>=-eq-ok, Bool-cases, and-both, inl, inr, arith,
}
use monad_services.Rpc.GasEstimate.{JsonRpcError}
use monad_services.Rpc.CallRequest.{
  GasPriceDetails, CallRequest, Transaction, gas_limit_of, unwrap_or, ok_or_invalid, to_u64,
  to_u128, check_create, dynamic_envelope, priced_envelope, try_from,
}
use monad_services.Rpc.FillTransaction.{
  requires_eip2930_encoding, is_legacy, wants_access_list, eip2930_of, legacy_price,
  build_fill_transaction_eip2930, build_fill_transaction_envelope, dynamic_unsigned,
  priced_unsigned, filled_request, build_unsigned_transaction,
}

to_u64-ok : (n limit : ℕ) → to_u64 n ≡ ok limit → limit ≡ n
to_u64-ok n limit e = elim (Bool-cases (ltb n u64_mod)) [
  | inl t ↦
      let same : ◌≡◌ {A = Result JsonRpcError ℕ} (ok n) (ok limit) = ground (arith, e, t) in
      sym (ok-inj same)
  | inr t ↦ absurd (ground (arith, e, t))
]

module _ (max_code_size chain_id : ℕ) where
  -- The steps that the two builders share.
  dynamic_agrees :
      (tx : CallRequest) (limit : ℕ) (max_fee priority : Option ℕ) (auths : Option (List ℕ))
      (t : Transaction)
      → unwrap_or 0 tx.chain_id ≡ chain_id
      → (to_u128 (unwrap_or 0 max_fee) >>= λ fee. to_u128 (unwrap_or 0 priority) >>= λ tip.
          dynamic_envelope max_code_size tx limit fee tip auths)
        ≡ ok t
      → (dynamic_unsigned max_code_size tx chain_id limit max_fee priority auths ≡ ok t)
        × (gas_limit_of t ≡ limit)
  dynamic_agrees tx limit max_fee priority (some auths) t c e =
      let (fee, e1, r1) = >>=-eq-ok (to_u128 (unwrap_or 0 max_fee)) _ e in
      let (tip, e2, r2) = >>=-eq-ok (to_u128 (unwrap_or 0 priority)) _ r1 in
      let (to, e3, r3) = >>=-eq-ok (ok_or_invalid tx.to) _ r2 in
      (
        rw (e1, e2, e3)
            (ap
                (λ n. ok (
                  Transaction.eip7702 n (unwrap_or 0 tx.nonce) limit fee tip to
                    (unwrap_or 0 tx.value) (unwrap_or [] tx.access_list) auths
                    (unwrap_or [] tx.input.input)))
                (sym c)
              ∙ r3),
        ap gas_limit_of (sym (ok-inj r3)),
      )
  dynamic_agrees tx limit max_fee priority none t c e =
      let (fee, e1, r1) = >>=-eq-ok (to_u128 (unwrap_or 0 max_fee)) _ e in
      let (tip, e2, r2) = >>=-eq-ok (to_u128 (unwrap_or 0 priority)) _ r1 in
      let (fits, e3, r3) =
        >>=-eq-ok (check_create max_code_size tx.to (unwrap_or [] tx.input.input)) _ r2 in
      (
        rw (e1, e2)
            (ap
                (λ n. ok (
                  Transaction.eip1559 n (unwrap_or 0 tx.nonce) limit fee tip tx.to
                    (unwrap_or 0 tx.value) (unwrap_or [] tx.access_list)
                    (unwrap_or [] tx.input.input)))
                (sym c)
              ∙ r3),
        ap gas_limit_of (sym (ok-inj r3)),
      )

  eip2930_limit :
      (tx : CallRequest) (gas_price gas : ℕ) (t : Transaction)
      → tx.gas ≡ some gas
      → eip2930_of max_code_size tx chain_id gas_price ≡ ok t
      → (to_u64 gas ≡ ok gas) × (gas_limit_of t ≡ gas)
  eip2930_limit tx gas_price gas t g e =
      let (fits, e1, r1) =
        >>=-eq-ok (check_create max_code_size tx.to (unwrap_or [] tx.input.input)) _ e in
      let (price, e2, r2) = >>=-eq-ok (to_u128 gas_price) _ r1 in
      let (limit, e3, r3) = >>=-eq-ok (to_u64 (unwrap_or 0 tx.gas)) _ r2 in
      let sized : to_u64 gas ≡ ok limit = ap (λ o. to_u64 (unwrap_or 0 o)) (sym g) ∙ e3 in
      let same = to_u64-ok gas limit sized in
      (sized ∙ ap ok same, ap gas_limit_of (sym (ok-inj r3)) ∙ same)

  priced_agrees :
      (tx : CallRequest) (gas : ℕ) (fees : GasPriceDetails) (t : Transaction)
      → tx.chain_id ≡ some chain_id
      → requires_eip2930_encoding tx ≡ false
      → priced_envelope max_code_size tx gas fees ≡ ok t
      → (priced_unsigned max_code_size tx chain_id gas fees ≡ ok t) × (gas_limit_of t ≡ gas)
  priced_agrees tx gas (GasPriceDetails.legacy gas_price) t c plain e =
      let (price, e1, r1) = >>=-eq-ok (to_u128 gas_price) _ e in
      let (fits, e2, r2) =
        >>=-eq-ok (check_create max_code_size tx.to (unwrap_or [] tx.input.input)) _ r1 in
      (
        rw (plain, e1)
            (ap
                (λ n. ok (
                  Transaction.legacy n (unwrap_or 0 tx.nonce) price gas tx.to (unwrap_or 0 tx.value)
                    (unwrap_or [] tx.input.input)))
                (sym c)
              ∙ r2),
        ap gas_limit_of (sym (ok-inj r2)),
      )
  priced_agrees tx gas (GasPriceDetails.eip1559 max_fee priority) t c plain e =
      dynamic_agrees tx gas max_fee priority tx.authorization_list t (ap (unwrap_or 0) c) e

  priced_eip2930 :
      (tx : CallRequest) (gas : ℕ) (fees : GasPriceDetails) (t : Transaction)
      → is_legacy fees ≡ true
      → requires_eip2930_encoding tx ≡ true
      → build_fill_transaction_eip2930 max_code_size tx chain_id ≡ ok t
      → priced_unsigned max_code_size tx chain_id gas fees ≡ ok t
  priced_eip2930 tx gas (GasPriceDetails.legacy gas_price) t l r e = rw r e
  priced_eip2930 tx gas (GasPriceDetails.eip1559 max_fee priority) t l r e =
      absurd (ground (arith, l))

  is_legacy_of_requires :
      (tx : CallRequest)
      → requires_eip2930_encoding tx ≡ true
      → is_legacy tx.gas_price_details ≡ true
  unfolding requires_eip2930_encoding
  is_legacy_of_requires tx r =
      (and-both (is_legacy tx.gas_price_details)
        (wants_access_list tx.transaction_type tx.access_list) r).0

  unsigned_of_priced :
      (tx : CallRequest) (gas : ℕ) (t : Transaction)
      → tx.gas ≡ some gas
      → to_u64 gas ≡ ok gas
      → priced_unsigned max_code_size tx chain_id gas tx.gas_price_details ≡ ok t
      → build_unsigned_transaction max_code_size tx chain_id
        ≡ ok (t, filled_request max_code_size tx chain_id)
  unfolding build_unsigned_transaction
  unsigned_of_priced tx gas t g sized priced =
      let with_limit : Result JsonRpcError ℕ → Result JsonRpcError (Transaction × CallRequest) =
        λ limit. limit >>= λ limit.
        priced_unsigned max_code_size tx chain_id limit tx.gas_price_details >>= λ unsigned.
        ok (unsigned, filled_request max_code_size tx chain_id) in
      let with_price : Result JsonRpcError Transaction
          → Result JsonRpcError (Transaction × CallRequest) =
        λ priced. priced >>= λ unsigned. ok (unsigned, filled_request max_code_size tx chain_id) in
      ap (λ o. with_limit (to_u64 (unwrap_or 0 o))) g ∙ ap with_limit sized ∙ ap with_price priced

  -- A request with a gas limit and this chain's ID: the transaction that gas is estimated with, if there is one, is the
  -- one returned, and has the request's gas limit.
  pub build_unsigned_transaction-build_fill_transaction_envelope :
      (tx : CallRequest) (gas : ℕ) (t : Transaction)
      → tx.gas ≡ some gas
      → tx.chain_id ≡ some chain_id
      → build_fill_transaction_envelope max_code_size tx chain_id ≡ ok t
      → (build_unsigned_transaction max_code_size tx chain_id
          ≡ ok (t, filled_request max_code_size tx chain_id))
        × (gas_limit_of t ≡ gas)
  unfolding build_fill_transaction_envelope build_fill_transaction_eip2930 try_from
  build_unsigned_transaction-build_fill_transaction_envelope tx gas t g c e =
      let chosen : Bool → Result JsonRpcError Transaction = λ b.
        if b
        then build_fill_transaction_eip2930 max_code_size tx chain_id
        else try_from max_code_size tx in
      elim (Bool-cases (requires_eip2930_encoding tx)) [
        | inl r ↦
            let built = sym (ap chosen r) ∙ e in
            let (sized, limit) =
              eip2930_limit tx (legacy_price max_code_size tx.gas_price_details) gas t g built in
            (
              unsigned_of_priced tx gas t g sized (
                  priced_eip2930 tx gas tx.gas_price_details t (is_legacy_of_requires tx r) r
                    built),
              limit,
            )
        | inr r ↦
            let (limit, e1, r1) =
              >>=-eq-ok (to_u64 (unwrap_or (u64_mod - 1) tx.gas)) _ (sym (ap chosen r) ∙ e) in
            let sized : to_u64 gas ≡ ok limit =
              ap (λ o. to_u64 (unwrap_or (u64_mod - 1) o)) (sym g) ∙ e1 in
            let same : limit ≡ gas = to_u64-ok gas limit sized in
            let priced : priced_envelope max_code_size tx gas tx.gas_price_details ≡ ok t =
              ap (λ n. priced_envelope max_code_size tx n tx.gas_price_details) (sym same) ∙ r1 in
            let (agrees, limit_is) = priced_agrees tx gas tx.gas_price_details t c r priced in
            (unsigned_of_priced tx gas t g (sized ∙ ap ok same) agrees, limit_is)
      ]
