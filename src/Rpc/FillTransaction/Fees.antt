-- ===== src/Rpc/FillTransaction/Fees.antt =====
-- The fees that are filled in.
use monad_services.Prelude.{
  ℕ, ◌+◌, ◌^◌, ◌≤◌, ◌<◌, ◌≡◌, refl, true, false, Option, none, some, max, ltb, inl, inr, ok,
  ==-cases, arith,
}
use monad_services.Rpc.CallRequest.{GasPriceDetails, unwrap_or, fill_gas_prices}
use monad_services.Rpc.FillTransaction.{fill_details}

-- Fees that the block of a base fee takes.
abbrev pub IsSignable : ℕ → GasPriceDetails → Type 0
IsSignable base (GasPriceDetails.legacy gas_price) = base ≤ gas_price
IsSignable base (GasPriceDetails.eip1559 (some max_fee) (some priority)) =
    (base ≤ max_fee) × (priority ≤ max_fee)
IsSignable base _ = true ≡ false

-- The kind of fees and a priority fee that is given stay, and no cap is lowered.
abbrev pub Keeps : GasPriceDetails → GasPriceDetails → Type 0
Keeps (GasPriceDetails.legacy old) (GasPriceDetails.legacy new) = old ≤ new
Keeps (GasPriceDetails.eip1559 cap priority) (GasPriceDetails.eip1559 (some new_cap) (some tip)) =
    (unwrap_or 0 cap ≤ new_cap) × (unwrap_or tip priority ≡ tip)
Keeps _ _ = true ≡ false

tip-kept :
    (d : ℕ) (priority : Option ℕ) → unwrap_or (unwrap_or d priority) priority ≡ unwrap_or d priority
tip-kept d none = refl
tip-kept d (some tip) = refl

-- EIP-1559 fees are filled when the default base fee and the tip fit 256 bits and the default is not below the current
-- base fee: the block takes them, and they keep what was asked.
pub fill_details-IsSignable :
    (current fill : ℕ) (suggested : Option ℕ) (cap priority : Option ℕ)
    → current ≤ fill
    → fill + unwrap_or (unwrap_or 0 suggested) priority < 2 ^ 256
    → (filled : GasPriceDetails) × (fill_details current fill suggested
          (GasPriceDetails.eip1559 cap priority)
        ≡ ok filled)
      × IsSignable current filled
      × Keeps (GasPriceDetails.eip1559 cap priority) filled
unfolding fill_details fill_gas_prices
fill_details-IsSignable current fill suggested none priority le fits =
    let tip = unwrap_or (unwrap_or 0 suggested) priority in
    let t : ltb (fill + tip) (2 ^ 256) ≡ true = ground (arith, fits) in
    rw t (
      GasPriceDetails.eip1559 (some (fill + tip)) (some tip),
      refl,
      (omega (arith, le), omega arith),
      (omega arith, tip-kept (unwrap_or 0 suggested) priority),
    )
fill_details-IsSignable current fill suggested (some cap) priority le fits =
    let tip = unwrap_or (unwrap_or 0 suggested) priority in
    let t : ltb (fill + tip) (2 ^ 256) ≡ true = ground (arith, fits) in
    elim (==-cases cap 0) [
      | inl (p, u) ↦
          rw (u, t)
            (
              GasPriceDetails.eip1559 (some (fill + tip)) (some tip),
              refl,
              (omega (arith, le), omega arith),
              (omega (arith, p), tip-kept (unwrap_or 0 suggested) priority),
            )
      | inr (p, u) ↦ rw u (
        GasPriceDetails.eip1559 (some (max (max cap current) tip)) (some tip),
        refl,
        (omega arith, omega arith),
        (omega arith, tip-kept (unwrap_or 0 suggested) priority),
      )
    ]
