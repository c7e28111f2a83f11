-- ===== src/Rpc/GasEstimate/Search.antt =====
-- The binary search ends, between a limit that fails and one that succeeds.
use monad_services.Prelude.{
  ℕ, zero, suc, ◌+◌, ◌-◌, ◌/◌, ◌^◌, ◌≤◌, ◌<◌, ◌≡◌, refl, ap, ◌∙◌, Bool, true, false, Option, some,
  ltb, ◌⊎◌, inl, inr, wrapping_add64, wrapping_sub64, Result, ok, err, Result-cases, Bool-cases,
  arith,
}
use monad_services.Rpc.GasEstimate.{JsonRpcError, CallResult, probe, search}

module _ (Tx : Type 0) (gas_limit : Tx → ℕ) (build_tx : Option ℕ → Result JsonRpcError Tx)
    (eth_call : Tx → CallResult) (below_ratio : ℕ → ℕ → Bool) where
  abbrev tried : ℕ → Result JsonRpcError Bool
  tried = probe Tx gas_limit build_tx eth_call below_ratio

  -- What the search finds between two limits: one that is the upper or succeeds, above one that is the lower or
  -- fails, and no further from it than the search is to come.
  pub record Found (lower upper found : ℕ) : Type 0 where
    pub above : lower < found
    pub within : found ≤ upper
    pub succeeds : (found ≡ upper) ⊎ (tried found ≡ ok true)
    pub failing : ℕ
    pub from_lower : lower ≤ failing
    pub to_found : failing < found
    pub fails : (failing ≡ lower) ⊎ (tried failing ≡ ok false)
    pub close : (found ≤ suc failing) ⊎ (below_ratio (found - failing) found ≡ true)

  abbrev pub IsFound : ℕ → ℕ → Result JsonRpcError ℕ → Type 0
  IsFound lower upper (err failed) = Unit
  IsFound lower upper (ok found) = Found lower upper found

  stop_at :
      (lower upper : ℕ)
      → lower < upper
      → (upper ≤ suc lower) ⊎ (below_ratio (upper - lower) upper ≡ true)
      → Found lower upper upper
  stop_at lower upper lt near = record {
    above = lt;
    within = omega arith;
    succeeds = inl refl;
    failing = lower;
    from_lower = omega arith;
    to_found = lt;
    fails = inl refl;
    close = near;
  }

  from_left :
      (lower mid upper : ℕ) (outcome : Result JsonRpcError ℕ)
      → mid < upper
      → tried mid ≡ ok true
      → IsFound lower mid outcome
      → IsFound lower upper outcome
  from_left lower mid upper (err failed) lt good f = tt
  from_left lower mid upper (ok found) lt good f = record {
    above = f.above;
    within = omega (arith, f.within, lt);
    succeeds = elim f.succeeds [ inl e ↦ inr (ap tried e ∙ good) | inr s ↦ inr s ];
    failing = f.failing;
    from_lower = f.from_lower;
    to_found = f.to_found;
    fails = f.fails;
    close = f.close;
  }

  from_right :
      (lower mid upper : ℕ) (outcome : Result JsonRpcError ℕ)
      → lower < mid
      → tried mid ≡ ok false
      → IsFound mid upper outcome
      → IsFound lower upper outcome
  from_right lower mid upper (err failed) lt bad f = tt
  from_right lower mid upper (ok found) lt bad f = record {
    above = omega (arith, f.above, lt);
    within = f.within;
    succeeds = f.succeeds;
    failing = f.failing;
    from_lower = omega (arith, f.from_lower, lt);
    to_found = f.to_found;
    fails = elim f.fails [ inl e ↦ inr (ap tried e ∙ bad) | inr s ↦ inr s ];
    close = f.close;
  }

  -- From two limits below 2 ^ 63, with fuel for as many rounds as there are limits between them,
  -- the search ends with the error of a probe or with a limit between the two: it is the upper one
  -- or succeeds, and next to it, or as close as the ratio asks, is a limit that is the lower one
  -- or fails.
  pub search-IsFound :
      (fuel lower upper : ℕ)
      → lower < upper
      → upper < 2 ^ 63
      → upper ≤ lower + fuel
      → (outcome : Result JsonRpcError ℕ) × (search Tx gas_limit build_tx eth_call below_ratio fuel
            lower upper
          ≡ some outcome)
        × IsFound lower upper outcome
  unfolding search
  search-IsFound zero lower upper lt small enough = absurd (omega (arith, lt, enough))
  search-IsFound (suc fuel) lower upper lt small enough =
      let width : wrapping_sub64 upper lower ≡ upper - lower = omega (arith, lt, small) in
      let middle : wrapping_add64 upper lower / 2 ≡ (upper + lower) / 2 =
        omega (arith, lt, small) in
      let mid = (upper + lower) / 2 in
      rw (width, middle)
        (elim (Bool-cases (ltb 1 (upper - lower))) [
          | inr t ↦
              let near : upper ≤ suc lower = ground (arith, t) in
              rw t (ok upper, refl, stop_at lower upper lt (inl near))
          | inl t ↦
              let wide : suc lower < upper = ground (arith, t) in
              elim (Bool-cases (below_ratio (upper - lower) upper)) [
                | inl u ↦ rw (t, u) (ok upper, refl, stop_at lower upper lt (inr u))
                | inr u ↦ elim (Result-cases (tried mid)) [
                  | inr (failed, e) ↦ rw (t, u, e) (err failed, refl, tt)
                  | inl (true, e) ↦
                      let (outcome, done, f) =
                        search-IsFound fuel lower mid (omega (arith, wide))
                          (omega (arith, small, wide)) (omega (arith, wide, enough)) in
                      rw (t, u, e)
                        (outcome, done, from_left lower mid upper outcome (omega (arith, wide)) e f)
                  | inl (false, e) ↦
                      let (outcome, done, f) =
                        search-IsFound fuel mid upper (omega (arith, wide)) small
                          (omega (arith, wide, enough)) in
                      rw (t, u, e)
                        (
                          outcome,
                          done,
                          from_right lower mid upper outcome (omega (arith, wide)) e f,
                        )
                ]
              ]
        ])
