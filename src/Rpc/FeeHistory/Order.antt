-- ===== src/Rpc/FeeHistory/Order.antt =====
-- The rewards ascend.
use monad_services.Prelude.{
  ℕ, zero, suc, ◌+◌, ◌-◌, ◌≤◌, ◌<◌, ◌≡◌, refl, ap, ◌∙◌, some, List, [], ◌∷◌, length, get_elem?, ltb,
  leb, Bool-cases, inl, inr, arith, wrapping_add64,
}
use monad_services.Rpc.FeeHistory.{
  insert_sorted, sorted_by_reward, pass_threshold, clamped, drop_to, rewards_from, zip_receipts,
  zeros, calculate_fee_history_rewards,
}

-- From a bound on, each is at least the one before.
abbrev pub IsAscending : ℕ → List ℕ → Type 0
IsAscending low [] = Unit
IsAscending low (x ∷ xs) = (low ≤ x) × IsAscending x xs

abbrev IsSorted : ℕ → List (ℕ × ℕ) → Type 0
IsSorted low [] = Unit
IsSorted low (x ∷ xs) = (low ≤ x.1) × IsSorted x.1 xs

IsSorted-lower :
    (low lower : ℕ) (xs : List (ℕ × ℕ)) → lower ≤ low → IsSorted low xs → IsSorted lower xs
IsSorted-lower low lower [] h s = tt
IsSorted-lower low lower (x ∷ xs) h s = (omega (arith, h, s.0), s.1)

insert_sorted-IsSorted :
    (pair : ℕ × ℕ) (low : ℕ) (xs : List (ℕ × ℕ))
    → low ≤ pair.1
    → IsSorted low xs
    → IsSorted low (insert_sorted pair xs)
unfolding insert_sorted
insert_sorted-IsSorted pair low [] h s = (h, tt)
insert_sorted-IsSorted pair low (x ∷ xs) h s = elim (Bool-cases (leb pair.1 x.1)) [
  | inl t ↦ let le : pair.1 ≤ x.1 = ground (arith, t) in rw t (h, (le, s.1))
  | inr t ↦
      let le : x.1 ≤ pair.1 = ground (arith, t) in
      rw t (s.0, insert_sorted-IsSorted pair x.1 xs le s.1)
]

sorted_by_reward-IsSorted : (xs : List (ℕ × ℕ)) → IsSorted 0 (sorted_by_reward xs)
unfolding sorted_by_reward
sorted_by_reward-IsSorted [] = tt
sorted_by_reward-IsSorted (x ∷ xs) =
    insert_sorted-IsSorted x 0 (sorted_by_reward xs) (omega arith) (sorted_by_reward-IsSorted xs)

length-insert_sorted :
    (pair : ℕ × ℕ) (xs : List (ℕ × ℕ)) → length (insert_sorted pair xs) ≡ suc (length xs)
unfolding insert_sorted
length-insert_sorted pair [] = refl
length-insert_sorted pair (x ∷ xs) = elim (Bool-cases (leb pair.1 x.1)) [
  | inl t ↦ rw t refl
  | inr t ↦ rw t (ap suc (length-insert_sorted pair xs))
]

length-sorted_by_reward : (xs : List (ℕ × ℕ)) → length (sorted_by_reward xs) ≡ length xs
unfolding sorted_by_reward
length-sorted_by_reward [] = refl
length-sorted_by_reward (x ∷ xs) =
    length-insert_sorted x (sorted_by_reward xs) ∙ ap suc (length-sorted_by_reward xs)

-- An entry of a sorted list that is there, and is at least the entries before.
get_sorted :
    (low : ℕ) (xs : List (ℕ × ℕ)) (i : ℕ)
    → IsSorted low xs
    → i < length xs
    → (x : ℕ × ℕ) × (get_elem? xs i ≡ some x) × (low ≤ x.1)
get_sorted low [] i s h = absurd (omega (arith, h))
get_sorted low (x ∷ xs) zero s h = (x, refl, s.0)
get_sorted low (x ∷ xs) (suc i) s h =
    let (y, found, le) = get_sorted x.1 xs i s.1 (omega (arith, h)) in
    (y, found, omega (arith, le, s.0))

get_at_least :
    (low : ℕ) (xs : List (ℕ × ℕ)) (j : ℕ) (y : ℕ × ℕ)
    → IsSorted low xs
    → get_elem? xs j ≡ some y
    → low ≤ y.1
get_at_least low [] j y s f = absurd cc
get_at_least low (z ∷ xs) zero y s f =
    let same : z ≡ y = cc in omega (arith, s.0, ap (λ (p : ℕ × ℕ). p.1) same)
get_at_least low (z ∷ xs) (suc j) y s f =
    let le = get_at_least z.1 xs j y s.1 f in omega (arith, s.0, le)

get_later :
    (low : ℕ) (xs : List (ℕ × ℕ)) (i j : ℕ) (x y : ℕ × ℕ)
    → IsSorted low xs
    → i ≤ j
    → get_elem? xs i ≡ some x
    → get_elem? xs j ≡ some y
    → x.1 ≤ y.1
get_later low [] i j x y s le e f = absurd cc
get_later low (z ∷ xs) zero zero x y s le e f =
    let same : x ≡ y = cc in omega (arith, ap (λ (p : ℕ × ℕ). p.1) same)
get_later low (z ∷ xs) zero (suc j) x y s le e f =
    let same : z ≡ x = cc in
    let le = get_at_least z.1 xs j y s.1 f in omega (arith, le, ap (λ (p : ℕ × ℕ). p.1) same)
get_later low (z ∷ xs) (suc i) zero x y s le e f = absurd (omega (arith, le))
get_later low (z ∷ xs) (suc i) (suc j) x y s le e f =
    get_later z.1 xs i j x y s.1 (omega (arith, le)) e f

pass_threshold-some :
    (left threshold index gas : ℕ) (rest : List (ℕ × ℕ))
    → left ≤ length rest
    → (next : ℕ) × (total : ℕ) × (pass_threshold left threshold index gas rest ≡ some (next, total))
      × (index ≤ next)
      × (next ≤ index + left)
unfolding pass_threshold
pass_threshold-some zero threshold index gas rest h = (index, gas, refl, omega arith, omega arith)
pass_threshold-some (suc left) threshold index gas [] h = absurd (omega (arith, h))
pass_threshold-some (suc left) threshold index gas ((used, reward) ∷ rest) h =
    elim (Bool-cases (ltb gas threshold)) [
      | inl t ↦
          let (next, total, done, lo, hi) =
            pass_threshold-some left threshold (suc index) (wrapping_add64 gas used) rest
              (omega (arith, h)) in
          rw t (next, total, done, omega (arith, lo), omega (arith, hi))
      | inr t ↦ rw t (index, gas, refl, omega arith, omega arith)
    ]

length-drop_to : (n : ℕ) (xs : List (ℕ × ℕ)) → length (drop_to n xs) ≡ length xs - n
length-drop_to zero xs = omega arith
length-drop_to (suc n) [] = omega arith
length-drop_to (suc n) (x ∷ xs) = length-drop_to n xs ∙ omega arith

clamped-small : (count n : ℕ) → 0 < count → clamped count n < count
clamped-small count n h = ground (arith, h)

clamped_mono : (count n m : ℕ) → n ≤ m → clamped count n ≤ clamped count m
clamped_mono count n m h = ground (arith, h)

rewards_from-IsAscending :
    (count : ℕ) (pairs : List (ℕ × ℕ))
    → IsSorted 0 pairs
    → length pairs ≡ count
    → 0 < count
    → (thresholds : List ℕ) (index gas low : ℕ) → index ≤ count
    → ((i : ℕ) (y : ℕ × ℕ) → clamped count index ≤ i → get_elem? pairs i ≡ some y → low ≤ y.1)
    → (rewards : List ℕ) × (rewards_from count pairs index gas thresholds ≡ some rewards)
      × (length rewards ≡ length thresholds)
      × IsAscending low rewards
unfolding rewards_from
rewards_from-IsAscending count pairs s size pos [] index gas low le bound = ([], refl, refl, tt)
rewards_from-IsAscending count pairs s size pos (threshold ∷ thresholds) index gas low le bound =
    let (next, total, done, lo, hi) =
      pass_threshold-some (count - index) threshold index gas (drop_to index pairs)
        (omega (arith, length-drop_to index pairs, size)) in
    let at = clamped count next in
    let there = clamped-small count next pos in
    let (pair, found, _) = get_sorted 0 pairs at s (omega (arith, there, size)) in
    let (rewards, rest, same, ascends) =
      rewards_from-IsAscending count pairs s size pos thresholds next total pair.1
        (omega (arith, hi, le))
        (λ i y from here. get_later 0 pairs at i pair y s from found here) in
    rw (done, found, rest)
      (
        pair.1 ∷ rewards,
        refl,
        ap suc same,
        (bound at pair (clamped_mono count index next lo) found, ascends),
      )

length-zip_receipts :
    (tips receipts : List ℕ)
    → length receipts ≡ length tips
    → length (zip_receipts tips receipts) ≡ length tips
length-zip_receipts [] [] h = refl
length-zip_receipts [] (used ∷ receipts) h = refl
length-zip_receipts (tip ∷ tips) [] h = absurd (omega (arith, h))
length-zip_receipts (tip ∷ tips) (used ∷ receipts) h =
    ap suc (length-zip_receipts tips receipts (omega (arith, h)))

zeros-IsAscending : (thresholds : List ℕ) → IsAscending 0 (zeros thresholds)
zeros-IsAscending [] = tt
zeros-IsAscending (_ ∷ rest) = (omega arith, zeros-IsAscending rest)

length-zeros : (thresholds : List ℕ) → length (zeros thresholds) ≡ length thresholds
length-zeros [] = refl
length-zeros (_ ∷ rest) = ap suc (length-zeros rest)

-- When each transaction has a receipt, there is a reward for each percentile, and the rewards ascend.
pub calculate_fee_history_rewards-IsAscending :
    (tips receipts thresholds : List ℕ)
    → length receipts ≡ length tips
    → (rewards : List ℕ) × (calculate_fee_history_rewards tips receipts (some thresholds)
        ≡ some rewards)
      × (length rewards ≡ length thresholds)
      × IsAscending 0 rewards
unfolding calculate_fee_history_rewards
calculate_fee_history_rewards-IsAscending [] receipts thresholds h =
    (zeros thresholds, refl, length-zeros thresholds, zeros-IsAscending thresholds)
calculate_fee_history_rewards-IsAscending (tip ∷ tips) receipts thresholds h =
    let pairs = zip_receipts (tip ∷ tips) receipts in
    rewards_from-IsAscending (length (tip ∷ tips)) (sorted_by_reward pairs)
      (sorted_by_reward-IsSorted pairs)
      (length-sorted_by_reward pairs ∙ length-zip_receipts (tip ∷ tips) receipts h) (omega arith)
      thresholds 0 0 0 (omega arith) (λ i y from here. omega arith)
