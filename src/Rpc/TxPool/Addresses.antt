-- ===== src/Rpc/TxPool/Addresses.antt =====
-- The maps between transactions and their senders' addresses.
use monad_services.Prelude.{
  ℕ, ◌≡◌, refl, inl, inr, true, false, some, List, [], ◌∷◌, contains, set_insert, set_remove,
  contains-set_insert, contains-set_remove, if◌then◌else◌, ◌==◌, Distinct, Option-cases, ==-cases,
  arith,
}
use monad_services.Prelude.Map
use monad_services.Prelude.Map.{
  lookup, remove, lookup-insert, lookup-remove, lookup-remove-some, keys, insert-Distinct,
  lookup_of_absent,
}
use monad_services.Rpc.TxPool.{
  Bridge, hashes_at, remove_hash, forget_address, record_address, retain_non_empty,
}

hashes_at-insert :
    (c a : ℕ) (hs : List ℕ) (m : List (ℕ × List ℕ))
    → hashes_at a (Map.insert c hs m) ≡ (if c == a then hs else hashes_at a m)
hashes_at-insert c a hs m = ground (arith, lookup-insert c a hs m)

hashes_at-remove_hash :
    (c a h : ℕ) (m : List (ℕ × List ℕ))
    → hashes_at a (remove_hash c h m)
      ≡ (if c == a then set_remove h (hashes_at a m) else hashes_at a m)
unfolding remove_hash
hashes_at-remove_hash c a h m = elim (Option-cases (lookup c m)) [
  | inl missing ↦
      rw (missing, remove_hash)
        (elim (==-cases c a) [
          | inl (p, t) ↦ ground (arith, missing, p)
          | inr (p, t) ↦ ground arith
        ])
  | inr (hs, found) ↦
      rw (found, remove_hash)
        (elim (==-cases c a) [
          | inl (p, t) ↦ ground (arith, found, p, lookup-insert c a (set_remove h hs) m)
          | inr (p, t) ↦ ground (arith, found, lookup-insert c a (set_remove h hs) m)
        ])
]

pub hashes_at-retain_non_empty :
    (a : ℕ) (m : List (ℕ × List ℕ))
    → Distinct (keys m)
    → (hashes_at a (retain_non_empty m) ≡ hashes_at a m)
unfolding retain_non_empty lookup
hashes_at-retain_non_empty a [] d = refl
hashes_at-retain_non_empty a ((c, []) ∷ m) d = elim (==-cases c a) [
  | inl (p, t) ↦ ground (arith, hashes_at-retain_non_empty a m d.1, lookup_of_absent a m, d.0)
  | inr (p, t) ↦ ground (arith, hashes_at-retain_non_empty a m d.1)
]
hashes_at-retain_non_empty a ((c, x ∷ xs) ∷ m) d =
    ground (arith, hashes_at-retain_non_empty a m d.1)

contains-keys-retain :
    (a : ℕ) (m : List (ℕ × List ℕ))
    → contains a (keys m) ≡ false
    → contains a (keys (retain_non_empty m)) ≡ false
unfolding retain_non_empty
contains-keys-retain a [] h = refl
contains-keys-retain a ((c, []) ∷ m) h = contains-keys-retain a m (ground arith)
contains-keys-retain a ((c, x ∷ xs) ∷ m) h = ground (arith, contains-keys-retain a m)

pub retain_non_empty-Distinct :
    (m : List (ℕ × List ℕ)) → Distinct (keys m) → Distinct (keys (retain_non_empty m))
unfolding retain_non_empty
retain_non_empty-Distinct [] d = tt
retain_non_empty-Distinct ((c, []) ∷ m) d = retain_non_empty-Distinct m d.1
retain_non_empty-Distinct ((c, x ∷ xs) ∷ m) d =
    (contains-keys-retain c m d.0, retain_non_empty-Distinct m d.1)

remove_hash-Distinct :
    (c h : ℕ) (m : List (ℕ × List ℕ)) → Distinct (keys m) → Distinct (keys (remove_hash c h m))
unfolding remove_hash
remove_hash-Distinct c h m d = elim (Option-cases (lookup c m)) [
  | inl missing ↦ rw (missing, remove_hash) d
  | inr (hs, found) ↦ rw (found, remove_hash) (insert-Distinct c (set_remove h hs) m d)
]

-- Each transaction with an address has its sender's, and an address's set holds exactly the
-- transactions with that address.
pub record Grouped (sender : ℕ → ℕ) (hash_address : List (ℕ × ℕ))
    (address_hashes : List (ℕ × List ℕ)) : Type 0 where
  pub sent : (h a : ℕ) → lookup h hash_address ≡ some a → a ≡ sender h
  pub grouped :
      (h a : ℕ) → lookup h hash_address ≡ some a → contains h (hashes_at a address_hashes) ≡ true
  pub ungrouped :
      (h a : ℕ) → contains h (hashes_at a address_hashes) ≡ true → lookup h hash_address ≡ some a
  pub distinct : Distinct (keys address_hashes)

module _ (sender : ℕ → ℕ) (b : Bridge) (g : Grouped sender b.hash_address b.address_hashes)
    (h : ℕ) where
  pub forget_address-Grouped :
      Grouped sender (forget_address h b).hash_address (forget_address h b).address_hashes
  unfolding forget_address
  forget_address-Grouped = elim (Option-cases (lookup h b.hash_address)) [
    | inl missing ↦ rw (missing, forget_address) g
    | inr (a, found) ↦
        rw (found, forget_address)
          (record {
            sent = λ k c e. g.sent k c (ground (arith, lookup-remove h k b.hash_address));
            grouped = λ k c e.
                let (apart, old) = lookup-remove-some h k c _ e in
                let i = g.grouped k c old in
                ground (
                  arith,
                  i,
                  hashes_at-remove_hash a c h b.address_hashes,
                  contains-set_remove k h (hashes_at c b.address_hashes),
                );
            ungrouped = λ k c e. ground (
              arith,
              g.ungrouped k c,
              lookup-remove h k b.hash_address,
              hashes_at-remove_hash a c h b.address_hashes,
              contains-set_remove k h (hashes_at c b.address_hashes),
            );
            distinct = remove_hash-Distinct a h b.address_hashes g.distinct;
          })
  ]

  pub record_address-Grouped :
      let c = record_address h (sender h) b in Grouped sender c.hash_address c.address_hashes
  unfolding record_address
  record_address-Grouped = record {
    sent = λ k c e. ground (arith, g.sent k c, lookup-insert h k (sender h) b.hash_address);
    grouped = λ k c e. ground (
      arith,
      g.grouped k c,
      lookup-insert h k (sender h) b.hash_address,
      hashes_at-insert (sender h) c (set_insert h (hashes_at (sender h) b.address_hashes))
          b.address_hashes,
      contains-set_insert k h (hashes_at (sender h) b.address_hashes),
    );
    ungrouped = λ k c e. ground (
      arith,
      g.ungrouped k c,
      g.sent k c,
      lookup-insert h k (sender h) b.hash_address,
      hashes_at-insert (sender h) c (set_insert h (hashes_at (sender h) b.address_hashes))
          b.address_hashes,
      contains-set_insert k h (hashes_at (sender h) b.address_hashes),
    );
    distinct = insert-Distinct _ _ b.address_hashes g.distinct;
  }
