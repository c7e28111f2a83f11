-- ===== src/Query/Writer/Links.antt =====
-- Chains of blocks taken apart and put together: their numbers and hashes.
use monad_services.Prelude.{
  ℕ, suc, ◌+◌, ◌≡◌, refl, subst, Option, some, List, [], ◌∷◌, ◌++◌, length, last?, map, some-inj,
  arith,
}
use monad_services.Query.Items.{Header}
use monad_services.Query.Tables.{AssignedBlock, QueryWriterBlock}
use monad_services.Query.Writer.{block_hash_of, last_hash}
use monad_services.Query.Writer.Chain.{Extends, IsChain, hash_before}

module _ (hash_slow : Header → ℕ) where
  pub IsChain-snoc :
      (n : ℕ) (previous : Option ℕ) (blocks : List QueryWriterBlock) (block : QueryWriterBlock)
      → IsChain hash_slow n previous blocks
      → block.header.number ≡ n + length blocks
      → Extends hash_slow (hash_before hash_slow previous blocks) block
      → IsChain hash_slow n previous (blocks ++ (block ∷ []))
  IsChain-snoc n previous [] block h num ext = (omega (arith, num), ext, tt)
  IsChain-snoc n previous (b ∷ blocks) block h num ext = (
    h.0,
    h.1,
    IsChain-snoc (suc n) (some (block_hash_of hash_slow b)) blocks block h.2 (omega (arith, num))
        ext,
  )

  pub hash_before-append :
      (previous : Option ℕ) (xs ys : List QueryWriterBlock)
      → hash_before hash_slow previous (xs ++ ys)
        ≡ hash_before hash_slow (hash_before hash_slow previous xs) ys
  hash_before-append previous [] ys = refl
  hash_before-append previous (x ∷ xs) ys =
      hash_before-append (some (block_hash_of hash_slow x)) xs ys

  pub IsChain-append :
      (n : ℕ) (previous : Option ℕ) (xs ys : List QueryWriterBlock)
      → IsChain hash_slow n previous (xs ++ ys)
      → IsChain hash_slow (n + length xs) (hash_before hash_slow previous xs) ys
  IsChain-append n previous [] ys h = subst (λ m. IsChain hash_slow m previous ys) (omega arith) h
  IsChain-append n previous (x ∷ xs) ys h =
      subst
        (λ m. IsChain hash_slow m (hash_before hash_slow (some (block_hash_of hash_slow x)) xs) ys)
        (omega arith) (IsChain-append (suc n) (some (block_hash_of hash_slow x)) xs ys h.2)

  pub last_number :
      (n : ℕ) (previous : Option ℕ) (blocks : List QueryWriterBlock) (b : QueryWriterBlock)
      → IsChain hash_slow n previous blocks
      → last? blocks ≡ some b
      → b.header.number + 1 ≡ n + length blocks
  last_number n previous [] b h e = absurd cc
  last_number n previous (c ∷ []) b h e =
      subst (λ x. x.header.number + 1 ≡ n + 1) (some-inj e) (omega (arith, h.0))
  last_number n previous (c ∷ d ∷ blocks) b h e =
      omega (arith, last_number (suc n) (some (block_hash_of hash_slow c)) (d ∷ blocks) b h.2 e)

  pub last_hash-hash_before :
      (previous : Option ℕ) (blocks : List AssignedBlock) (b : QueryWriterBlock)
      → last? (map (λ a. a.block) blocks) ≡ some b
      → last_hash hash_slow blocks ≡ hash_before hash_slow previous (map (λ a. a.block) blocks)
  last_hash-hash_before previous [] b e = absurd cc
  last_hash-hash_before previous (a ∷ []) b e = refl
  last_hash-hash_before previous (a ∷ next ∷ blocks) b e =
      last_hash-hash_before (some (block_hash_of hash_slow a.block)) (next ∷ blocks) b e
