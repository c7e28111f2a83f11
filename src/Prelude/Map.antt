-- ===== src/Prelude/Map.antt =====
-- Hash maps with numbers for keys, as association lists. `insert` replaces in place or adds at
-- the end, and `remove` leaves no entry of its key.
use Prim.Native.Nat.{ℕ}
use mathlib.Core.Path.{◌≡◌, refl}
use mathlib.Core.Bool.{Bool, true, false, ◌||◌}
use mathlib.Core.List.{List, [], ◌∷◌, ◌++◌}
use mathlib.Core.Option.{Option, none, some}
use native.Mathlib.Omega.{arith}
use monad_services.Prelude.Lists.{contains, Distinct, All}
use mathlib.Core.Logic.{◌≢◌, ◌⊎◌, inl, inr}
use monad_services.Prelude.Tests.{◌==◌, if◌then◌else◌, ==-cases, Option-cases}

module _ {ℓ} {V : Type ℓ} where
  unfoldable pub insert : ℕ → V → List (ℕ × V) → List (ℕ × V)
  insert key value [] = (key, value) ∷ []
  insert key value ((other, old) ∷ rest) =
      if other == key then (key, value) ∷ rest else (other, old) ∷ insert key value rest

  unfoldable pub remove : ℕ → List (ℕ × V) → List (ℕ × V)
  remove k [] = []
  remove k ((j, w) ∷ m) = let rest = remove k m in if j == k then rest else (j, w) ∷ rest

  unfoldable pub lookup : ℕ → List (ℕ × V) → Option V
  lookup key [] = none
  lookup key ((other, value) ∷ rest) = if other == key then some value else lookup key rest

  unfoldable pub remove_all : List ℕ → List (ℕ × V) → List (ℕ × V)
  remove_all [] m = m
  remove_all (k ∷ ks) m = remove_all ks (remove k m)

  unfoldable pub contains_key : ℕ → List (ℕ × V) → Bool
  contains_key k m = elim (lookup k m) [ none ↦ false | some _ ↦ true ]

  pub lookup-insert :
      (key asked : ℕ) (value : V) (m : List (ℕ × V))
      → lookup asked (insert key value m) ≡ (if key == asked then some value else lookup asked m)
  unfolding insert lookup
  lookup-insert key asked value [] = refl
  lookup-insert key asked value ((other, old) ∷ rest) =
      ground (arith, lookup-insert key asked value rest)

  pub lookup-remove :
      (k j : ℕ) (m : List (ℕ × V)) → lookup j (remove k m) ≡ (if k == j then none else lookup j m)
  unfolding lookup remove
  lookup-remove k j [] = ground arith
  lookup-remove k j ((i, w) ∷ m) = ground (arith, lookup-remove k j m)

  pub lookup-remove_all :
      (j : ℕ) (ks : List ℕ) (m : List (ℕ × V))
      → lookup j (remove_all ks m) ≡ (if contains j ks then none else lookup j m)
  unfolding remove_all
  lookup-remove_all j [] m = refl
  lookup-remove_all j (k ∷ ks) m =
      ground (arith, lookup-remove_all j ks (remove k m), lookup-remove k j m)

  -- What an entry of a changed map says of the map before.
  pub lookup-remove-some :
      (k j : ℕ) (v : V) (m : List (ℕ × V))
      → lookup j (remove k m) ≡ some v
      → (k ≢ j) × (lookup j m ≡ some v)
  lookup-remove-some k j v m e = elim (==-cases k j) [
    | inl (p, t) ↦ absurd (ground (arith, lookup-remove k j m))
    | inr (p, t) ↦ (p, ground (arith, lookup-remove k j m))
  ]

  pub lookup-remove_all-some :
      (ks : List ℕ) (j : ℕ) (v : V) (m : List (ℕ × V))
      → lookup j (remove_all ks m) ≡ some v
      → (contains j ks ≡ false) × (lookup j m ≡ some v)
  lookup-remove_all-some ks j v m e = ground (arith, lookup-remove_all j ks m)

  pub lookup-insert-some :
      (k j : ℕ) (w v : V) (m : List (ℕ × V))
      → lookup j (insert k w m) ≡ some v
      → (k ≡ j) × (w ≡ v) ⊎ (k ≢ j) × (lookup j m ≡ some v)
  lookup-insert-some k j w v m e = elim (==-cases k j) [
    | inl (p, t) ↦ inl (p, ground (arith, lookup-insert k j w m))
    | inr (p, t) ↦ inr (p, ground (arith, lookup-insert k j w m))
  ]

  pub lookup-insert_self : (k : ℕ) (v : V) (m : List (ℕ × V)) → lookup k (insert k v m) ≡ some v
  lookup-insert_self k v m = ground (arith, lookup-insert k k v m)

  pub lookup-insert_ne :
      (k j : ℕ) (v : V) (m : List (ℕ × V)) → k ≢ j → lookup j (insert k v m) ≡ lookup j m
  lookup-insert_ne k j v m h = ground (arith, lookup-insert k j v m)

  pub lookup-remove_ne : (k j : ℕ) (m : List (ℕ × V)) → k ≢ j → lookup j (remove k m) ≡ lookup j m
  lookup-remove_ne k j m h = ground (arith, lookup-remove k j m)

  pub lookup-remove_self : (k : ℕ) (m : List (ℕ × V)) → lookup k (remove k m) ≡ none
  lookup-remove_self k m = ground (arith, lookup-remove k k m)

  abbrev pub keys : List (ℕ × V) → List ℕ
  keys [] = []
  keys ((k, v) ∷ m) = k ∷ keys m

  pub contains-keys-insert :
      (j k : ℕ) (v : V) (m : List (ℕ × V))
      → contains j (keys (insert k v m)) ≡ ((j == k) || contains j (keys m))
  unfolding insert
  contains-keys-insert j k v [] = refl
  contains-keys-insert j k v ((i, w) ∷ m) = elim (==-cases i k) [
    | inl (p, t) ↦ rw t (ground (arith, p))
    | inr (p, t) ↦ rw t (ground (arith, contains-keys-insert j k v m))
  ]

  pub insert-Distinct :
      (k : ℕ) (v : V) (m : List (ℕ × V)) → Distinct (keys m) → Distinct (keys (insert k v m))
  unfolding insert
  insert-Distinct k v [] d = (refl, tt)
  insert-Distinct k v ((i, w) ∷ m) d = elim (==-cases i k) [
    | inl (p, t) ↦ rw t (ground (arith, p), d.1)
    | inr (p, t) ↦ rw t (ground (arith, contains-keys-insert i k v m), insert-Distinct k v m d.1)
  ]

  pub lookup_of_absent :
      (k : ℕ) (m : List (ℕ × V)) → contains k (keys m) ≡ false → lookup k m ≡ none
  unfolding lookup
  lookup_of_absent k [] h = refl
  lookup_of_absent k ((i, w) ∷ m) h = ground (arith, lookup_of_absent k m)

  pub lookup-append :
      (k : ℕ) (m n : List (ℕ × V))
      → lookup k (m ++ n) ≡ elim (lookup k m) [ none ↦ lookup k n | some v ↦ some v ]
  unfolding lookup
  lookup-append k [] n = refl
  lookup-append k ((i, w) ∷ m) n = ground (arith, lookup-append k m n)

  pub contains_key-insert :
      (k j : ℕ) (v : V) (m : List (ℕ × V))
      → contains_key j (insert k v m) ≡ ((k == j) || contains_key j m)
  unfolding contains_key
  contains_key-insert k j v m = ground (arith, lookup-insert k j v m)

  pub contains_key-remove :
      (k j : ℕ) (m : List (ℕ × V))
      → contains_key j (remove k m) ≡ (if k == j then false else contains_key j m)
  unfolding contains_key
  contains_key-remove k j m = ground (arith, lookup-remove k j m)

  pub contains_key_of_lookup :
      (k : ℕ) (v : V) (m : List (ℕ × V)) → lookup k m ≡ some v → contains_key k m ≡ true
  unfolding contains_key
  contains_key_of_lookup k v m e = ground (arith, e)

  pub lookup_of_contains_key :
      (k : ℕ) (m : List (ℕ × V)) → contains_key k m ≡ true → (v : V) × (lookup k m ≡ some v)
  unfolding contains_key
  lookup_of_contains_key k m e = elim (Option-cases (lookup k m)) [
    | inl missing ↦ absurd (ground (arith, missing))
    | inr (v, found) ↦ (v, found)
  ]

  pub contains_key-append_one :
      (k h : ℕ) (v : V) (m : List (ℕ × V))
      → contains_key k (m ++ ((h, v) ∷ [])) ≡ (contains_key k m || (h == k))
  unfolding contains_key lookup
  contains_key-append_one k h v m = elim (Option-cases (lookup k m)) [
    | inl missing ↦ ground (arith, missing, lookup-append k m ((h, v) ∷ []))
    | inr (w, found) ↦ ground (arith, found, lookup-append k m ((h, v) ∷ []))
  ]

  pub contains-keys : (k : ℕ) (m : List (ℕ × V)) → contains k (keys m) ≡ contains_key k m
  unfolding contains_key lookup
  contains-keys k [] = refl
  contains-keys k ((i, w) ∷ m) = ground (arith, contains-keys k m)

  -- What holds of all that a lookup finds holds of each entry, when no key occurs twice.
  pub All-lookup {κ} :
      (P : ℕ × V → Type κ) (m : List (ℕ × V))
      → Distinct (keys m)
      → ((k : ℕ) (v : V) → lookup k m ≡ some v → P (k, v))
      → All P m
  unfolding lookup
  All-lookup P [] d h = tt
  All-lookup P ((i, w) ∷ m) d h = (
    h i w (ground arith),
    All-lookup P m d.1 (λ k v found. h k v (elim (==-cases i k) [
      | inl (p, t) ↦ absurd (ground (arith, p, found, lookup_of_absent i m d.0))
      | inr (p, t) ↦ rw t found
    ])),
  )
