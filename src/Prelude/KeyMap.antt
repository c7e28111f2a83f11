-- ===== src/Prelude/KeyMap.antt =====
-- Maps whose keys are compared by a Boolean test, as association lists. `insert_key` replaces in place or
-- adds at the end.
use mathlib.Core.Path.{◌≡◌, refl, sym, ap, subst, ◌∙◌}
use mathlib.Core.Bool.{Bool, true, false}
use mathlib.Core.List.{List, [], ◌∷◌}
use mathlib.Core.Option.{Option, none, some}
use mathlib.Core.Logic.{inl, inr}
use native.Mathlib.Omega.{arith}
use monad_services.Prelude.Tests.{if◌then◌else◌, Bool-cases}
use monad_services.Prelude.Lists.{All}

-- The new value of a key that is written, the old one of another.
abbrev pub written_or {κ μ} : {V : Type κ} {W : Type μ} → Option W → V → Option V → Option V
written_or none new old = old
written_or (some _) new old = some new

written_or-same {κ μ} :
    {V : Type κ} {W : Type μ} (found : Option W) (new : V)
    → written_or found new (some new) ≡ some new
written_or-same none new = refl
written_or-same (some _) new = refl

module _ {ℓ κ} {K : Type ℓ} (same : K → K → Bool) where
  module _ {V : Type κ} where
    unfoldable pub lookup_key : K → List (K × V) → Option V
    lookup_key key [] = none
    lookup_key key ((other, value) ∷ rest) =
        if same other key then some value else lookup_key key rest

    unfoldable pub insert_key : K → V → List (K × V) → List (K × V)
    insert_key key value [] = (key, value) ∷ []
    insert_key key value ((other, old) ∷ rest) =
        let more = insert_key key value rest in
        if same other key then (key, value) ∷ rest else (other, old) ∷ more

    unfoldable pub put_all : List (K × V) → List (K × V) → List (K × V)
    put_all [] table = table
    put_all ((key, value) ∷ writes) table = put_all writes (insert_key key value table)

    -- No key occurs twice.
    abbrev pub OneEach : List (K × V) → Type κ
    OneEach [] = Unit
    OneEach ((key, value) ∷ rest) = (lookup_key key rest ≡ none) × OneEach rest

    module _ (sound : (a b : K) → same a b ≡ true → a ≡ b)
        (reflexive : (a : K) → same a a ≡ true) where
      pub lookup_key-insert_key :
          (key asked : K) (value : V) (m : List (K × V))
          → lookup_key asked (insert_key key value m)
            ≡ (if same key asked then some value else lookup_key asked m)
      unfolding lookup_key insert_key
      lookup_key-insert_key key asked value [] = refl
      lookup_key-insert_key key asked value ((other, old) ∷ rest) =
          let ih = lookup_key-insert_key key asked value rest in
          elim (Bool-cases (same other key)) [
            | inl t ↦ rw t (elim (Bool-cases (same key asked)) [
              | inl u ↦ rw u refl
              | inr u ↦
                  let v : same other asked ≡ false =
                    ap (λ k. same k asked) (sound other key t) ∙ u in
                  rw (u, v) refl
            ])
            | inr t ↦ rw t (elim (Bool-cases (same other asked)) [
              | inl u ↦
                  let v : same key asked ≡ false = elim (Bool-cases (same key asked)) [
                    | inl w ↦
                        let clash : same other key ≡ true =
                          ap (same other) (sound key asked w) ∙ u in
                        absurd (ground (arith, clash, t))
                    | inr w ↦ w
                  ] in
                  rw (u, v) refl
              | inr u ↦ rw u ih
            ])
          ]

      pub lookup_key-insert_key_self :
          (key : K) (value : V) (m : List (K × V))
          → lookup_key key (insert_key key value m) ≡ some value
      lookup_key-insert_key_self key value m =
          lookup_key-insert_key key key value m
          ∙ ap (λ b. if b then some value else lookup_key key m) (reflexive key)

      pub insert_key-OneEach :
          (key : K) (value : V) (m : List (K × V)) → OneEach m → OneEach (insert_key key value m)
      unfolding lookup_key insert_key
      insert_key-OneEach key value [] d = (refl, tt)
      insert_key-OneEach key value ((other, old) ∷ rest) d = elim (Bool-cases (same other key)) [
        | inl t ↦ rw t (subst (λ k. lookup_key k rest ≡ none) (sound other key t) d.0, d.1)
        | inr t ↦
            let v : same key other ≡ false = elim (Bool-cases (same key other)) [
              | inl w ↦
                  let clash : same other key ≡ true =
                    ap (same other) (sound key other w) ∙ reflexive other in
                  absurd (ground (arith, clash, t))
              | inr w ↦ w
            ] in
            rw t (
              lookup_key-insert_key key other value rest
                  ∙ ap (λ b. if b then some value else lookup_key other rest) v
                  ∙ d.0,
              insert_key-OneEach key value rest d.1,
            )
      ]

      -- What holds of all that a lookup finds holds of each entry.
      pub All-lookup_key {μ} :
          (P : K × V → Type μ) (m : List (K × V))
          → OneEach m
          → ((k : K) (v : V) → lookup_key k m ≡ some v → P (k, v))
          → All P m
      unfolding lookup_key
      All-lookup_key P [] d h = tt
      All-lookup_key P ((i, w) ∷ m) d h = (
        h i w (ap (λ b. if b then some w else lookup_key i m) (reflexive i)),
        All-lookup_key P m d.1 (λ k v found. h k v (elim (Bool-cases (same i k)) [
          | inl t ↦
              let none_there : lookup_key k m ≡ none =
                ap (λ j. lookup_key j m) (sym (sound i k t)) ∙ d.0 in
              absurd (ground (arith, none_there, found))
          | inr t ↦ rw t found
        ])),
      )

      -- Writes that all have the value their key calls for.
      pub lookup_key-put_all :
          (target : K → V) (asked : K) (writes table : List (K × V))
          → All (λ w. w.1 ≡ target w.0) writes
          → lookup_key asked (put_all writes table)
            ≡ written_or (lookup_key asked writes) (target asked) (lookup_key asked table)
      unfolding put_all lookup_key
      lookup_key-put_all target asked [] table h = refl
      lookup_key-put_all target asked ((key, value) ∷ writes) table h =
          let ih = lookup_key-put_all target asked writes (insert_key key value table) h.1 in
          let ins = lookup_key-insert_key key asked value table in
          let found = lookup_key asked writes in
          let new = target asked in
          let here = ih ∙ ap (written_or found new) ins in
          let chosen : Bool → Option V =
            λ b. written_or found new (if b then some value else lookup_key asked table) in
          elim (Bool-cases (same key asked)) [
            | inl t ↦
                let v : value ≡ new = h.0 ∙ ap target (sound key asked t) in
                rw t (
                  here
                  ∙ ap chosen t
                  ∙ ap (λ w. written_or found new (some w)) v
                  ∙ written_or-same found new)
            | inr t ↦ rw t (here ∙ ap chosen t)
          ]
