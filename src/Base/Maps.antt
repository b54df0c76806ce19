-- ===== src/Base/Maps.antt =====
-- A Go map as an association list. The order of a list stands for one iteration order.
use mathlib.Core.Logic.{◌≢◌, inl, inr}
use mathlib.Core.Path.{◌≡◌, refl, subst}
use mathlib.Core.Option.{Option, none, some}
use mathlib.Core.List.{List, [], ◌∷◌}
use native.Mathlib.Omega.{arith}
use ruptura.Base.Tests.{if◌then◌else◌, Bool-cases}
use ruptura.Base.Lists.{All}
use ruptura.Base.Equality.{Eq, ◌==◌, ==_iff, ==_refl, ==_ne}

abbrev pub Dict {ℓ κ} : Type ℓ → Type κ → Type (ℓ ⊔ κ)
Dict K V = List (K × V)

module _ {ℓ κ} {K : Type ℓ} {V : Type κ} ⦃e : Eq K⦄ where
  -- `v, ok := m[k]`
  unfoldable pub lookup : K → Dict K V → Option V
  lookup k [] = none
  lookup k ((j, v) ∷ m) = if j == k then some v else lookup k m

  -- `m[k] = v`
  unfoldable pub insert : K → V → Dict K V → Dict K V
  insert k v [] = (k, v) ∷ []
  insert k v ((j, w) ∷ m) = if j == k then (k, v) ∷ m else (j, w) ∷ insert k v m

  -- `delete(m, k)`
  unfoldable pub delete : K → Dict K V → Dict K V
  delete k [] = []
  delete k ((j, w) ∷ m) = let rest = delete k m in if j == k then rest else (j, w) ∷ rest

  -- A read at any key after a write at `at`.
  pub lookup-insert :
      (at key : K) (new : V) (table : Dict K V)
      → lookup key (insert at new table) ≡ (if at == key then some new else lookup key table)
  unfolding insert lookup
  lookup-insert at key new ((old_key, old) ∷ rest) =
      ground
        (arith, ==_iff old_key at, ==_iff at key, ==_iff old_key key, lookup-insert at key new rest)
  lookup-insert at key new [] = refl

  pub lookup-delete :
      (k j : K) (m : Dict K V) → lookup j (delete k m) ≡ (if k == j then none else lookup j m)
  unfolding lookup delete
  lookup-delete k j [] = ground arith
  lookup-delete k j ((i, w) ∷ m) =
      ground (arith, ==_iff k j, ==_iff i k, ==_iff i j, lookup-delete k j m)

  pub lookup-insert_self : (k : K) (v : V) (m : Dict K V) → lookup k (insert k v m) ≡ some v
  lookup-insert_self k v m = rw (lookup-insert k k v m, ==_refl k)

  pub lookup-insert_ne :
      (k j : K) (v : V) (m : Dict K V) → k ≢ j → lookup j (insert k v m) ≡ lookup j m
  lookup-insert_ne k j v m h = rw (lookup-insert k j v m, ==_ne k j h)

  pub lookup-delete_self : (k : K) (m : Dict K V) → lookup k (delete k m) ≡ none
  lookup-delete_self k m = rw (lookup-delete k k m, ==_refl k)

  -- What holds of every value holds after each operation, and of what is found.
  pub All-insert {μ} :
      (P : V → Type μ) (k : K) (v : V) (m : Dict K V)
      → P v
      → All (λ kv. P kv.1) m
      → All (λ kv. P kv.1) (insert k v m)
  unfolding insert
  All-insert P k v [] h hs = (h, tt)
  All-insert P k v ((j, w) ∷ m) h hs = elim (Bool-cases (j == k)) [
    | inl same ↦ rw same (h, hs.1)
    | inr other ↦ rw other (hs.0, All-insert P k v m h hs.1)
  ]

  pub All-lookup {μ} :
      (P : V → Type μ) (k : K) (m : Dict K V) {v : V}
      → All (λ kv. P kv.1) m
      → lookup k m ≡ some v
      → P v
  unfolding lookup
  All-lookup P k [] hs e = absurd (cc)
  All-lookup P k ((j, w) ∷ m) {v} hs e = elim (Bool-cases (j == k)) [
    | inl same ↦
        let found : some w ≡ some v = rw same at e in let value : w ≡ v = cc in subst P value hs.0
    | inr other ↦ All-lookup P k m hs.1 (rw other at e)
  ]
