-- ===== src/Base/Sort.antt =====
-- sort.Slice and its kin, as insertion sort by a Boolean order, and sort.Search.
use Prim.Native.Nat.{ℕ, zero, suc, ◌+◌, ◌/◌}
use mathlib.Core.Path.{◌≡◌, refl, sym, ap, ◌∙◌}
use mathlib.Core.Bool.{Bool}
use mathlib.Core.List.{List, [], ◌∷◌, map, Perm}
use mathlib.Core.List.Perm
use native.Mathlib.Omega.{arith}
use ruptura.Base.Tests.{ltb, if◌then◌else◌, Bool-cases}
use ruptura.Base.Lists.{length, All, Has}
use ruptura.Base.Members.{IsUnique}
use mathlib.Core.Logic.{◌↔◌, ◌⊎◌, inl, inr}

-- The loop of sort.Search: the least index in [i, j) with f, for a monotone f, else j. Each round
-- halves j - i, so `j - i` rounds of fuel are enough.
pub search_from : ℕ → ℕ → ℕ → (ℕ → Bool) → ℕ
search_from zero i j f = i
search_from (suc fuel) i j f =
    let h = (i + j) / 2 in
    let right = search_from fuel (h + 1) j f in
    let left = search_from fuel i h f in if ltb i j then (if f h then left else right) else i

unfoldable pub sort_search : ℕ → (ℕ → Bool) → ℕ
unfolding search_from
sort_search n f = search_from n 0 n f

module _ {ℓ} {A : Type ℓ} (less : A → A → Bool) where
  pub insert_by : A → List A → List A
  insert_by x [] = x ∷ []
  insert_by x (y ∷ ys) = let rest = insert_by x ys in if less y x then y ∷ rest else x ∷ y ∷ ys

  unfoldable pub sort_by : List A → List A
  unfolding insert_by
  sort_by [] = []
  sort_by (x ∷ xs) = insert_by x (sort_by xs)

  pub insert_by-perm : (x : A) (ys : List A) → Perm (insert_by x ys) (x ∷ ys)
  unfolding insert_by
  insert_by-perm x [] = Perm.refl (x ∷ [])
  insert_by-perm x (y ∷ ys) = elim (Bool-cases (less y x)) [
    | inl after ↦ rw after (Perm.trans (Perm.cons y (insert_by-perm x ys)) (Perm.swap x y ys))
    | inr here ↦ rw here (Perm.refl (x ∷ y ∷ ys))
  ]

  -- Sorting only rearranges.
  pub sort_by-perm : (xs : List A) → Perm (sort_by xs) xs
  unfolding sort_by
  sort_by-perm [] = Perm.refl []
  sort_by-perm (x ∷ xs) = Perm.trans (insert_by-perm x (sort_by xs)) (Perm.cons x (sort_by-perm xs))

  length-insert_by : (x : A) (ys : List A) → length (insert_by x ys) ≡ suc (length ys)
  unfolding insert_by
  length-insert_by x [] = refl
  length-insert_by x (y ∷ ys) = ground (arith, length-insert_by x ys)

  pub length-sort_by : (xs : List A) → length (sort_by xs) ≡ length xs
  unfolding sort_by
  length-sort_by [] = refl
  length-sort_by (x ∷ xs) = length-insert_by x (sort_by xs) ∙ ap suc (length-sort_by xs)

  All-insert_by {κ} :
      (P : A → Type κ) (x : A) (ys : List A) → P x → All P ys → All P (insert_by x ys)
  unfolding insert_by
  All-insert_by P x [] h hs = (h, tt)
  All-insert_by P x (y ∷ ys) h hs = elim (Bool-cases (less y x)) [
    | inl after ↦ rw after (hs.0, All-insert_by P x ys h hs.1)
    | inr here ↦ rw here (h, hs)
  ]

  pub All-sort_by {κ} : (P : A → Type κ) (xs : List A) → All P xs → All P (sort_by xs)
  unfolding sort_by
  All-sort_by P [] hs = tt
  All-sort_by P (x ∷ xs) hs = All-insert_by P x (sort_by xs) hs.0 (All-sort_by P xs hs.1)

module _ {A : Type 0} (less : A → A → Bool) where
  Has-insert_by : (a x : A) (ys : List A) → Has a (insert_by less x ys) ↔ ((x ≡ a) ⊎ Has a ys)
  unfolding insert_by
  Has-insert_by a x [] = (λ h. h, λ h. h)
  Has-insert_by a x (y ∷ ys) = ground (arith, Has-insert_by a x ys)

  pub Has-sort_by : (a : A) (xs : List A) → Has a (sort_by less xs) ↔ Has a xs
  unfolding sort_by
  Has-sort_by a [] = (λ h. h, λ h. h)
  Has-sort_by a (x ∷ xs) = ground (arith, Has-insert_by a x (sort_by less xs), Has-sort_by a xs)

  -- Different keys stay different.
  module _ {K : Type 0} (key : A → K) where
    Has-key-insert_by :
        (k : K) (x : A) (ys : List A)
        → Has k (map key (insert_by less x ys)) ↔ ((key x ≡ k) ⊎ Has k (map key ys))
    unfolding insert_by
    Has-key-insert_by k x [] = (λ h. h, λ h. h)
    Has-key-insert_by k x (y ∷ ys) = ground (arith, Has-key-insert_by k x ys)

    pub Has-key-sort_by :
        (k : K) (xs : List A) → Has k (map key (sort_by less xs)) ↔ Has k (map key xs)
    unfolding sort_by
    Has-key-sort_by k [] = (λ h. h, λ h. h)
    Has-key-sort_by k (x ∷ xs) =
        ground (arith, Has-key-insert_by k x (sort_by less xs), Has-key-sort_by k xs)

    IsUnique-insert_by :
        (x : A) (ys : List A)
        → ¬ Has (key x) (map key ys)
        → IsUnique (map key ys)
        → IsUnique (map key (insert_by less x ys))
    unfolding insert_by
    IsUnique-insert_by x [] new u = (λ h. h, tt)
    IsUnique-insert_by x (y ∷ ys) new u = elim (Bool-cases (less y x)) [
      | inl after ↦ rw after (
        λ h. elim ((Has-key-insert_by (key y) x ys).0 h) [
          | inl e ↦ new (inl (sym e))
          | inr there ↦ u.0 there
        ],
        IsUnique-insert_by x ys (λ h. new (inr h)) u.1,
      )
      | inr here ↦ rw here (new, u)
    ]

    pub IsUnique-sort_by :
        (xs : List A) → IsUnique (map key xs) → IsUnique (map key (sort_by less xs))
    unfolding sort_by
    IsUnique-sort_by [] u = tt
    IsUnique-sort_by (x ∷ xs) u =
        IsUnique-insert_by x (sort_by less xs) (λ h. u.0 ((Has-key-sort_by (key x) xs).0 h))
          (IsUnique-sort_by xs u.1)
