-- ===== src/Base/Members.antt =====
-- The elements of a list that is built by appending, filtering, mapping or sorting, and lists of
-- different elements.
use mathlib.Core.Path.{◌≡◌, refl, sym, subst}
use mathlib.Core.Logic.{◌↔◌, ◌⊎◌, inl, inr}
use mathlib.Core.Bool.{Bool, true}
use mathlib.Core.List.{List, [], ◌∷◌, ◌++◌, map}
use native.Mathlib.Omega.{arith}
use ruptura.Base.Tests.{Bool-cases}
use ruptura.Base.Lists.{Has, select}

module _ {A : Type 0} where
  pub Has-append : (a : A) (xs ys : List A) → Has a (xs ++ ys) ↔ (Has a xs ⊎ Has a ys)
  Has-append a [] ys = (inr, λ h. elim h [ inl e ↦ absurd e | inr h' ↦ h' ])
  Has-append a (x ∷ xs) ys = ground (arith, Has-append a xs ys)

  pub Has-snoc : (a b : A) (xs : List A) → Has a (xs ++ b ∷ []) ↔ (Has a xs ⊎ (b ≡ a))
  Has-snoc a b xs = ground (arith, Has-append a xs (b ∷ []))

  pub Has-select :
      (a : A) (p : A → Bool) (xs : List A) → Has a (select p xs) ↔ (Has a xs × (p a ≡ true))
  Has-select a p [] = (λ h. absurd h, λ h. absurd h.0)
  Has-select a p (x ∷ xs) = elim (Bool-cases (p x)) [
    | inl kept ↦ rw kept (
      λ h. elim h [
        | inl e ↦ (inl e, subst (λ y. p y ≡ true) e kept)
        | inr h' ↦ let (there, passes) = (Has-select a p xs).0 h' in (inr there, passes)
      ],
      λ h. elim h.0 [ inl e ↦ inl e | inr h' ↦ inr ((Has-select a p xs).1 (h', h.1)) ],
    )
    | inr dropped ↦ rw dropped (
      λ h. let (there, passes) = (Has-select a p xs).0 h in (inr there, passes),
      λ h. elim h.0 [
        | inl e ↦ absurd (let passes : p x ≡ true = subst (λ y. p y ≡ true) (sym e) h.1 in cc)
        | inr h' ↦ (Has-select a p xs).1 (h', h.1)
      ],
    )
  ]

  -- Lists of different elements.
  abbrev pub IsUnique : List A → Type 0
  IsUnique [] = Unit
  IsUnique (x ∷ xs) = ¬ Has x xs × IsUnique xs

  pub IsUnique-snoc : (a : A) (xs : List A) → IsUnique xs → ¬ Has a xs → IsUnique (xs ++ a ∷ [])
  IsUnique-snoc a [] u fresh = (λ h. h, tt)
  IsUnique-snoc a (x ∷ xs) u fresh = (
    λ h. elim ((Has-snoc x a xs).0 h) [ inl earlier ↦ u.0 earlier | inr e ↦ fresh (inl (sym e)) ],
    IsUnique-snoc a xs u.1 (λ h. fresh (inr h)),
  )

pub Has-map :
    {A B : Type 0} (f : A → B) (b : B) (xs : List A)
    → Has b (map f xs) ↔ ((a : A) × Has a xs × (f a ≡ b))
Has-map f b [] = (λ h. absurd h, λ h. absurd h.1)
Has-map f b (x ∷ xs) = (
  λ h. elim h [
    | inl e ↦ (x, inl refl, e)
    | inr h' ↦ let (a, there, e) = (Has-map f b xs).0 h' in (a, inr there, e)
  ],
  λ h.
      let (a, there, e) = h in
      elim there [
        | inl same ↦ inl (subst (λ y. f y ≡ b) (sym same) e)
        | inr h' ↦ inr ((Has-map f b xs).1 (a, h', e))
      ],
)
