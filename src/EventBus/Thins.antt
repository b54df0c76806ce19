-- ===== src/EventBus/Thins.antt =====
-- Lists of some of the elements of another one, for what a queue that loses events passes on.
use ruptura.Base.{List, [], ◌∷◌, ◌++◌, drop}

-- A list of some of the elements of another one, in the same order.
pub data Thins {A : Type 0} : List A → List A → Type 0 where
  nothing : Thins [] []
  keeps : {x : A} {xs ys : List A} → Thins xs ys → Thins (x ∷ xs) (x ∷ ys)
  drops : {y : A} {xs ys : List A} → Thins xs ys → Thins xs (y ∷ ys)

module _ {A : Type 0} where
  pub Thins-refl : (xs : List A) → Thins xs xs
  Thins-refl [] = nothing
  Thins-refl (x ∷ xs) = keeps (Thins-refl xs)

  pub Thins-append :
      {xs ys us vs : List A} → Thins xs ys → Thins us vs → Thins (xs ++ us) (ys ++ vs)
  Thins-append nothing more = more
  Thins-append (keeps t) more = keeps (Thins-append t more)
  Thins-append (drops t) more = drops (Thins-append t more)

  pub Thins-trans : {ys zs : List A} → Thins ys zs → {xs : List A} → Thins xs ys → Thins xs zs
  Thins-trans nothing t = t
  Thins-trans (keeps u) (keeps t) = keeps (Thins-trans u t)
  Thins-trans (keeps u) (drops t) = drops (Thins-trans u t)
  Thins-trans (drops u) t = drops (Thins-trans u t)

  pub Thins-drop : (xs : List A) → Thins (drop 1 xs) xs
  Thins-drop [] = nothing
  Thins-drop (x ∷ xs) = drops (Thins-refl xs)
