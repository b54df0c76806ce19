-- ===== src/Ring/Slots.antt =====
-- utils.go: writes to a slot of a CircularBuffer, and its values read in two halves.
use Prim.Native.Nat.{zero, suc}
use ruptura.Base.{
  ℕ, ◌+◌, ◌-◌, ◌≤◌, ◌<◌, ◌≡◌, refl, sym, ap, ◌∙◌, List, [], ◌∷◌, ◌++◌, append_assoc, length,
  length-append, length-drop, take, drop, drop-append-le, last_n, last_n-append, arith,
}
use ruptura.Ring.{set_at, repeat}

module _ {A : Type 0} where
  pub length-set_at : (i : ℕ) (v : A) (xs : List A) → length (set_at i v xs) ≡ length xs
  length-set_at i v [] = refl
  length-set_at zero v (x ∷ xs) = refl
  length-set_at (suc i) v (x ∷ xs) = ap suc (length-set_at i v xs)

  pub length-repeat : (n : ℕ) (a : A) → length (repeat n a) ≡ n
  length-repeat zero a = refl
  length-repeat (suc n) a = ap suc (length-repeat n a)

  pub take-set_at :
      (i : ℕ) (v : A) (xs : List A)
      → i < length xs
      → take (i + 1) (set_at i v xs) ≡ take i xs ++ v ∷ []
  take-set_at i v [] h = absurd (omega arith)
  take-set_at zero v (x ∷ xs) h = refl
  take-set_at (suc i) v (x ∷ xs) h =
      let e : suc i + 1 ≡ suc (i + 1) = omega arith in
      rw e (ap (λ l. x ∷ l) (take-set_at i v xs (omega arith)))

  pub drop-set_at : (i : ℕ) (v : A) (xs : List A) → drop (i + 1) (set_at i v xs) ≡ drop (i + 1) xs
  drop-set_at i v [] = refl
  drop-set_at zero v (x ∷ xs) = refl
  drop-set_at (suc i) v (x ∷ xs) =
      let e : suc i + 1 ≡ suc (i + 1) = omega arith in rw e (drop-set_at i v xs)

  pub drop-all : (n : ℕ) (xs : List A) → length xs ≤ n → drop n xs ≡ []
  drop-all zero [] h = refl
  drop-all (suc n) [] h = refl
  drop-all zero (x ∷ xs) h = absurd (omega arith)
  drop-all (suc n) (x ∷ xs) h = drop-all n xs (omega arith)

  pub take-all : (n : ℕ) (xs : List A) → length xs ≤ n → take n xs ≡ xs
  take-all zero [] h = refl
  take-all (suc n) [] h = refl
  take-all zero (x ∷ xs) h = absurd (omega arith)
  take-all (suc n) (x ∷ xs) h = ap (λ l. x ∷ l) (take-all n xs (omega arith))

  pub length-take : (n : ℕ) (xs : List A) → n ≤ length xs → length (take n xs) ≡ n
  length-take zero xs h = refl
  length-take (suc n) [] h = absurd (omega arith)
  length-take (suc n) (x ∷ xs) h = ap suc (length-take n xs (omega arith))

  pub drop-one : (i : ℕ) (xs : List A) → i < length xs → drop 1 (drop i xs) ≡ drop (i + 1) xs
  drop-one i [] h = absurd (omega arith)
  drop-one zero (x ∷ xs) h = refl
  drop-one (suc i) (x ∷ xs) h =
      let e : suc i + 1 ≡ suc (i + 1) = omega arith in rw e (drop-one i xs (omega arith))

  pub last_n-short : (n : ℕ) (xs : List A) → length xs ≤ n → last_n n xs ≡ xs
  last_n-short n xs h = let e : length xs - n ≡ 0 = omega arith in rw e refl

  -- A full ring loses its oldest value.
  pub last_n-push :
      (n : ℕ) (kept pushed : List A) (v : A)
      → kept ≡ last_n n pushed
      → length kept ≡ n
      → 1 ≤ n
      → last_n n (pushed ++ v ∷ []) ≡ drop 1 kept ++ v ∷ []
  last_n-push n kept pushed v e size h =
      let cut : length (kept ++ v ∷ []) - n ≡ 1 = omega (arith, length-append kept (v ∷ [])) in
      sym (last_n-append n pushed (v ∷ []))
      ∙ ap (λ l. last_n n (l ++ v ∷ [])) (sym e)
      ∙ ap (λ k. drop k (kept ++ v ∷ [])) cut
      ∙ drop-append-le 1 kept (v ∷ []) (omega arith)

  -- The ring from `head` on, after a value was written there.
  pub turn :
      (i : ℕ) (v : A) (xs : List A)
      → i < length xs
      → drop (i + 1) (set_at i v xs) ++ take (i + 1) (set_at i v xs)
        ≡ drop 1 (drop i xs ++ take i xs) ++ v ∷ []
  turn i v xs h =
      rw
        (
          take-set_at i v xs h,
          drop-set_at i v xs,
          drop-append-le 1 (drop i xs) (take i xs) (omega (arith, length-drop i xs)),
          drop-one i xs h,
        )
        (sym (append_assoc (drop (i + 1) xs) (take i xs) (v ∷ [])))
