-- ===== src/Base/Window.antt =====
-- Go's idiom for a bounded log: append, then cut the slice to its last `n` elements.
use Prim.Native.Nat.{ℕ, ◌+◌, ◌-◌, ◌≤◌}
use mathlib.Core.Path.{◌≡◌, refl, sym, ap, ◌≡⟨◌⟩◌, ◌∎}
use mathlib.Core.Logic.{inl, inr}
use mathlib.Core.List.{List, ◌++◌}
use native.Mathlib.Omega.{arith}
use ruptura.Base.Tests.{ltb, Bool-cases, if◌then◌else◌}
use ruptura.Base.Lists.{length, drop, length-append, length-drop, drop-append-le, drop-drop}

module _ {ℓ} {A : Type ℓ} where
  -- `if len(s) > n { s = s[len(s)-n:] }`
  abbrev pub cut_to_last : ℕ → List A → List A
  cut_to_last n xs = if ltb n (length xs) then drop (length xs - n) xs else xs

  -- The last `n` elements.
  abbrev pub last_n : ℕ → List A → List A
  last_n n xs = drop (length xs - n) xs

  pub cut_to_last-eq : (n : ℕ) (xs : List A) → cut_to_last n xs ≡ last_n n xs
  cut_to_last-eq n xs = elim (Bool-cases (ltb n (length xs))) [
    | inl long ↦ rw long
    | inr short ↦ rw short (let e : length xs - n ≡ 0 = ground arith in rw e refl)
  ]

  pub length-last_n : (n : ℕ) (xs : List A) → length (last_n n xs) ≤ n
  length-last_n n xs = omega (arith, length-drop (length xs - n) xs)

  pub length-cut_to_last : (n : ℕ) (xs : List A) → length (cut_to_last n xs) ≤ n
  length-cut_to_last n xs = rw (cut_to_last-eq n xs) (length-last_n n xs)

  -- Cutting early loses nothing that a later cut would keep.
  pub last_n-append : (n : ℕ) (xs ys : List A) → last_n n (last_n n xs ++ ys) ≡ last_n n (xs ++ ys)
  last_n-append n xs ys =
      drop (length (last_n n xs ++ ys) - n) (last_n n xs ++ ys)
      ≡⟨ ap (drop (length (last_n n xs ++ ys) - n)) (sym regroup) ⟩
        drop (length (last_n n xs ++ ys) - n) (drop (length xs - n) (xs ++ ys))
      ≡⟨ drop-drop (length (last_n n xs ++ ys) - n) (length xs - n) (xs ++ ys) ⟩
        drop (length xs - n + (length (last_n n xs ++ ys) - n)) (xs ++ ys)
      ≡⟨ ap (λ k. drop k (xs ++ ys)) count ⟩ last_n n (xs ++ ys) ∎
    where
      regroup : drop (length xs - n) (xs ++ ys) ≡ last_n n xs ++ ys
      regroup = drop-append-le (length xs - n) xs ys (omega arith)

      count : length xs - n + (length (last_n n xs ++ ys) - n) ≡ length (xs ++ ys) - n
      count = omega (
        arith,
        length-append (last_n n xs) ys,
        length-append xs ys,
        length-drop (length xs - n) xs,
      )
