-- ===== src/Ring/Contents.antt =====
-- utils.go: a CircularBuffer holds the last values that were pushed, from the oldest.
use ruptura.Base.{
  ℕ, ◌+◌, ◌-◌, ◌%◌, ◌≤◌, ◌<◌, ◌≡◌, refl, sym, ap, ◌∙◌, subst, ◌⊎◌, inl, inr, true, false, List, [],
  ◌∷◌, ◌++◌, append_assoc, append_nil, length, length-append, length-drop, take, drop, last_n, ltb,
  nat_beq, Bool-cases, arith,
}
use native.Mathlib.Nat.{mod-eq_of_lt, mod_self}
use ruptura.Ring.Slots.{
  length-set_at, length-repeat, take-set_at, drop-all, take-all, length-take, last_n-short,
  last_n-push, turn,
}
use ruptura.Ring.{CircularBuffer, set_at, new_circular_buffer, push, contents}

module _ {A : Type 0} where
  -- What the fields are after some pushes: the ring has room, or it is full.
  IsRing : ℕ → CircularBuffer A → List A → Type 0
  IsRing size c pushed =
      (c.size ≡ size)
      × (length c.values ≡ size)
      × ((c.n < size) × (c.n ≡ length pushed) × (c.head ≡ c.n) × (take c.n c.values ≡ pushed)
          ⊎ (c.n ≡ size)
            × (c.head < size)
            × (drop c.head c.values ++ take c.head c.values ≡ last_n size pushed))

  IsRing-push :
      (size : ℕ) (c : CircularBuffer A) (pushed : List A) (v : A)
      → 1 ≤ size
      → IsRing size c pushed
      → IsRing size (push c v) (pushed ++ v ∷ [])
  unfolding IsRing push
  IsRing-push size c pushed v big (same, len, inl (room, count, at, held)) =
      let some_size : nat_beq c.size 0 ≡ false = ground arith in
      let below : ltb c.n c.size ≡ true = ground arith in
      let here : c.head < length c.values = omega (arith) in
      let size_kept = length-set_at c.head v c.values in
      let longer = length-append pushed (v ∷ []) in
      let written : take (c.head + 1) (set_at c.head v c.values) ≡ pushed ++ v ∷ [] =
        take-set_at c.head v c.values here
        ∙ ap (λ l. l ++ v ∷ []) (ap (λ i. take i c.values) at ∙ held) in
      rw (some_size, below)
        (
          same,
          size_kept ∙ len,
          elim (Bool-cases (ltb (c.n + 1) size)) [
            | inl more ↦
                let next : (c.head + 1) % c.size ≡ c.n + 1 =
                  ap (λ i. (i + 1) % c.size) at ∙ mod-eq_of_lt (ground arith) in
                inl (
                  ground arith,
                  omega arith,
                  next,
                  ap (λ i. take (i + 1) (set_at c.head v c.values)) (sym at) ∙ written,
                )
            | inr last_one ↦
                let full : c.head + 1 ≡ c.size = ground arith in
                let next : (c.head + 1) % c.size ≡ 0 =
                  ap (λ i. i % c.size) full ∙ mod_self c.size in
                inr (
                  omega arith,
                  rw next (omega arith),
                  rw next (
                      append_nil (set_at c.head v c.values)
                      ∙ sym (take-all (c.head + 1) (set_at c.head v c.values) (omega arith))
                      ∙ written
                      ∙ sym (last_n-short size (pushed ++ v ∷ []) (omega arith))),
                )
          ],
        )
  IsRing-push size c pushed v big (same, len, inr (full, here, held)) =
      let some_size : nat_beq c.size 0 ≡ false = ground arith in
      let not_below : ltb c.n c.size ≡ false = ground arith in
      let inside : c.head < length c.values = omega arith in
      let whole : length (drop c.head c.values ++ take c.head c.values) ≡ size = omega (
        arith,
        length-append (drop c.head c.values) (take c.head c.values),
        length-drop c.head c.values,
        length-take c.head c.values (omega arith),
      ) in
      let turned : drop (c.head + 1) (set_at c.head v c.values)
            ++ take (c.head + 1) (set_at c.head v c.values)
          ≡ last_n size (pushed ++ v ∷ []) =
        turn c.head v c.values inside ∙ sym (last_n-push size _ pushed v held whole big) in
      let later = set_at c.head v c.values in
      let ends = length-set_at c.head v c.values in
      let at : ((c.head + 1) % c.size < size)
          × (drop ((c.head + 1) % c.size) later ++ take ((c.head + 1) % c.size) later
              ≡ last_n size (pushed ++ v ∷ [])) =
        elim (Bool-cases (ltb (c.head + 1) size)) [
          | inl more ↦
              let next : (c.head + 1) % c.size ≡ c.head + 1 = mod-eq_of_lt (ground arith) in
              rw next (ground arith, turned)
          | inr last_one ↦
              let end : c.head + 1 ≡ c.size = ground arith in
              let next : (c.head + 1) % c.size ≡ 0 = ap (λ i. i % c.size) end ∙ mod_self c.size in
              rw next (
                omega arith,
                append_nil later
                    ∙ sym (take-all (c.head + 1) later (omega arith))
                    ∙ ap (λ l. l ++ take (c.head + 1) later)
                        (sym (drop-all (c.head + 1) later (omega arith)))
                    ∙ turned,
              )
        ] in
      rw (some_size, not_below) (same, ends ∙ len, inr (full, at.0, at.1))

  -- The buffer after some pushes.
  abbrev pub push_all : CircularBuffer A → List A → CircularBuffer A
  push_all c [] = c
  push_all c (v ∷ vs) = push_all (push c v) vs

  IsRing-push_all :
      (size : ℕ) (c : CircularBuffer A) (before vs : List A)
      → 1 ≤ size
      → IsRing size c before
      → IsRing size (push_all c vs) (before ++ vs)
  IsRing-push_all size c before [] big h = rw (append_nil before) h
  IsRing-push_all size c before (v ∷ vs) big h =
      subst (λ l. IsRing size (push_all (push c v) vs) l) (append_assoc before (v ∷ []) vs)
        (IsRing-push_all size (push c v) (before ++ v ∷ []) vs big
          (IsRing-push size c before v big h))

  -- A new CircularBuffer of any positive size gives back, after any pushes, the last values that fit, from
  -- the oldest.
  pub contents-push_all :
      (zero_value : A) (size : ℕ) (vs : List A)
      → 1 ≤ size
      → contents (push_all (new_circular_buffer zero_value size) vs) ≡ last_n size vs
  unfolding IsRing contents new_circular_buffer
  contents-push_all zero_value size vs big =
      let c = push_all (new_circular_buffer zero_value size) vs in
      let (same, len, state) =
        IsRing-push_all size (new_circular_buffer zero_value size) [] vs big
          (refl, length-repeat size zero_value, inl (big, refl, refl, refl)) in
      elim state [
        | inl (room, count, at, held) ↦ elim (Bool-cases (nat_beq c.n 0)) [
          | inl empty ↦
              let no_values : length vs ≡ 0 = ground arith in
              rw (contents, empty) (sym (drop-all (length vs - size) vs (omega arith)))
          | inr some_values ↦
              let below : ltb c.n c.size ≡ true = ground arith in
              rw (contents, some_values, below) (held ∙ sym (last_n-short size vs (omega arith)))
        ]
        | inr (full, here, held) ↦
            let some_values : nat_beq c.n 0 ≡ false = ground arith in
            let not_below : ltb c.n c.size ≡ false = ground arith in
            rw (contents, some_values, not_below) held
      ]
