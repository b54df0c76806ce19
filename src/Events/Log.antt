-- ===== src/Events/Log.antt =====
-- events.go: Push and Recent.
use ruptura.Base.{
  ℕ, zero, suc, ◌+◌, ◌-◌, ◌≤◌, ◌≡◌, refl, ap, String, List, [], ◌∷◌, ◌++◌, length, take, drop,
  last_n, length-last_n, cut_to_last-eq, length-append, Time, arith,
}
use ruptura.Events.{Event, Bus, max_events, newest_first, stamp, push, recent}

module _ {A : Type 0} where
  newest_first-append : (xs : List A) (y : A) → newest_first (xs ++ y ∷ []) ≡ y ∷ newest_first xs
  newest_first-append [] y = refl
  newest_first-append (x ∷ xs) y = ap (λ l. l ++ x ∷ []) (newest_first-append xs y)

  length-newest_first : (xs : List A) → length (newest_first xs) ≡ length xs
  length-newest_first [] = refl
  length-newest_first (x ∷ xs) =
      omega (arith, length-append (newest_first xs) (x ∷ []), length-newest_first xs)

  take-append : (n : ℕ) (xs ys : List A) → n ≤ length xs → take n (xs ++ ys) ≡ take n xs
  take-append zero xs ys h = refl
  take-append (suc n) [] ys h = absurd (omega arith)
  take-append (suc n) (x ∷ xs) ys h = ap (λ l. x ∷ l) (take-append n xs ys (omega arith))

  -- Dropping old elements does not change the newest ones.
  take-drop :
      (n k : ℕ) (xs : List A)
      → n + k ≤ length xs
      → take n (newest_first (drop k xs)) ≡ take n (newest_first xs)
  take-drop n zero xs h = refl
  take-drop n (suc k) [] h = absurd (omega arith)
  take-drop n (suc k) (x ∷ xs) h =
      let later : take n (newest_first (drop k xs)) ≡ take n (newest_first xs) =
        take-drop n k xs (omega arith) in
      let same : take n (newest_first xs ++ x ∷ []) ≡ take n (newest_first xs) =
        take-append n (newest_first xs) (x ∷ []) (omega (arith, length-newest_first xs)) in
      cc

module _ {F : Type 0} (name : ℕ → String) where
  -- A push puts the numbered and stamped event before the n events that were the most recent, where
  -- the bus held at least n events and n + 1 is at most 300; and the bus then holds at most 300.
  pub recent-push :
      (b : Bus F) (ev : Event F) (now : Time) (n : ℕ)
      → n ≤ length b.events
      → n + 1 ≤ max_events
      → (recent (push name b ev now) (n + 1) ≡ stamp name (b.seq + 1) now ev ∷ recent b n)
        × (length (push name b ev now).events ≤ max_events)
  unfolding push recent
  recent-push b ev now n held h =
      let all : List (Event F) = b.events ++ stamp name (b.seq + 1) now ev ∷ [] in
      let cut = cut_to_last-eq max_events all in
      let front : take (n + 1) (newest_first (last_n max_events all))
          ≡ take (n + 1) (newest_first all) =
        take-drop (n + 1) (length all - max_events) all
          (omega (arith, length-append b.events (stamp name (b.seq + 1) now ev ∷ []))) in
      let order = newest_first-append b.events (stamp name (b.seq + 1) now ev) in
      let one : n + 1 ≡ suc n = omega arith in
      rw cut (rw front (rw order (rw one refl)), length-last_n max_events all)
