-- ===== src/EventBus/Live.antt =====
-- eventbus.go: which subscriptions of MemBus are alive after a history of Subscribe and cancel.
use text.Mathlib.Text.{starts_with}
use ruptura.Base.{
  ℕ, ◌+◌, ◌≤◌, ◌≡◌, refl, sym, ap, ◌∙◌, inl, inr, String, Bool, true, false, not, List, [], ◌∷◌,
  ◌++◌, map, map-map, select, append_assoc, append_nil, All, All-append, Option, some, none,
  Option-cases, if◌then◌else◌, Bool-cases, ◌==◌, ==_iff, ==_ne, nat_eq, Time, arith,
}
use ruptura.EventBus.{Sub, MemBus, new_mem_bus, matched, subscribe, remove_sub, cancel, publish}

-- The calls that change a bus. A subscription is cancelled by its number.
pub data Call (H : Type 0) : Type 0 where
  subscribes : String → H → Call H
  cancels : ℕ → Call H

module _ {H : Type 0} where
  pub run : MemBus H → List (Call H) → MemBus H
  run b [] = b
  run b (subscribes prefix h ∷ more) = run (subscribe b prefix h) more
  run b (cancels id ∷ more) = run (cancel b id) more

  -- Whether a number is cancelled in a history.
  abbrev pub is_cancelled : ℕ → List (Call H) → Bool
  is_cancelled id [] = false
  is_cancelled id (subscribes prefix h ∷ more) = is_cancelled id more
  is_cancelled id (cancels other ∷ more) =
      let later = is_cancelled id more in if id == other then true else later

  -- The subscriptions of a history that it does not cancel later, numbered after `seq`.
  abbrev pub live : ℕ → List (Call H) → List (Sub H)
  live seq [] = []
  live seq (subscribes prefix h ∷ more) =
      let rest = live (seq + 1) more in
      if is_cancelled (seq + 1) more
      then rest
      else (record { prefix = prefix; handler = h; id = seq + 1 }) ∷ rest
  live seq (cancels id ∷ more) = live seq more

  -- The numbers rise, so they are different.
  abbrev IsRising : ℕ → List (Sub H) → Type 0
  IsRising least [] = Unit
  IsRising least (s ∷ subs) = (least + 1 ≤ s.id) × IsRising s.id subs

  abbrev IsUpTo : ℕ → List (Sub H) → Type 0
  IsUpTo seq subs = All (λ s. s.id ≤ seq) subs

  -- The subscriptions of `subs` that a history does not cancel.
  abbrev survivors : List (Call H) → List (Sub H) → List (Sub H)
  survivors calls subs = select (λ s. not (is_cancelled s.id calls)) subs

  IsRising-weaken : (a b : ℕ) (subs : List (Sub H)) → a ≤ b → IsRising b subs → IsRising a subs
  IsRising-weaken a b [] h r = tt
  IsRising-weaken a b (s ∷ subs) h r = (omega (arith, r.0), r.1)

  survivors-absent :
      (id least : ℕ) (more : List (Call H)) (subs : List (Sub H))
      → id ≤ least
      → IsRising least subs
      → survivors (cancels id ∷ more) subs ≡ survivors more subs
  survivors-absent id least more [] h r = refl
  survivors-absent id least more (s ∷ subs) h r = rw (
    ==_ne s.id id (λ e. omega (arith, r.0)),
    survivors-absent id s.id more subs (omega (arith, r.0)) r.1,
  )

  survivors-cancel :
      (id least : ℕ) (more : List (Call H)) (subs : List (Sub H))
      → IsRising least subs
      → survivors more (remove_sub id subs) ≡ survivors (cancels id ∷ more) subs
  unfolding remove_sub
  survivors-cancel id least more [] r = refl
  survivors-cancel id least more (s ∷ subs) r = elim (Bool-cases (s.id == id)) [
    | inl same ↦
        let is_it : s.id ≡ id = (==_iff s.id id).0 same in
        rw same (sym (survivors-absent id s.id more subs (omega (arith)) r.1))
    | inr other ↦ rw (other, survivors-cancel id s.id more subs r.1)
  ]

  IsRising-remove :
      (id least : ℕ) (subs : List (Sub H))
      → IsRising least subs
      → IsRising least (remove_sub id subs)
  unfolding remove_sub
  IsRising-remove id least [] r = tt
  IsRising-remove id least (s ∷ subs) r = elim (Bool-cases (s.id == id)) [
    | inl same ↦ rw same (IsRising-weaken least s.id subs (omega (arith, r.0)) r.1)
    | inr other ↦ rw other (r.0, IsRising-remove id s.id subs r.1)
  ]

  IsUpTo-remove :
      (id seq : ℕ) (subs : List (Sub H)) → IsUpTo seq subs → IsUpTo seq (remove_sub id subs)
  unfolding remove_sub
  IsUpTo-remove id seq [] u = tt
  IsUpTo-remove id seq (s ∷ subs) u = elim (Bool-cases (s.id == id)) [
    | inl same ↦ rw same u.1
    | inr other ↦ rw other (u.0, IsUpTo-remove id seq subs u.1)
  ]

  IsUpTo-weaken : (a b : ℕ) (subs : List (Sub H)) → a ≤ b → IsUpTo a subs → IsUpTo b subs
  IsUpTo-weaken a b [] h u = tt
  IsUpTo-weaken a b (s ∷ subs) h u = (omega (arith, u.0), IsUpTo-weaken a b subs h u.1)

  IsRising-snoc :
      (least seq : ℕ) (subs : List (Sub H)) (s : Sub H)
      → least ≤ seq
      → seq + 1 ≤ s.id
      → IsUpTo seq subs
      → IsRising least subs
      → IsRising least (subs ++ s ∷ [])
  IsRising-snoc least seq [] s h k u r = (omega arith, tt)
  IsRising-snoc least seq (t ∷ subs) s h k u r = (r.0, IsRising-snoc t.id seq subs s u.0 k u.1 r.1)

  survivors-snoc :
      (calls : List (Call H)) (subs : List (Sub H)) (s : Sub H)
      → survivors calls (subs ++ s ∷ [])
        ≡ survivors calls subs ++ (if is_cancelled s.id calls then [] else s ∷ [])
  survivors-snoc calls [] s = elim (Bool-cases (is_cancelled s.id calls)) [
    | inl gone ↦ rw gone
    | inr here ↦ rw here
  ]
  survivors-snoc calls (t ∷ subs) s = elim (Bool-cases (is_cancelled t.id calls)) [
    | inl gone ↦ rw gone (survivors-snoc calls subs s)
    | inr here ↦ rw here (ap (λ l. t ∷ l) (survivors-snoc calls subs s))
  ]

  run-live :
      (b : MemBus H) (calls : List (Call H))
      → IsRising 0 b.subs
      → IsUpTo b.seq b.subs
      → (run b calls).subs ≡ survivors calls b.subs ++ live b.seq calls
  unfolding run subscribe cancel remove_sub
  run-live b [] r u = sym (append_nil (survivors [] b.subs) ∙ all_survive b.subs)
    where
      all_survive : (subs : List (Sub H)) → survivors [] subs ≡ subs
      all_survive [] = refl
      all_survive (s ∷ subs) = ap (λ l. s ∷ l) (all_survive subs)
  run-live b (cancels id ∷ more) r u =
      run-live (cancel b id) more (IsRising-remove id 0 b.subs r) (IsUpTo-remove id b.seq b.subs u)
      ∙ ap (λ l. l ++ live b.seq more) (survivors-cancel id 0 more b.subs r)
  run-live b (subscribes prefix h ∷ more) r u =
      let s : Sub H = record { prefix = prefix; handler = h; id = b.seq + 1 } in
      run-live (subscribe b prefix h) more
        (IsRising-snoc 0 b.seq b.subs s (omega arith) (omega arith) u r)
        (All-append (λ (t : Sub H). t.id ≤ b.seq + 1) b.subs (s ∷ [])
          (IsUpTo-weaken b.seq (b.seq + 1) b.subs (omega arith) u) (omega arith, tt))
      ∙ ap (λ l. l ++ live (b.seq + 1) more) (survivors-snoc more b.subs s)
      ∙ append_assoc (survivors more b.subs) (if is_cancelled s.id more then [] else s ∷ [])
          (live (b.seq + 1) more)
      ∙ ap (λ l. survivors more b.subs ++ l) (joined s)
    where
      joined :
          (s : Sub H)
          → (if is_cancelled s.id more then [] else s ∷ []) ++ live (b.seq + 1) more
            ≡ (if is_cancelled s.id more then live (b.seq + 1) more else s ∷ live (b.seq + 1) more)
      joined s = elim (Bool-cases (is_cancelled s.id more)) [
        | inl gone ↦ rw gone
        | inr here ↦ rw here
      ]

  -- After any history of subscriptions and cancellations on a new bus, Publish fails if the payload has
  -- no encoding. Else the event goes, in the order of subscription and once each, to the handlers of
  -- exactly the subscriptions that the history does not cancel and whose prefix the topic has.
  pub publish-live :
      {P : Type 0} (marshal : P → Option String) (calls : List (Call H)) (topic org_id : String)
      (payload : P) (now : Time)
      → publish marshal (run new_mem_bus calls) topic org_id payload now ≡ (elim (marshal payload) [
        | none ↦ none
        | some raw ↦ some (
            map
              (λ s. (
                s.handler,
                record { topic = topic; org_id = org_id; timestamp = now; payload = raw },
              ))
              (select (λ s. starts_with topic s.prefix) (live 0 calls)))
      ])
  unfolding publish matched
  publish-live marshal calls topic org_id payload now =
      rw (run-live new_mem_bus calls tt tt) (elim (Option-cases (marshal payload)) [
        | inl failed ↦ rw (publish, failed)
        | inr (raw, encoded) ↦
            rw (publish, matched, encoded)
              (ap (λ l. some l)
                (map-map
                  (λ h.
                    (h, record { topic = topic; org_id = org_id; timestamp = now; payload = raw }))
                  (λ (s : Sub H). s.handler)
                  (select (λ s. starts_with topic s.prefix) (live 0 calls))))
      ])
