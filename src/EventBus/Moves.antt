-- ===== src/EventBus/Moves.antt =====
-- eventbus.go: what each step of a goroutine of a NatsBus keeps true.
use ruptura.Base.{
  ℕ, zero, suc, ◌+◌, ◌≤◌, ◌≡◌, refl, sym, ap, ◌∙◌, subst, inl, inr, Bool, true, false, List, [],
  ◌∷◌, ◌++◌, length, length-append, append_assoc, List-cases, Option, some, none, Option-cases, ltb,
  Bool-cases, if◌then◌else◌, arith,
}
use ruptura.EventBus.{Event}
use ruptura.EventBus.Thins.{Thins, nothing, Thins-refl, Thins-append, Thins-trans, drops}
use ruptura.EventBus.Nats.{
  NatsBus, queue_capacity, pick, put, select_queue, drop_oldest, send_queue, publish_batch, receive,
  tick, stop, close,
}
use ruptura.EventBus.Flow.{tally, on_the_way, tally_all}

pub tally-append :
    (p : Event → Bool) (xs ys : List Event) → tally p (xs ++ ys) ≡ tally p xs + tally p ys
tally-append p [] ys = omega (arith)
tally-append p (x ∷ xs) ys = ground (arith, tally-append p xs ys)

abbrev first_or : Event → Option (Event × List Event) → Event
first_or x none = x
first_or x (some q) = q.0

abbrev others_or : List Event → Option (Event × List Event) → List Event
others_or xs none = xs
others_or xs (some q) = q.1

tally-pick :
    (p : Event → Bool) (n : ℕ) (xs : List Event) (e : Event) (others : List Event)
    → pick n xs ≡ some (e, others)
    → tally p xs ≡ tally p (e ∷ []) + tally p others
tally-pick p n [] e others h = absurd (cc)
tally-pick p zero (x ∷ xs) e others h =
    let one : x ≡ e = ap (first_or x) h in
    let more : xs ≡ others = ap (others_or xs) h in
    subst (λ l. tally p l ≡ tally p (e ∷ []) + tally p others) (λ i. sym one i ∷ sym more i)
      (tally-append p (e ∷ []) others)
tally-pick p (suc n) (x ∷ xs) e others h = elim (Option-cases (pick n xs)) [
  | inl nowhere ↦ absurd (let bad : none ≡ some (e, others) = rw (pick, nowhere) at h in cc)
  | inr (q, there) ↦
      let both : some (q.0, x ∷ q.1) ≡ some (e, others) = rw (pick, there) at h in
      let one : q.0 ≡ e = ap (first_or x) both in
      let more : x ∷ q.1 ≡ others = ap (others_or xs) both in
      let rest = tally-pick p n xs q.0 q.1 there in
      let counted = tally-append p (x ∷ []) xs in
      let kept = tally-append p (x ∷ []) q.1 in
      subst (λ l. tally p (x ∷ xs) ≡ tally p (e ∷ []) + tally p l) more
        (subst (λ y. tally p (x ∷ xs) ≡ tally p (y ∷ []) + tally p (x ∷ q.1)) one
          (omega (arith, rest, counted, kept)))
]

-- All of a list may be left out.
Thins-none : (xs : List Event) → Thins [] xs
Thins-none [] = nothing
Thins-none (x ∷ xs) = drops (Thins-none xs)

-- What a step that starts the calls of Publish with the events `new` keeps true.
pub record IsStep {H : Type 0} (b c : NatsBus H) (new : List Event) : Type 0 where
  pub is_bounded : length b.queue ≤ queue_capacity → length c.queue ≤ queue_capacity
  pub is_ordered : Thins (on_the_way b) b.entered → Thins (on_the_way c) c.entered
  pub is_counted : (p : Event → Bool) → tally_all p c ≡ tally_all p b + tally p new

module _ {H : Type 0} where
  pub IsStep-refl : (b : NatsBus H) → IsStep b b []
  IsStep-refl b = record { is_bounded = λ h. h; is_ordered = λ h. h; is_counted = λ p. omega arith }

  pub IsStep-subst :
      {b c d : NatsBus H} {new : List Event} → c ≡ d → IsStep b d new → IsStep b c new
  IsStep-subst {b} {new = new} same step = subst (λ x. IsStep b x new) (sym same) step

  pub IsStep-if : (b c : NatsBus H) (t : Bool) → IsStep b c [] → IsStep b (if t then c else b) []
  IsStep-if b c true step = step
  IsStep-if b c false step = IsStep-refl b

  Thins-put :
      (b : NatsBus H) (e : Event)
      → Thins (on_the_way b) b.entered
      → Thins (on_the_way (put b e)) (put b e).entered
  Thins-put b e h =
      subst (λ l. Thins l (b.entered ++ e ∷ []))
        (append_assoc b.sent (b.pending ++ b.queue) (e ∷ [])
          ∙ ap (λ l. b.sent ++ l) (append_assoc b.pending b.queue (e ∷ [])))
        (Thins-append h (Thins-refl (e ∷ [])))

  -- A goroutine selects.
  pub IsStep-selects :
      (b : NatsBus H) (n : ℕ) (e : Event) (others : List Event)
      → pick n b.selecting ≡ some (e, others)
      → IsStep b (select_queue (record b { selecting = others }) e) []
  unfolding select_queue
  IsStep-selects b n e others there = elim (Bool-cases b.closed) [
    | inl shut ↦ rw shut (record {
      is_bounded = λ h. h;
      is_ordered = λ h. h;
      is_counted = λ p.
          omega
            (arith, tally-pick p n b.selecting e others there, tally-append p b.panicked (e ∷ []));
    })
    | inr live ↦ elim (Bool-cases (ltb (length b.queue) queue_capacity)) [
      | inl room ↦
          rw (live, room)
            (record {
              is_bounded = λ h. ground (arith, length-append b.queue (e ∷ []));
              is_ordered = Thins-put b e;
              is_counted = λ p. omega (
                arith,
                tally-pick p n b.selecting e others there,
                tally-append p b.entered (e ∷ []),
              );
            })
      | inr full ↦
          rw (live, full)
            (record {
              is_bounded = λ h. h;
              is_ordered = λ h. h;
              is_counted = λ p. omega (
                arith,
                tally-pick p n b.selecting e others there,
                tally-append p b.dropping (e ∷ []),
              );
            })
    ]
  ]

  -- What was on the way still is, less the oldest in the queue.
  Thins-rest :
      (b : NatsBus H) (oldest : Event) (rest : List Event)
      → b.queue ≡ oldest ∷ rest
      → Thins (on_the_way b) b.entered
      → Thins (b.sent ++ (b.pending ++ rest)) b.entered
  Thins-rest b oldest rest e h = Thins-trans h (
      Thins-append (Thins-refl b.sent) (
        Thins-append (Thins-refl b.pending)
          (subst (λ l. Thins rest l) (sym e) (drops (Thins-refl rest)))))

  -- A goroutine takes the oldest event out.
  pub IsStep-takes :
      (b : NatsBus H) (n : ℕ) (e : Event) (others : List Event)
      → pick n b.dropping ≡ some (e, others)
      → IsStep b (drop_oldest b (record b { dropping = others }) e) []
  unfolding drop_oldest
  IsStep-takes b n e others there = elim (List-cases b.queue) [
    | inl empty ↦ elim (Bool-cases b.closed) [
      | inl shut ↦
          let same : drop_oldest b (record b { dropping = others }) e
              ≡ record b { dropping = others; holding = b.holding ++ e ∷ [] } =
            simp (drop_oldest, empty, shut) refl in
          IsStep-subst same (record {
            is_bounded = λ h. h;
            is_ordered = λ h. h;
            is_counted = λ p. omega (
              arith,
              tally-pick p n b.dropping e others there,
              tally-append p b.holding (e ∷ []),
            );
          })
      | inr live ↦
          let same : drop_oldest b (record b { dropping = others }) e ≡ b =
            simp (drop_oldest, empty, live) refl in
          IsStep-subst same (IsStep-refl b)
    ]
    | inr (oldest, rest, is_queue) ↦
        let same : drop_oldest b (record b { dropping = others }) e
            ≡ record b { queue = rest; dropping = others; holding = b.holding ++ e ∷ [] } =
          simp (drop_oldest, is_queue) refl in
        IsStep-subst same (record {
          is_bounded = λ h. omega (arith, h, ap length is_queue);
          is_ordered = Thins-rest b oldest rest is_queue;
          is_counted = λ p.
              omega (
                arith,
                tally-pick p n b.dropping e others there,
                tally-append p b.holding (e ∷ []),
              );
        })
  ]

  -- A goroutine puts its event in.
  pub IsStep-puts :
      (b : NatsBus H) (n : ℕ) (e : Event) (others : List Event)
      → pick n b.holding ≡ some (e, others)
      → IsStep b (send_queue b (record b { holding = others }) e) []
  unfolding send_queue
  IsStep-puts b n e others there = elim (Bool-cases b.closed) [
    | inl shut ↦ rw shut (record {
      is_bounded = λ h. h;
      is_ordered = λ h. h;
      is_counted = λ p.
          omega
            (arith, tally-pick p n b.holding e others there, tally-append p b.panicked (e ∷ []));
    })
    | inr live ↦ elim (Bool-cases (ltb (length b.queue) queue_capacity)) [
      | inl room ↦
          rw (live, room)
            (record {
              is_bounded = λ h. ground (arith, length-append b.queue (e ∷ []));
              is_ordered = Thins-put b e;
              is_counted = λ p. omega (
                arith,
                tally-pick p n b.holding e others there,
                tally-append p b.entered (e ∷ []),
              );
            })
      | inr full ↦
          let same : send_queue b (record b { holding = others }) e ≡ b = rw (live, full) refl in
          IsStep-subst same (IsStep-refl b)
    ]
  ]

  on_the_way-batch : (b : NatsBus H) → on_the_way (publish_batch b) ≡ on_the_way b
  on_the_way-batch b = append_assoc b.sent b.pending b.queue

  IsStep-batch : (b : NatsBus H) → IsStep b (publish_batch b) []
  IsStep-batch b = record {
    is_bounded = λ h. h;
    is_ordered = λ h. subst (λ l. Thins l b.entered) (sym (on_the_way-batch b)) h;
    is_counted = λ p. omega arith;
  }

  pub IsStep-receive : (b : NatsBus H) → IsStep b (receive b) []
  unfolding receive
  IsStep-receive b = elim (List-cases b.queue) [
    | inl empty ↦ elim (Bool-cases b.closed) [
      | inl shut ↦
          let batch = IsStep-batch b in
          let same : receive b ≡ record (publish_batch b) { running = false } =
            simp (receive, empty, shut) refl in
          IsStep-subst same (record {
            is_bounded = batch.is_bounded;
            is_ordered = batch.is_ordered;
            is_counted = batch.is_counted;
          })
      | inr live ↦
          let same : receive b ≡ b = simp (receive, empty, live) refl in
          IsStep-subst same (IsStep-refl b)
    ]
    | inr (e, rest, is_queue) ↦
        let same : receive b ≡ record b { queue = rest; pending = b.pending ++ e ∷ [] } =
          simp (receive, is_queue) refl in
        IsStep-subst same (record {
          is_bounded = λ h. omega (arith, h, ap length is_queue);
          is_ordered = λ h.
              subst (λ l. Thins l b.entered)
                (ap (λ l. b.sent ++ (b.pending ++ l)) is_queue
                  ∙ ap (λ l. b.sent ++ l) (sym (append_assoc b.pending (e ∷ []) rest)))
                h;
          is_counted = λ p. omega arith;
        })
  ]

  pub IsStep-tick : (b : NatsBus H) → IsStep b (tick b) []
  unfolding tick
  IsStep-tick b = elim (List-cases b.pending) [
    | inl empty ↦
        let same : tick b ≡ b = simp (tick, empty) refl in IsStep-subst same (IsStep-refl b)
    | inr (e, rest, eq) ↦
        let same : tick b ≡ publish_batch b = simp (tick, eq) refl in
        IsStep-subst same (IsStep-batch b)
  ]

  pub IsStep-stop : (b : NatsBus H) → IsStep b (stop b) []
  unfolding stop
  IsStep-stop b = record {
    is_bounded = λ h. h;
    is_ordered = λ h. Thins-trans h (
        Thins-append (Thins-refl b.sent)
          (Thins-append (Thins-none b.pending) (Thins-refl b.queue)));
    is_counted = λ p. omega arith;
  }

  pub IsStep-close : (b : NatsBus H) → IsStep b (close b) []
  unfolding close
  IsStep-close b = record {
    is_bounded = λ h. h;
    is_ordered = λ h. h;
    is_counted = λ p. omega arith;
  }
