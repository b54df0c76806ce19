-- ===== src/Operator/Transition.antt =====
-- conditions.go: a condition keeps its transition time exactly as long as its status.
use ruptura.Base.{
  ℕ, ◌≡◌, ◌≢◌, refl, sym, ap, ◌∙◌, subst, inl, inr, String, true, false, List, [], ◌∷◌, map,
  map-map, All, Has, Has-map, IsUnique, Bool-cases, if◌then◌else◌, ltb, ◌==◌, ==_iff, ==_ne,
  string_eq,
}
use ruptura.Operator.{Condition, Want, wants, is_same, since, conditions}

abbrev pub types_of : List Condition → List String
types_of previous = map (λ c. c.type_) previous

since-absent :
    (previous : List Condition) (w : Want) (stamp : String)
    → ¬ Has w.kind (types_of previous)
    → since previous w stamp ≡ stamp
unfolding since
since-absent [] w stamp none_there = refl
since-absent (p ∷ previous) w stamp none_there =
    rw (==_ne p.type_ w.kind (λ e. none_there (inl e)))
      (since-absent previous w stamp (λ h. none_there (inr h)))

-- What `since` gives where the type of a condition is among different ones.
since-found :
    (previous : List Condition) (w : Want) (stamp : String) (p : Condition)
    → IsUnique (types_of previous)
    → Has p previous
    → p.type_ ≡ w.kind
    → since previous w stamp ≡ (if is_same w p then p.last_transition_time else stamp)
unfolding since
since-found [] w stamp p unique there at = absurd there
since-found (q ∷ previous) w stamp p unique (inl e) at =
    let gone : ¬ Has w.kind (types_of previous) = λ h. unique.0 (
      subst (λ k. Has k (types_of previous)) (sym at ∙ ap (λ (c : Condition). c.type_) (sym e))
        h) in
    since-absent previous w (if is_same w q then q.last_transition_time else stamp) gone
    ∙ ap (λ (c : Condition). if is_same w c then c.last_transition_time else stamp) e
since-found (q ∷ previous) w stamp p unique (inr there) at =
    let away : q.type_ ≢ w.kind = λ e.
      unique.0 ((Has-map (λ (c : Condition). c.type_) q.type_ previous).1 (p, there, at ∙ sym e)) in
    rw (==_ne q.type_ w.kind away) (since-found previous w stamp p unique.1 there at)

types-wants :
    (phase message : String) (ready : ℕ)
    → map (λ (w : Want). w.kind) (wants phase message ready)
      ≡ "Available" ∷ "Progressing" ∷ "Degraded" ∷ []
unfolding wants
types-wants phase message ready = elim (Bool-cases (phase == "Running")) [
  | inl running ↦ rw running
  | inr not_running ↦ elim (Bool-cases (phase == "Pending")) [
    | inl pending ↦ rw (not_running, pending)
    | inr not_pending ↦ elim (Bool-cases (phase == "Degraded")) [
      | inr other ↦ rw (not_running, not_pending, other)
      | inl degraded ↦ elim (Bool-cases (ltb 0 ready)) [
        | inl serving ↦ rw (not_running, not_pending, degraded, serving)
        | inr down ↦ rw (not_running, not_pending, degraded, down)
      ]
    ]
  ]
]

-- What a condition says of the time since when its status holds, given the conditions before.
abbrev pub IsKept : List Condition → String → Condition → Type 0
IsKept previous stamp c =
    (p : Condition)
    → Has p previous
    → p.type_ ≡ c.type_
    → p.last_transition_time ≢ ""
    → ((p.status ≡ c.status) → c.last_transition_time ≡ p.last_transition_time)
      × ((p.status ≢ c.status) → c.last_transition_time ≡ stamp)

abbrev to_condition : List Condition → ℕ → String → Want → Condition
to_condition previous generation stamp w = record {
  type_ = w.kind;
  status = w.status;
  reason = w.reason;
  message = w.message;
  last_transition_time = since previous w stamp;
  observed_generation = generation;
}

since-IsKept :
    (previous : List Condition) (stamp : String) (generation : ℕ) (w : Want)
    → IsUnique (types_of previous)
    → IsKept previous stamp (to_condition previous generation stamp w)
since-IsKept previous stamp generation w unique p there at stamped =
    let found = since-found previous w stamp p unique there at in
    let kind : (p.type_ == w.kind) ≡ true = (==_iff p.type_ w.kind).1 at in
    let known : (p.last_transition_time == "") ≡ false = ==_ne p.last_transition_time "" stamped in
    (
      λ same.
          let status : (p.status == w.status) ≡ true = (==_iff p.status w.status).1 same in
          rw (found, kind, known, status),
      λ changed. rw (found, kind, ==_ne p.status w.status changed),
    )

All-IsKept :
    (previous : List Condition) (stamp : String) (generation : ℕ) (ws : List Want)
    → IsUnique (types_of previous)
    → All (IsKept previous stamp) (map (to_condition previous generation stamp) ws)
All-IsKept previous stamp generation [] unique = tt
All-IsKept previous stamp generation (w ∷ ws) unique = (
  since-IsKept previous stamp generation w unique,
  All-IsKept previous stamp generation ws unique,
)

-- `conditions` returns the conditions Available, Progressing and Degraded. If the ones before have
-- different types, as those that it returned earlier have, then each keeps the transition time of the
-- one before with its type while the status is the same, and has the time of the call when it changed.
pub conditions-IsKept :
    (previous : List Condition) (phase message : String) (ready generation : ℕ) (stamp : String)
    → IsUnique (types_of previous)
    → All (IsKept previous stamp) (conditions previous phase message ready generation stamp)
      × (types_of (conditions previous phase message ready generation stamp)
          ≡ "Available" ∷ "Progressing" ∷ "Degraded" ∷ [])
unfolding conditions
conditions-IsKept previous phase message ready generation stamp unique = (
  All-IsKept previous stamp generation (wants phase message ready) unique,
  map-map (λ (c : Condition). c.type_) (to_condition previous generation stamp)
        (wants phase message ready)
      ∙ types-wants phase message ready,
)
