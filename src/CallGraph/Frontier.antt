-- ===== src/CallGraph/Frontier.antt =====
-- graph.go: what holds between two rounds of Callers, and that a round of its inner loop keeps it.
use ruptura.Base.{
  ◌≡◌, refl, subst, ◌↔◌, ◌≢◌, ◌⊎◌, inl, inr, String, Bool, true, List, [], ◌∷◌, Has, Has-snoc,
  IsUnique, IsUnique-snoc, Bool-cases, ◌==◌, ==_iff, string_eq, Dict, insert, lookup-insert, arith,
}
use ruptura.CallGraph.{Edge, is_seen}
use ruptura.CallGraph.Callers.{Search, offer, offer_all}
use ruptura.CallGraph.Calls.{Reaches, Calls, step}

pub is_seen-insert :
    (k c : String) (m : Dict String Bool)
    → (is_seen c (insert k true m) ≡ true) ↔ ((k ≡ c) ⊎ (is_seen c m ≡ true))
is_seen-insert k c m = elim (Bool-cases (k == c)) [
  | inl same ↦
      let is_it : k ≡ c = (==_iff k c).0 same in
      rw (is_seen, lookup-insert k c true m, same) (λ _. inl is_it, λ _. refl)
  | inr other ↦
      rw (is_seen, lookup-insert k c true m, other)
        (
          inr,
          λ h. elim h [
            | inl e ↦ absurd (let same : (k == c) ≡ true = (==_iff k c).1 e in cc)
            | inr seen ↦ seen
          ],
        )
]

module _ (edges : List Edge) (target : String) where
  -- The state of a search while the callers `pending` of `next` are still to be offered.
  pub record Inv (next : String) (pending : List String) (s : Search) : Type 0 where
    pub marked : (c : String) → (is_seen c s.seen ≡ true) ↔ ((c ≡ target) ⊎ Has c s.found)
    pub other : ¬ Has target s.found
    pub unique : IsUnique s.found
    pub queued : (c : String) → Has c s.queue → is_seen c s.seen ≡ true
    pub sound : (c : String) → is_seen c s.seen ≡ true → Reaches edges target c
    pub closed :
        (u v : String)
        → is_seen v s.seen ≡ true
        → Calls edges u v
        → Has v s.queue ⊎ ((is_seen u s.seen ≡ true) ⊎ (v ≡ next) × Has u pending)

  Inv-offer :
      (next c : String) (cs : List String) (s : Search)
      → Calls edges c next
      → is_seen next s.seen ≡ true
      → Inv next (c ∷ cs) s
      → Inv next cs (offer s c)
  unfolding offer
  Inv-offer next c cs s call known h = elim (Bool-cases (is_seen c s.seen)) [
    | inl old ↦ rw old (record {
      marked = marked;
      other = other;
      unique = unique;
      queued = queued;
      sound = sound;
      closed = λ u v seen calls. elim (closed u v seen calls) [
        | inl waits ↦ inl waits
        | inr (inl there) ↦ inr (inl there)
        | inr (inr (at, inl e)) ↦ inr (inl (subst (λ x. is_seen x s.seen ≡ true) e old))
        | inr (inr (at, inr later)) ↦ inr (inr (at, later))
      ];
    })
    | inr new ↦
        let now = λ (x : String). is_seen-insert c x s.seen in
        let found = λ (x : String). Has-snoc x c s.found in
        let queue = λ (x : String). Has-snoc x c s.queue in
        let not_target : c ≢ target =
          λ e. let seen : is_seen c s.seen ≡ true = (marked c).1 (inl e) in cc in
        let not_found : ¬ Has c s.found =
          λ e. let seen : is_seen c s.seen ≡ true = (marked c).1 (inr e) in cc in
        rw new (record {
          marked = λ x. ground (arith, now x, found x, marked x);
          other = λ there. ground (arith, found target, other);
          unique = IsUnique-snoc c s.found unique not_found;
          queued = λ x there. ground (arith, now x, queue x, queued x);
          sound = λ x seen. elim ((now x).0 seen) [
            | inl e ↦ subst (λ y. Reaches edges target y) e (step (sound next known) call)
            | inr before ↦ sound x before
          ];
          closed = λ u v seen calls. elim ((now v).0 seen) [
            | inl e ↦ inl ((queue v).1 (inr e))
            | inr before ↦ elim (closed u v before calls) [
              | inl waits ↦ inl ((queue v).1 (inl waits))
              | inr (inl there) ↦ inr (inl ((now u).1 (inr there)))
              | inr (inr (at, inl e)) ↦ inr (inl ((now u).1 (inl e)))
              | inr (inr (at, inr later)) ↦ inr (inr (at, later))
            ]
          ];
        })
  ]
    where
      open h use {marked, other, unique, queued, sound, closed}

  offer-keeps :
      (s : Search) (c x : String) → is_seen x s.seen ≡ true → is_seen x (offer s c).seen ≡ true
  unfolding offer
  offer-keeps s c x h = elim (Bool-cases (is_seen c s.seen)) [
    | inl old ↦ rw old h
    | inr new ↦ rw new ((is_seen-insert c x s.seen).1 (inr h))
  ]

  pub Inv-offer_all :
      (next : String) (cs : List String) (s : Search)
      → ((c : String) → Has c cs → Calls edges c next)
      → is_seen next s.seen ≡ true
      → Inv next cs s
      → Inv next [] (offer_all s cs)
  unfolding offer_all
  Inv-offer_all next [] s calls known h = h
  Inv-offer_all next (c ∷ cs) s calls known h =
      Inv-offer_all next cs (offer s c) (λ x there. calls x (inr there))
        (offer-keeps s c next known) (Inv-offer next c cs s (calls c (inl refl)) known h)
