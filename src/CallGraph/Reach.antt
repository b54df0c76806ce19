-- ===== src/CallGraph/Reach.antt =====
-- graph.go: Callers lists exactly the workloads that reach the target, each once.
use Prim.Native.Nat.{zero, suc}
use ruptura.Base.{
  ℕ, ◌+◌, ◌≡◌, refl, sym, subst, ◌↔◌, ◌≢◌, inl, inr, String, true, List, [], ◌∷◌, length,
  List-cases, Has, Has-sort_by, IsUnique, some, none, string_eq, lookup, sort_by, str_less,
}
use ruptura.CallGraph.{Edge, Graph, list_at, is_seen}
use ruptura.CallGraph.Callers.{Search, incoming_from, expand, loop, start, callers}
use ruptura.CallGraph.Calls.{Calls, Reaches, here, step, Has-incoming}
use ruptura.CallGraph.Frontier.{Inv, is_seen-insert, Inv-offer_all}
use ruptura.CallGraph.Rounds.{callers_return}

module _ (edges : List Edge) (target : String) where
  Inv-start : Inv edges target target [] (start target)
  unfolding lookup
  Inv-start =
      let at_first = λ (c : String). is_seen-insert target c [] in
      record {
        marked = λ c. (
          λ h. elim ((at_first c).0 h) [ inl e ↦ inl (sym e) | inr none_yet ↦ absurd (cc) ],
          λ h. elim h [ inl e ↦ (at_first c).1 (inl (sym e)) | inr none_yet ↦ absurd none_yet ],
        );
        other = λ h. h;
        unique = tt;
        queued = λ c h. elim h [ inl e ↦ (at_first c).1 (inl e) | inr none_yet ↦ absurd none_yet ];
        sound = λ c h. elim ((at_first c).0 h) [
          | inl e ↦ subst (λ x. Reaches edges target x) e here
          | inr none_yet ↦ absurd (cc)
        ];
        closed = λ u v h calls. elim ((at_first v).0 h) [
          | inl e ↦ inl (inl e)
          | inr none_yet ↦ absurd (cc)
        ];
      }

  -- A round of the outer loop keeps the invariant.
  Inv-expand :
      (last next : String) (rest : List String) (s : Search)
      → s.queue ≡ next ∷ rest
      → Inv edges target last [] s
      → Inv edges target next [] (expand (incoming_from [] edges) s next rest)
  unfolding expand
  Inv-expand last next rest s e h =
      Inv-offer_all edges target next (sort_by str_less incoming) (record s { queue = rest })
        (λ c there. calls c ((Has-sort_by str_less c incoming).0 there))
        (h.queued next (rw e (inl refl)))
        (record {
          marked = h.marked;
          other = h.other;
          unique = h.unique;
          queued = λ c there. h.queued c (rw e (inr there));
          sound = h.sound;
          closed = λ u v seen call. elim (h.closed u v seen call) [
            | inl waits ↦ elim (subst (λ q. Has v q) e waits) [
              | inl at ↦ inr (inr (sym at, offered u v (sym at) call))
              | inr later ↦ inl later
            ]
            | inr (inl there) ↦ inr (inl there)
            | inr (inr (at, gone)) ↦ absurd gone
          ];
        })
    where
      incoming : List String
      incoming = list_at next (incoming_from [] edges)

      calls : (c : String) → Has c incoming → Calls edges c next
      calls c there = (Has-incoming edges c next).0 there

      offered : (u v : String) → v ≡ next → Calls edges u v → Has u (sort_by str_less incoming)
      offered u v at call =
          (Has-sort_by str_less u incoming).1
            ((Has-incoming edges u next).1 (subst (λ x. Calls edges u x) at call))

  -- What the invariant says of a search whose queue is empty.
  IsAnswer : List String → Type 0
  IsAnswer found =
      IsUnique found × ((c : String) → Has c found ↔ (c ≢ target × Reaches edges target c))

  complete :
      (last : String) (s : Search)
      → s.queue ≡ []
      → Inv edges target last [] s
      → {c : String} → Reaches edges target c
      → is_seen c s.seen ≡ true
  complete last s e h here = (h.marked target).1 (inl refl)
  complete last s e h (step {u} {v} path call) =
      elim (h.closed u v (complete last s e h path) call) [
        | inl waits ↦ absurd (subst (λ q. Has v q) e waits)
        | inr (inl seen) ↦ seen
        | inr (inr (at, gone)) ↦ absurd gone
      ]

  IsAnswer-end :
      (last : String) (s : Search) → s.queue ≡ [] → Inv edges target last [] s → IsAnswer s.found
  unfolding IsAnswer
  IsAnswer-end last s e h = (
    h.unique,
    λ c. (
      λ there. (
        λ at. h.other (subst (λ x. Has x s.found) at there),
        h.sound c ((h.marked c).1 (inr there)),
      ),
      λ (away, path). elim ((h.marked c).0 (complete last s e h path)) [
        | inl at ↦ absurd (away at)
        | inr there ↦ there
      ],
    ),
  )

  IsAnswer-loop :
      (last : String) (fuel : ℕ) (s : Search) (found : List String)
      → Inv edges target last [] s
      → loop (incoming_from [] edges) fuel s ≡ some found
      → IsAnswer found
  unfolding loop
  IsAnswer-loop last zero s found h ends = elim (List-cases s.queue) [
    | inl e ↦
        let is_it : some s.found ≡ some found = rw (e, loop) at ends in
        let same : s.found ≡ found = cc in subst IsAnswer same (IsAnswer-end last s e h)
    | inr (next, rest, e) ↦ absurd (let e' : none ≡ some found = rw (e, loop) at ends in cc)
  ]
  IsAnswer-loop last (suc fuel) s found h ends = elim (List-cases s.queue) [
    | inl e ↦
        let is_it : some s.found ≡ some found = rw (e, loop) at ends in
        let same : s.found ≡ found = cc in subst IsAnswer same (IsAnswer-end last s e h)
    | inr (next, rest, e) ↦
        IsAnswer-loop next fuel (expand (incoming_from [] edges) s next rest) found
          (Inv-expand last next rest s e h) (rw (e, loop) at ends)
  ]

-- Callers returns on every graph and for every target. It lists no workload twice, and it lists a
-- workload if and only if that is not the target and a chain of calls, as the environment declares
-- them, leads from it to the target.
pub callers-Reaches :
    (g : Graph) (target : String)
    → (found : List String) × (callers g target ≡ some found)
      × IsUnique found
      × ((c : String) → Has c found ↔ (c ≢ target × Reaches g.edges target c))
unfolding callers IsAnswer
callers-Reaches g target =
    let (found, ends) = callers_return g target in
    let (unique, exact) =
      IsAnswer-loop g.edges target target (length g.edges + 1) (start target) found
        (Inv-start g.edges target) ends in
    (found, ends, unique, exact)
