-- ===== src/CallGraph/Rounds.antt =====
-- graph.go: the rounds of Callers are at most one more than the edges.
use Prim.Native.Nat.{zero, suc}
use ruptura.Base.{
  ℕ, ◌+◌, ◌≤◌, ◌≡◌, refl, ap, sym, subst, inl, inr, String, Bool, true, false, List, [], ◌∷◌, map,
  List-cases, length, length-append, length-map, Has, Has-map, Has-sort_by, some, if◌then◌else◌,
  Bool-cases, string_eq, Dict, insert, sort_by, str_less, arith,
}
use ruptura.CallGraph.{Edge, Graph, list_at, is_seen}
use ruptura.CallGraph.Callers.{
  Search, incoming_from, offer, offer_all, expand, loop, start, callers,
}
use ruptura.CallGraph.Calls.{Has-incoming}
use ruptura.CallGraph.Frontier.{is_seen-insert}

-- How many of some names are not seen.
abbrev pub unseen : Dict String Bool → List String → ℕ
unseen m [] = 0
unseen m (x ∷ xs) = let rest = unseen m xs in if is_seen x m then rest else suc rest

unseen-length : (m : Dict String Bool) (xs : List String) → unseen m xs ≤ length xs
unseen-length m [] = omega arith
unseen-length m (x ∷ xs) = ground (arith, unseen-length m xs)

unseen-insert_le :
    (c : String) (m : Dict String Bool) (xs : List String)
    → unseen (insert c true m) xs ≤ unseen m xs
unseen-insert_le c m [] = omega arith
unseen-insert_le c m (x ∷ xs) = ground (arith, is_seen-insert c x m, unseen-insert_le c m xs)

unseen-insert :
    (c : String) (m : Dict String Bool) (xs : List String)
    → Has c xs
    → is_seen c m ≡ false
    → suc (unseen (insert c true m) xs) ≤ unseen m xs
unseen-insert c m [] there new = absurd there
unseen-insert c m (x ∷ xs) (inl e) new =
    let old : is_seen x m ≡ false = subst (λ y. is_seen y m ≡ false) (sym e) new in
    ground (arith, is_seen-insert c x m, unseen-insert_le c m xs)
unseen-insert c m (x ∷ xs) (inr there) new =
    ground (arith, is_seen-insert c x m, unseen-insert c m xs there new)

module _ (names : List String) where
  -- A round pops one name and queues only names that it marks, so this falls by one.
  abbrev pub work : Search → ℕ
  work s = unseen s.seen names + length s.queue

  offer-work : (s : Search) (c : String) → Has c names → work (offer s c) ≤ work s
  unfolding offer
  offer-work s c there = elim (Bool-cases (is_seen c s.seen)) [
    | inl old ↦ rw old (omega arith)
    | inr new ↦
        rw new
          (omega (arith, unseen-insert c s.seen names there new, length-append s.queue (c ∷ [])))
  ]

  offer_all-work :
      (s : Search) (cs : List String)
      → ((c : String) → Has c cs → Has c names)
      → work (offer_all s cs) ≤ work s
  unfolding offer_all
  offer_all-work s [] there = omega arith
  offer_all-work s (c ∷ cs) there = omega (
    arith,
    offer-work s c (there c (inl refl)),
    offer_all-work (offer s c) cs (λ x h. there x (inr h)),
  )

  loop_ends :
      (incoming : Dict String (List String))
      → ((v u : String) → Has u (list_at v incoming) → Has u names)
      → (fuel : ℕ) (s : Search) → work s ≤ fuel
      → (found : List String) × (loop incoming fuel s ≡ some found)
  unfolding loop expand
  loop_ends incoming known zero s h = elim (List-cases s.queue) [
    | inl e ↦ (s.found, rw (loop, e))
    | inr (next, rest, e) ↦ absurd (omega (arith, ap length e))
  ]
  loop_ends incoming known (suc fuel) s h = elim (List-cases s.queue) [
    | inl e ↦ (s.found, rw (loop, e))
    | inr (next, rest, e) ↦
        let (found, ends) = loop_ends incoming known fuel (expand incoming s next rest) (
          omega (
            arith,
            ap length e,
            offer_all-work (record s { queue = rest }) (sort_by str_less (list_at next incoming))
                (λ c there.
                  known next c ((Has-sort_by str_less c (list_at next incoming)).0 there)),
          )) in
        (found, rw (loop, e) ends)
  ]

callers_from : List Edge → List String
callers_from edges = map (λ e. e.from) edges

-- Callers ends on every graph: one round for each edge and one for the target are enough.
pub callers_return :
    (g : Graph) (target : String) → (found : List String) × (callers g target ≡ some found)
unfolding callers callers_from
callers_return g target =
    loop_ends (callers_from g.edges) (incoming_from [] g.edges)
      (λ v u there.
        let (e, here, env, from, to) = (Has-incoming g.edges u v).0 there in
        (Has-map (λ (x : Edge). x.from) u g.edges).1 (e, here, from))
      (length g.edges + 1) (start target)
      (omega (
        arith,
        unseen-length (insert target true []) (callers_from g.edges),
        length-map (λ (x : Edge). x.from) g.edges,
      ))
