-- ===== src/CallGraph/Callers.antt =====
-- graph.go: Callers, a breadth-first search against the edges. Each caller that joins the queue is a
-- source of an edge that was not seen, so one round for each edge and one for the target are enough.
use Prim.Native.Nat.{ℕ, zero, suc}
use ruptura.Base.{
  ◌+◌, String, Bool, true, List, [], ◌∷◌, ◌++◌, length, Option, some, none, if◌then◌else◌, ◌==◌,
  string_eq, Dict, insert, sort_by, str_less,
}
use ruptura.CallGraph.{Edge, Graph, source_env, list_at, append_at, is_seen}

unfoldable pub incoming_from : Dict String (List String) → List Edge → Dict String (List String)
incoming_from m [] = m
incoming_from m (e ∷ es) =
    let skipped = incoming_from m es in
    let added = incoming_from (append_at e.to e.from m) es in
    if e.source == source_env then added else skipped

pub record Search : Type 0 where
  pub seen : Dict String Bool
  pub queue : List String
  pub found : List String

-- One round of the inner loop.
unfoldable pub offer : Search → String → Search
offer s c = if is_seen c s.seen then s else record {
  seen = insert c true s.seen;
  queue = s.queue ++ c ∷ [];
  found = s.found ++ c ∷ [];
}

unfoldable pub offer_all : Search → List String → Search
unfolding offer
offer_all s [] = s
offer_all s (c ∷ cs) = offer_all (offer s c) cs

module _ (incoming : Dict String (List String)) where
  -- One round of the outer loop, after `next` left the queue.
  unfoldable pub expand : Search → String → List String → Search
  unfolding offer_all
  expand s next rest =
      offer_all (record s { queue = rest }) (sort_by str_less (list_at next incoming))

  -- `none` if the queue is not empty when the fuel is spent.
  unfoldable pub loop : ℕ → Search → Option (List String)
  unfolding expand
  loop zero s = elim s.queue [ [] ↦ some s.found | _ ∷ _ ↦ none ]
  loop (suc fuel) s = elim s.queue [
    | [] ↦ some s.found
    | next ∷ rest ↦ loop fuel (expand s next rest)
  ]

abbrev pub start : String → Search
start target = record { seen = insert target true []; queue = target ∷ []; found = [] }

unfoldable pub callers : Graph → String → Option (List String)
unfolding incoming_from loop
callers g target = loop (incoming_from [] g.edges) (length g.edges + 1) (start target)
