-- ===== src/CallGraph/Edges.antt =====
-- graph.go: the edges that Build finds, compared with a list of all that the cluster declares.
use ruptura.Base.{
  ◌≡◌, refl, sym, ap, subst, ◌≢◌, inl, inr, String, true, false, ◌||◌, List, [], ◌∷◌, ◌++◌, map,
  All, All-append, Has, Has-snoc, IsUnique, IsUnique-snoc, Bool-cases, ◌==◌, ==_iff, string_eq,
  lookup, arith,
}
use ruptura.CallGraph.{Edge, Found, edge_key, is_seen, add}
use ruptura.CallGraph.Frontier.{is_seen-insert}

-- `add` for each edge of a list.
abbrev pub add_edges : Found → List Edge → Found
add_edges f [] = f
add_edges f (e ∷ es) = add_edges (add f e) es

pub add_edges-append :
    (f : Found) (es more : List Edge) → add_edges f (es ++ more) ≡ add_edges (add_edges f es) more
add_edges-append f [] more = refl
add_edges-append f (e ∷ es) more = add_edges-append (add f e) es more

-- What holds of the edges that were found among `wanted`.
pub record IsFound (wanted : List Edge) (f : Found) : Type 0 where
  pub noted :
      (e : Edge) → is_seen (edge_key e) f.seen ≡ true → Has (edge_key e) (map edge_key f.edges)
  pub known :
      (e : Edge) → Has (edge_key e) (map edge_key f.edges) → is_seen (edge_key e) f.seen ≡ true
  pub unique : IsUnique (map edge_key f.edges)
  pub among : All (λ e. Has e wanted × (e.from ≢ e.to)) f.edges

map-snoc :
    (e : Edge) (es : List Edge) → map edge_key (es ++ e ∷ []) ≡ map edge_key es ++ edge_key e ∷ []
map-snoc e [] = refl
map-snoc e (x ∷ xs) = ap (λ l. edge_key x ∷ l) (map-snoc e xs)

pub IsFound-start : (wanted : List Edge) → IsFound wanted (record { seen = []; edges = [] })
unfolding lookup
IsFound-start wanted = record {
  noted = λ e seen. absurd (let clash : false ≡ true = seen in cc);
  known = λ e there. absurd there;
  unique = tt;
  among = tt;
}

module _ (wanted : List Edge) where
  IsFound-add : (f : Found) (e : Edge) → Has e wanted → IsFound wanted f → IsFound wanted (add f e)
  unfolding add
  IsFound-add f e here h = elim (Bool-cases ((e.from == e.to) || is_seen (edge_key e) f.seen)) [
    | inl skipped ↦ rw skipped h
    | inr taken ↦
        let away : e.from ≢ e.to =
          λ same. let eq : (e.from == e.to) ≡ true = (==_iff e.from e.to).1 same in ground arith in
        let new : is_seen (edge_key e) f.seen ≡ false = ground arith in
        let fresh : ¬ Has (edge_key e) (map edge_key f.edges) =
          λ there. let seen : is_seen (edge_key e) f.seen ≡ true = h.known e there in cc in
        rw taken (record {
          noted = λ x seen. rw (map-snoc e f.edges) (
              (Has-snoc (edge_key x) (edge_key e) (map edge_key f.edges)).1
                (elim ((is_seen-insert (edge_key e) (edge_key x) f.seen).0 seen) [
                  | inl same ↦ inr same
                  | inr before ↦ inl (h.noted x before)
                ]));
          known = λ x there.
              (is_seen-insert (edge_key e) (edge_key x) f.seen).1
                (elim ((Has-snoc (edge_key x) (edge_key e) (map edge_key f.edges)).0
                  (rw (map-snoc e f.edges) at there)) [
                    | inl before ↦ inr (h.known x before)
                    | inr same ↦ inl same
                  ]);
          unique =
              rw (map-snoc e f.edges)
                (IsUnique-snoc (edge_key e) (map edge_key f.edges) h.unique fresh);
          among =
              All-append (λ e. Has e wanted × (e.from ≢ e.to)) f.edges (e ∷ []) h.among
                ((here, away), tt);
        })
  ]

  pub IsFound-add_edges :
      (f : Found) (es : List Edge)
      → ((e : Edge) → Has e es → Has e wanted)
      → IsFound wanted f
      → IsFound wanted (add_edges f es)
  IsFound-add_edges f [] sub h = h
  IsFound-add_edges f (e ∷ es) sub h =
      IsFound-add_edges (add f e) es (λ x there. sub x (inr there))
        (IsFound-add f e (sub e (inl refl)) h)

add-keeps :
    (f : Found) (e : Edge) (k : String) → is_seen k f.seen ≡ true → is_seen k (add f e).seen ≡ true
unfolding add
add-keeps f e k h = elim (Bool-cases ((e.from == e.to) || is_seen (edge_key e) f.seen)) [
  | inl skipped ↦ rw skipped h
  | inr taken ↦ rw taken ((is_seen-insert (edge_key e) k f.seen).1 (inr h))
]

add_edges-keeps :
    (f : Found) (es : List Edge) (k : String)
    → is_seen k f.seen ≡ true
    → is_seen k (add_edges f es).seen ≡ true
add_edges-keeps f [] k h = h
add_edges-keeps f (e ∷ es) k h = add_edges-keeps (add f e) es k (add-keeps f e k h)

add-seen : (f : Found) (e : Edge) → e.from ≢ e.to → is_seen (edge_key e) (add f e).seen ≡ true
unfolding add
add-seen f e away = elim (Bool-cases ((e.from == e.to) || is_seen (edge_key e) f.seen)) [
  | inl skipped ↦ rw skipped (ground (arith, ==_iff e.from e.to))
  | inr taken ↦ rw taken ((is_seen-insert (edge_key e) (edge_key e) f.seen).1 (inl refl))
]

pub add_edges-seen :
    (f : Found) (es : List Edge) (e : Edge)
    → Has e es
    → e.from ≢ e.to
    → is_seen (edge_key e) (add_edges f es).seen ≡ true
add_edges-seen f [] e there away = absurd there
add_edges-seen f (x ∷ xs) e (inl same) away = add_edges-keeps (add f x) xs (edge_key e) (
    subst (λ y. is_seen (edge_key y) (add f x).seen ≡ true) same
      (add-seen f x (subst (λ (y : Edge). y.from ≢ y.to) (sym same) away)))
add_edges-seen f (x ∷ xs) e (inr there) away = add_edges-seen (add f x) xs e there away
