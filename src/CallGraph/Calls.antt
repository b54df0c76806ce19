-- ===== src/CallGraph/Calls.antt =====
-- graph.go: the calls that a graph declares, and the index of them that Callers builds.
use ruptura.Base.{
  ◌≡◌, refl, sym, subst, ◌↔◌, ◌⊎◌, inl, inr, String, true, List, [], ◌∷◌, ◌++◌, Has, Has-snoc,
  if◌then◌else◌, Bool-cases, ◌==◌, ==_iff, string_eq, Dict, lookup, lookup-insert, arith,
}
use ruptura.CallGraph.{Edge, source_env, list_at, append_at}
use ruptura.CallGraph.Callers.{incoming_from}

-- An edge of the environment leads from `u` to `v`.
abbrev pub Calls : List Edge → String → String → Type 0
Calls edges u v = (e : Edge) × Has e edges × (e.source ≡ source_env) × (e.from ≡ u) × (e.to ≡ v)

-- The chains of calls that end at a target.
pub data Reaches (edges : List Edge) (target : String) : String → Type 0 where
  here : Reaches edges target target
  step : {u v : String} → Reaches edges target v → Calls edges u v → Reaches edges target u

pub list_at-append_at :
    (k j v : String) (m : Dict String (List String))
    → list_at j (append_at k v m) ≡ (if k == j then list_at k m ++ v ∷ [] else list_at j m)
list_at-append_at k j v m = elim (Bool-cases (k == j)) [
  | inl same ↦ rw (list_at, lookup-insert k j (list_at k m ++ v ∷ []) m, same)
  | inr other ↦ rw (list_at, lookup-insert k j (list_at k m ++ v ∷ []) m, other)
]

Has-append_at :
    (k j u v : String) (m : Dict String (List String))
    → Has u (list_at j (append_at k v m)) ↔ (Has u (list_at j m) ⊎ (k ≡ j) × (v ≡ u))
Has-append_at k j u v m = elim (Bool-cases (k == j)) [
  | inl same ↦
      let is_it : k ≡ j = (==_iff k j).0 same in
      let there = Has-snoc u v (list_at k m) in
      rw (list_at-append_at k j v m, same)
        (
          λ h. elim (there.0 h) [
            | inl before ↦ inl (subst (λ i. Has u (list_at i m)) is_it before)
            | inr e ↦ inr (is_it, e)
          ],
          λ h. there.1 (elim h [
            | inl before ↦ inl (subst (λ i. Has u (list_at i m)) (sym is_it) before)
            | inr e ↦ inr e.1
          ]),
        )
  | inr other ↦
      rw (list_at-append_at k j v m, other)
        (
          inl,
          λ h. elim h [
            | inl before ↦ before
            | inr e ↦ absurd (let same : (k == j) ≡ true = (==_iff k j).1 e.0 in cc)
          ],
        )
]

Calls-cons :
    (e : Edge) (es : List Edge) (u v : String)
    → Calls (e ∷ es) u v ↔ ((e.source ≡ source_env) × (e.from ≡ u) × (e.to ≡ v) ⊎ Calls es u v)
Calls-cons e es u v = (
  λ h.
      let (f, there, env, from, to) = h in
      elim there [
        | inl same ↦ inl (
          subst (λ (g : Edge). g.source ≡ source_env) (sym same) env,
          subst (λ (g : Edge). g.from ≡ u) (sym same) from,
          subst (λ (g : Edge). g.to ≡ v) (sym same) to,
        )
        | inr later ↦ inr (f, later, env, from, to)
      ],
  λ h. elim h [
    | inl now ↦ (e, inl refl, now.0, now.1, now.2)
    | inr later ↦ (later.0, inr later.1, later.2, later.3, later.4)
  ],
)

Has-incoming_from :
    (m : Dict String (List String)) (es : List Edge) (u v : String)
    → Has u (list_at v (incoming_from m es)) ↔ (Has u (list_at v m) ⊎ Calls es u v)
unfolding incoming_from
Has-incoming_from m [] u v = (inl, λ h. elim h [ inl there ↦ there | inr c ↦ absurd c.1 ])
Has-incoming_from m (e ∷ es) u v = elim (Bool-cases (e.source == source_env)) [
  | inl env ↦
      let is_env : e.source ≡ source_env = (==_iff e.source source_env).0 env in
      rw env (
        ground (
          arith,
          Has-incoming_from (append_at e.to e.from m) es u v,
          Has-append_at e.to v u e.from m,
          Calls-cons e es u v,
        ))
  | inr other ↦
      rw other (
        ground (arith, ==_iff e.source source_env, Has-incoming_from m es u v, Calls-cons e es u v))
]

-- The index lists exactly the callers.
pub Has-incoming :
    (es : List Edge) (u v : String) → Has u (list_at v (incoming_from [] es)) ↔ Calls es u v
unfolding lookup
Has-incoming es u v =
    let both = Has-incoming_from [] es u v in
    (
      λ h. elim (both.0 h) [ inl nothing ↦ absurd nothing | inr call ↦ call ],
      λ call. both.1 (inr call),
    )
