-- ===== src/Alerter/Grouping/Visibility.antt =====
-- grouping.go: ExpandGroup makes the alerts of a group visible.
use ruptura.Base.{
  ◌≡◌, refl, subst, ◌⊎◌, inl, inr, String, true, false, List, [], ◌∷◌, All, some, none, Bool-cases,
  Option-cases, ◌==◌, ==_iff, ==_refl, string_eq, lookup, insert, lookup-insert,
}
use ruptura.Alerter.{Alert, Alerter}
use ruptura.Alerter.Grouping.{AlertGroup, GroupingEngine, reveal, reveal_all, expand_group}

module _ {F : Type 0} where
  -- The alert of that identifier, if it is there, is not suppressed.
  abbrev pub IsVisible : Alerter F → String → Type 0
  IsVisible a id = (alert : Alert F) → lookup id a.active ≡ some alert → alert.suppressed ≡ false

  insert-IsVisible :
      (a : Alerter F) (id j : String) (alert : Alert F)
      → alert.suppressed ≡ false
      → ((id == j) ≡ true) ⊎ IsVisible a j
      → (found : Alert F) → lookup j (insert id alert a.active) ≡ some found
      → found.suppressed ≡ false
  insert-IsVisible a id j alert clear known found e = elim (Bool-cases (id == j)) [
    | inl same ↦
        let e' : some alert ≡ some found = rw (lookup-insert id j alert a.active, same) at e in
        let is_it : alert ≡ found = cc in subst (λ al. al.suppressed ≡ false) is_it clear
    | inr other ↦
        let e' : lookup j a.active ≡ some found =
          rw (lookup-insert id j alert a.active, other) at e in
        elim known [
          | inl same ↦ absurd (let clash : true ≡ false = cc in cc)
          | inr seen ↦ seen found e'
        ]
  ]

  reveal-IsVisible :
      (a : Alerter F) (id j : String)
      → ((id == j) ≡ true) ⊎ IsVisible a j
      → IsVisible (reveal a id) j
  unfolding reveal
  reveal-IsVisible a id j known = elim (Option-cases (lookup id a.active)) [
    | inl missing ↦
        rw (reveal, missing)
          (elim known [
            | inl same ↦
                let is_it : id ≡ j = (==_iff id j).0 same in
                λ alert e. absurd (let gone : lookup j a.active ≡ none = rw is_it at missing in cc)
            | inr seen ↦ seen
          ])
    | inr (alert, found) ↦
        rw (reveal, found)
          (insert-IsVisible a id j (record alert { suppressed = false; suppressed_by = "" }) refl
            known)
  ]

  reveal_all-keeps :
      (a : Alerter F) (ids : List String) (j : String)
      → IsVisible a j
      → IsVisible (reveal_all a ids) j
  unfolding reveal_all
  reveal_all-keeps a [] j h = h
  reveal_all-keeps a (id ∷ ids) j h =
      reveal_all-keeps (reveal a id) ids j (reveal-IsVisible a id j (inr h))

  reveal_all-IsVisible :
      (a : Alerter F) (ids : List String) → All (IsVisible (reveal_all a ids)) ids
  unfolding reveal_all
  reveal_all-IsVisible a [] = tt
  reveal_all-IsVisible a (id ∷ ids) = (
    reveal_all-keeps (reveal a id) ids id (reveal-IsVisible a id id (inl (==_refl id))),
    reveal_all-IsVisible (reveal a id) ids,
  )

  -- After a group is expanded, none of the alerts that the group holds as suppressed is suppressed, and
  -- every alert that was visible before still is.
  pub expand_group-IsVisible :
      (g : GroupingEngine) (group_id : String) (grp : AlertGroup) (a : Alerter F)
      → lookup group_id g.groups ≡ some grp
      → All (IsVisible (expand_group g group_id a)) grp.suppressed_ids
        × ((j : String) → IsVisible a j → IsVisible (expand_group g group_id a) j)
  unfolding expand_group
  expand_group-IsVisible g group_id grp a found =
      rw (expand_group, found)
        (
          reveal_all-IsVisible a grp.suppressed_ids,
          λ j h. reveal_all-keeps a grp.suppressed_ids j h,
        )
