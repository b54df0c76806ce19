-- ===== src/Alerter/Grouping/Reuse.antt =====
-- grouping.go: which group an alert joins.
use ruptura.Base.{
  ℕ, ◌≡◌, ◌≢◌, refl, String, true, List, [], ◌∷◌, All, first, none, ==_ne, string_eq, Time, Dict,
}
use ruptura.Alerter.{Alert}
use ruptura.Alerter.Grouping.{
  AlertGroup, GroupingEngine, is_severe, joins, new_group, upsert_group, classify,
}

module _ {F : Type 0} where
  no_group :
      (alert : Alert F) (now : Time) (groups : Dict String AlertGroup)
      → All (λ kg. kg.1.representative ≢ alert.host) groups
      → first (joins alert now) groups ≡ none
  unfolding joins
  no_group alert now [] h = refl
  no_group alert now ((gid, grp) ∷ groups) h =
      rw (==_ne grp.representative alert.host h.0) (no_group alert now groups h.1)

  -- A critical or emergency alert opens a new group of its own, whatever groups its host has, unless
  -- the identifier of some group's first alert is the name of the host.
  pub classify_opens :
      (ids : ℕ → String) (g : GroupingEngine) (alert : Alert F) (actives : List (Alert F))
      (now : Time)
      → is_severe alert ≡ true
      → All (λ kg. kg.1.representative ≢ alert.host) g.groups
      → classify ids g alert actives now ≡ new_group g (ids g.drawn) alert now
  unfolding classify upsert_group
  classify_opens ids g alert actives now severe h =
      rw severe (rw (upsert_group, no_group alert now g.groups h) refl)
