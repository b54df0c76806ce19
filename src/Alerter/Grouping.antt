-- ===== src/Alerter/Grouping.antt =====
-- workdir/internal/alerter/grouping.go: groups of alerts, and the suppression of alerts of services
-- that depend on a failing one (UpstreamDeps of workdir/internal/analyzer/topology.go).
pub mod Visibility
pub mod Reuse
use ruptura.Base.{
  ℕ, ◌+◌, ◌-◌, ◌*◌, String, Bool, true, false, not, ◌&&◌, ◌||◌, List, [], ◌∷◌, ◌++◌, map, select,
  first, Option, some, none, ltb, if◌then◌else◌, ◌==◌, string_eq, Dict, lookup, insert, Time,
  Duration, minute, before,
}
use ruptura.Alerter.{Status, Alert, Alerter}

abbrev pub suppression_ceiling : Duration
suppression_ceiling = 5 * minute

-- models.AlertGroup
pub record AlertGroup : Type 0 where
  pub id : String
  pub representative : String
  pub alert_ids : List String
  pub suppressed_ids : List String
  pub created_at : Time

-- topology.go: edgeStats, the fields that UpstreamDeps reads.
pub record EdgeStats : Type 0 where
  pub from : String
  pub to : String
  pub last_seen : Time

pub record Topology : Type 0 where
  pub edges : Dict String EdgeStats
  pub window : Duration

-- `drawn` counts the identifiers taken from the stream for groups.
pub record GroupingEngine : Type 0 where
  pub topology : Option Topology
  pub groups : Dict String AlertGroup
  pub alert_group : Dict String String
  pub drawn : ℕ

abbrev pub new_grouping_engine : Option Topology → GroupingEngine
new_grouping_engine topology = record {
  topology = topology;
  groups = [];
  alert_group = [];
  drawn = 0;
}

-- e.LastSeen.Before(now.Add(-window))
abbrev is_old_edge : Duration → Time → EdgeStats → Bool
is_old_edge window now e = before (e.last_seen + window) now

unfoldable pub upstream_deps : Topology → String → Time → List String
upstream_deps t host now =
    map (λ e. e.to)
      (select (λ e. (e.from == host) && not (is_old_edge t.window now e))
        (map (λ ke. ke.1) t.edges))

abbrev pub get_representative_host : AlertGroup → String
get_representative_host grp = grp.representative

unfoldable pub get_groups : GroupingEngine → List AlertGroup
get_groups g = map (λ kg. kg.1) g.groups

unfoldable pub get_group : GroupingEngine → String → Option AlertGroup
get_group g id = lookup id g.groups

module _ {F : Type 0} where
  unfoldable pub is_severe : Alert F → Bool
  is_severe alert = alert.severity == "critical" || alert.severity == "emergency"

  abbrev is_active : Alert F → Bool
  is_active alert = elim alert.status [ Status.active ↦ true | _ ↦ false ]

  -- The first severe active alert of a service among `deps`; "" if there is none.
  unfoldable pub parent_among : List (Alert F) → List String → String
  unfolding is_severe
  parent_among actives [] = ""
  parent_among actives (dep ∷ deps) =
      let later : String = parent_among actives deps in
      elim (first (λ al. (al.host == dep) && (is_severe al && is_active al)) actives) [
        | none ↦ later
        | some al ↦ al.id
      ]

  unfoldable pub find_parent_alert : GroupingEngine → String → List (Alert F) → Time → String
  unfolding parent_among upstream_deps
  find_parent_alert g host actives now = elim g.topology [
    | none ↦ ""
    | some t ↦ parent_among actives (upstream_deps t host now)
  ]

  unfoldable pub get_alert_by_id : List (Alert F) → String → Option (Alert F)
  get_alert_by_id alerts id = first (λ al. al.id == id) alerts

  -- Whether an alert joins a group, with its key in the map.
  unfoldable pub joins : Alert F → Time → String × AlertGroup → Bool
  joins alert now (gid, grp) =
      (get_representative_host grp == alert.host) && ltb (now - grp.created_at) suppression_ceiling

  unfoldable pub new_group : GroupingEngine → String → Alert F → Time → GroupingEngine × Alert F
  new_group g gid alert now = (
    record g {
      groups =
          insert gid
            (record {
              id = gid;
              representative = alert.id;
              alert_ids = alert.id ∷ [];
              suppressed_ids = [];
              created_at = now;
            })
            g.groups;
      alert_group = insert alert.id gid g.alert_group;
      drawn = g.drawn + 1;
    },
    record alert { group_id = gid },
  )

  unfoldable pub upsert_group :
      (ℕ → String) → GroupingEngine → Alert F → Time → GroupingEngine × Alert F
  unfolding joins new_group
  upsert_group ids g alert now = elim (first (joins alert now) g.groups) [
    | none ↦ new_group g (ids g.drawn) alert now
    | some (gid, grp) ↦ (
      record g {
        groups = insert gid (record grp { alert_ids = grp.alert_ids ++ alert.id ∷ [] }) g.groups;
        alert_group = insert alert.id grp.id g.alert_group;
      },
      record alert { group_id = grp.id },
    )
  ]

  -- The alert joins the suppressed ones of its parent's group, if that is known.
  unfoldable pub join_parent : GroupingEngine → Alert F → String → GroupingEngine × Alert F
  join_parent g alert parent_id = elim (lookup parent_id g.alert_group) [
    | none ↦ (g, alert)
    | some gid ↦ elim (lookup gid g.groups) [
      | none ↦ (g, alert)
      | some grp ↦ (
        record g {
          groups =
              insert gid (record grp { suppressed_ids = grp.suppressed_ids ++ alert.id ∷ [] })
                g.groups;
        },
        record alert { group_id = gid },
      )
    ]
  ]

  unfoldable pub suppress_under :
      GroupingEngine → Alert F → String → List (Alert F) → Time → GroupingEngine × Alert F
  unfolding join_parent get_alert_by_id
  suppress_under g alert parent_id actives now = elim (get_alert_by_id actives parent_id) [
    | none ↦ (g, alert)
    | some pa ↦
        if ltb (now - pa.created_at) suppression_ceiling
        then join_parent g (record alert { suppressed = true; suppressed_by = parent_id }) parent_id
        else (g, alert)
  ]

  unfoldable pub classify :
      (ℕ → String) → GroupingEngine → Alert F → List (Alert F) → Time → GroupingEngine × Alert F
  unfolding is_severe upsert_group find_parent_alert suppress_under
  classify ids g alert actives now =
      let parent_id : String = find_parent_alert g alert.host actives now in
      if is_severe alert
      then upsert_group ids g alert now
      else if parent_id == ""
      then (g, alert)
      else suppress_under g alert parent_id actives now

  -- One round of the loop of ExpandGroup.
  unfoldable pub reveal : Alerter F → String → Alerter F
  reveal a id = elim (lookup id a.active) [
    | none ↦ a
    | some alert ↦ record a {
      active = insert id (record alert { suppressed = false; suppressed_by = "" }) a.active;
    }
  ]

  unfoldable pub reveal_all : Alerter F → List String → Alerter F
  unfolding reveal
  reveal_all a [] = a
  reveal_all a (id ∷ ids) = reveal_all (reveal a id) ids

  unfoldable pub expand_group : GroupingEngine → String → Alerter F → Alerter F
  unfolding reveal_all
  expand_group g group_id a = elim (lookup group_id g.groups) [
    | none ↦ a
    | some grp ↦ reveal_all a grp.suppressed_ids
  ]
