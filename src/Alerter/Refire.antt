-- ===== src/Alerter/Refire.antt =====
-- alerter.go: when a rule fires again, and which alerts an evaluation leaves alone.
use ruptura.Base.{
  ℕ, ◌+◌, ◌-◌, ◌≡◌, ◌≢◌, refl, String, true, false, some, string_eq, lookup, insert,
  lookup-insert_self, lookup-insert_ne, lt→ltb, ◌<◌, Time, minute, Float,
}
use ruptura.Alerter.{Alert, Rule, Alerter}
use ruptura.Alerter.Evaluate.{fire_key, just_fired, raise, rule_alert, judge}
use ruptura.Alerter.Index.{send-rest}

module _ {F : Type 0} ⦃fl : Float F⦄ (ids : ℕ → String) where
  raise-just_fired :
      (a : Alerter F) (key : String) (alert : Alert F) (now later : Time)
      → later - now < minute
      → just_fired (raise a key alert now) key later ≡ true
  unfolding raise just_fired
  raise-just_fired a key alert now later h =
      let rest =
        send-rest
          (record a {
            active = insert alert.id alert a.active;
            rule_host_idx = insert key alert.id a.rule_host_idx;
            fired = insert key now a.fired;
            drawn = a.drawn + 1;
          })
          alert in
      rw (just_fired, raise, rest.1.0, lookup-insert_self key now a.fired)
        (lt→ltb (later - now) minute h)

  -- A rule that fires for a host does not fire again, nor change anything, when its threshold is
  -- still reached less than a minute later.
  pub judge_once_a_minute :
      (a : Alerter F) (host : String) (value value' : F) (now later : Time) (r : Rule F)
      → fl.le r.threshold value ≡ true
      → fl.le r.threshold value' ≡ true
      → just_fired a (fire_key r host) now ≡ false
      → later - now < minute
      → judge ids (judge ids a host value now r) host value' later r ≡ judge ids a host value now r
  unfolding judge
  judge_once_a_minute a host value value' now later r high high' old h =
      rw (high, old, high')
        (rw
          (raise-just_fired a (fire_key r host) (rule_alert (ids a.drawn) r host value now) now
            later h)
          refl)

  -- A rule that fires for a host whose earlier alert is still there, under another identifier, keeps
  -- the earlier alert beside the new one, and the index names the new one only.
  pub judge_refires :
      (a : Alerter F) (host : String) (value : F) (now : Time) (r : Rule F) (id : String)
      (alert : Alert F)
      → fl.le r.threshold value ≡ true
      → just_fired a (fire_key r host) now ≡ false
      → lookup id a.active ≡ some alert
      → ids a.drawn ≢ id
      → (lookup id (judge ids a host value now r).active ≡ some alert)
        × ((lookup (ids a.drawn) (judge ids a host value now r).active
              ≡ some (rule_alert (ids a.drawn) r host value now))
            × (lookup (fire_key r host) (judge ids a host value now r).rule_host_idx
                ≡ some (ids a.drawn)))
  unfolding judge raise rule_alert
  judge_refires a host value now r id alert high old found fresh =
      let key : String = fire_key r host in
      let new : Alert F = rule_alert (ids a.drawn) r host value now in
      let rest =
        send-rest
          (record a {
            active = insert (ids a.drawn) new a.active;
            rule_host_idx = insert key (ids a.drawn) a.rule_host_idx;
            fired = insert key now a.fired;
            drawn = a.drawn + 1;
          })
          new in
      rw (high, old, rest.0, rest.1.1)
        (
          rw (lookup-insert_ne (ids a.drawn) id new a.active fresh) found,
          (
            lookup-insert_self (ids a.drawn) new a.active,
            lookup-insert_self key (ids a.drawn) a.rule_host_idx,
          ),
        )
