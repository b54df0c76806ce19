-- ===== src/Alerter/Registry.antt =====
-- alerter.go: the queries and edits of single alerts. An error is the text after "alert %s ".
use ruptura.Base.{
  String, Bool, true, false, List, map, Option, some, none, select, string_eq, lookup, insert,
  delete, Time,
}
use ruptura.Alerter.{Status, Alert, Alerter}

module _ {F : Type 0} where
  unfoldable pub is_active : Alert F → Bool
  is_active alert = elim alert.status [ Status.active ↦ true | _ ↦ false ]

  unfoldable pub get_all : Alerter F → List (Alert F)
  get_all a = map (λ kv. kv.1) a.active

  unfoldable pub get_active : Alerter F → List (Alert F)
  get_active a = select is_active (get_all a)

  unfoldable pub get_by_id : Alerter F → String → Option (Alert F)
  get_by_id a id = lookup id a.active

  -- Acknowledge and Silence write a status; false stands for the error "not found".
  unfoldable pub set_status : Status → Alerter F → String → Time → Alerter F × Bool
  set_status status a id now = elim (lookup id a.active) [
    | none ↦ (a, false)
    | some alert ↦ (
      record a { active = insert id (record alert { status = status; updated_at = now }) a.active },
      true,
    )
  ]

  unfoldable pub acknowledge : Alerter F → String → Time → Alerter F × Bool
  acknowledge a id now = set_status Status.acknowledged a id now

  unfoldable pub silence : Alerter F → String → Time → Alerter F × Bool
  silence a id now = set_status Status.silenced a id now

  unfoldable pub delete_alert : Alerter F → String → Alerter F × Bool
  delete_alert a id = elim (lookup id a.active) [
    | none ↦ (a, false)
    | some alert ↦ (record a { active = delete id a.active }, true)
  ]
