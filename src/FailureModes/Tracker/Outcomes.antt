-- ===== src/FailureModes/Tracker/Outcomes.antt =====
-- The track record: the warnings that precede failures, and the outcomes that the tracker keeps.
use ruptura.Base.{
  ℕ, zero, suc, length-map, length-select-le, All-sort_by, ◌/◌, ◌≤◌, ◌<◌, ◌≡◌, refl, sym, ◌∙◌, ap,
  inl, inr, String, List, [], ◌∷◌, ◌++◌, length, map, some, none, arith, All, Bool-cases, Time,
  lookup, insert, delete, lookup-insert_self, lookup-delete_self, string_eq, last_n, last_n-append,
  cut_to_last-eq, select, ℤ, pos, sub_ℕ, ◌≤ℤ◌, lt_ℤ, sort_by, length-sort_by, get_or,
}
use mathlib.Core.List.{append_assoc, append-nil}
use ruptura.FailureModes.Tracker.{
  FailureOutcome, Tracker, record_failure, max_track_record, outcome_for,
}
use ruptura.FailureModes.Tracker.Observe.{note_forecast, restore_outcome}
use ruptura.FailureModes.Tracker.Report.{track_record, in_period, is_warned, track_record_min_lead}

module _ {F : Type 0} where
  -- RestoreOutcome for each outcome of an earlier run.
  pub restore_all : Tracker F → List FailureOutcome → Tracker F
  restore_all t [] = t
  restore_all t (o ∷ os) = restore_all (restore_outcome t o.at o.lead) os

  outcomes_after :
      (t : Tracker F) (o : FailureOutcome)
      → (restore_outcome t o.at o.lead).outcomes ≡ last_n max_track_record (t.outcomes ++ o ∷ [])
  unfolding restore_outcome
  outcomes_after t o = cut_to_last-eq max_track_record (t.outcomes ++ o ∷ [])

  -- The last 2048 outcomes after any number of them is restored are the last 2048 of the earlier ones
  -- followed by the restored ones.
  pub outcomes-restore_all :
      (t : Tracker F) (os : List FailureOutcome)
      → last_n max_track_record (restore_all t os).outcomes
        ≡ last_n max_track_record (t.outcomes ++ os)
  unfolding restore_all
  outcomes-restore_all t [] = ap (last_n max_track_record) (sym (append-nil t.outcomes))
  outcomes-restore_all t (o ∷ os) =
      outcomes-restore_all (restore_outcome t o.at o.lead) os
      ∙ ap (λ log. last_n max_track_record (log ++ os)) (outcomes_after t o)
      ∙ last_n-append max_track_record (t.outcomes ++ o ∷ []) os
      ∙ ap (last_n max_track_record) (append_assoc t.outcomes (o ∷ []) os)

  note_first :
      (t : Tracker F) (workload : String) (at : Time)
      → lookup workload t.forecasts ≡ none
      → note_forecast t workload at ≡ record t { forecasts = insert workload at t.forecasts }
  unfolding note_forecast
  note_first t workload at fresh = rw (fresh, note_forecast)

  note_again :
      (t : Tracker F) (workload : String) (warned at : Time)
      → lookup workload t.forecasts ≡ some warned
      → note_forecast t workload at ≡ t
  unfolding note_forecast
  note_again t workload warned at found = rw (found, note_forecast)

  noted_twice :
      (t : Tracker F) (workload : String) (warned again : Time)
      → lookup workload t.forecasts ≡ none
      → note_forecast (note_forecast t workload warned) workload again
        ≡ record t { forecasts = insert workload warned t.forecasts }
  noted_twice t workload warned again fresh =
      rw (note_first t workload warned fresh)
        (note_again _ workload warned again (lookup-insert_self workload warned t.forecasts))

  failure_outcomes :
      (t : Tracker F) (workload : String) (at : Time)
      → ((record_failure t workload at).outcomes
          ≡ last_n max_track_record
              (t.outcomes ++ outcome_for (lookup workload t.forecasts) at ∷ []))
        × ((record_failure t workload at).forecasts ≡ delete workload t.forecasts)
  unfolding record_failure
  failure_outcomes t workload at =
      rw
        (← cut_to_last-eq max_track_record
          (t.outcomes ++ outcome_for (lookup workload t.forecasts) at ∷ []))
        (ground arith, ground arith)

  -- Where a workload has no warning pending, the first forecast sets it and a second changes nothing;
  -- the failure that follows is kept, among the last 2048 outcomes, with the time since the first
  -- forecast as its lead, and the warning is then spent.
  pub forecast_cycle :
      (t : Tracker F) (workload : String) (warned again at : Time)
      → lookup workload t.forecasts ≡ none
      → let u = note_forecast (note_forecast t workload warned) workload again in
        let v = record_failure u workload at in
        (lookup workload u.forecasts ≡ some warned)
        × (v.outcomes
            ≡ last_n max_track_record
                (t.outcomes ++ record { at = at; lead = sub_ℕ at warned } ∷ []))
        × (lookup workload v.forecasts ≡ none)
  forecast_cycle t workload warned again at fresh = rw (noted_twice t workload warned again fresh) (
    warning,
    (failure_outcomes u workload at).0
        ∙ ap (λ w. last_n max_track_record (t.outcomes ++ outcome_for w at ∷ [])) warning,
    rw (failure_outcomes u workload at).1 (lookup-delete_self workload u.forecasts),
  )
    where
      u : Tracker F
      u = record t { forecasts = insert workload warned t.forecasts }

      warning : lookup workload u.forecasts ≡ some warned
      warning = lookup-insert_self workload warned t.forecasts

leads_long :
    (os : List FailureOutcome)
    → All (λ d. track_record_min_lead ≤ℤ d) (map (λ o. o.lead) (select is_warned os))
leads_long [] = tt
leads_long (o ∷ os) = elim (Bool-cases (is_warned o)) [
  | inl warned ↦ rw warned (ground arith, leads_long os)
  | inr late ↦ rw late (leads_long os)
]

get_or-empty : (xs : List ℤ) (i : ℕ) (d : ℤ) → length xs ≡ 0 → get_or xs i d ≡ d
get_or-empty [] i d h = refl
get_or-empty (x ∷ xs) i d h = absurd (omega arith)

module _ (P : ℤ → Type 0) where
  get_or-All : (xs : List ℤ) (i : ℕ) (d : ℤ) → All P xs → i < length xs → P (get_or xs i d)
  get_or-All [] i d all h = absurd (omega arith)
  get_or-All (x ∷ xs) zero d all h = all.0
  get_or-All (x ∷ xs) (suc i) d all h = get_or-All xs i d all.1 (omega arith)

module _ {F : Type 0} where
  -- Within a period, no more failures were warned than happened, and the median lead of the warned
  -- ones is at least five minutes; with none warned it is zero.
  pub track_record_sound :
      (t : Tracker F) (from to : Time)
      → let r = track_record t from to in
        (r.warned ≤ r.failures)
        × (r.failures ≤ length t.outcomes)
        × (0 < r.warned → track_record_min_lead ≤ℤ r.median_lead)
        × (r.warned ≡ 0 → r.median_lead ≡ pos 0)
  unfolding track_record
  track_record_sound t from to = (
    omega (
      arith,
      length-select-le is_warned period,
      length-map (λ (o : FailureOutcome). o.lead) (select is_warned period),
    ),
    length-select-le (in_period from to) t.outcomes,
    λ some_warned.
        get_or-All (λ d. track_record_min_lead ≤ℤ d) (sort_by lt_ℤ leads) (length leads / 2) (pos 0)
          (All-sort_by lt_ℤ (λ d. track_record_min_lead ≤ℤ d) leads (leads_long period))
          (omega (arith, length-sort_by lt_ℤ leads)),
    λ none_warned.
        get_or-empty (sort_by lt_ℤ leads) (length leads / 2) (pos 0)
          (length-sort_by lt_ℤ leads ∙ none_warned),
  )
    where
      leads : List ℤ
      leads = map (λ o. o.lead) (select is_warned (select (in_period from to) t.outcomes))

      period : List FailureOutcome
      period = select (in_period from to) t.outcomes
