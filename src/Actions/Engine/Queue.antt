-- ===== src/Actions/Engine/Queue.antt =====
-- engine.go: the queue of recommendations over any calls on an engine.
use ruptura.Base.{
  ◌≤◌, ◌≡◌, refl, subst, sym, inl, inr, String, Bool, true, false, not, List, [], ◌∷◌, ◌++◌, All,
  length, select, exists, length-cut_to_last, Bool-cases, ◌==◌, ==_refl, ==_iff, string_eq, Time,
  Float, arith,
}
use ruptura.Actions.{RuptureEvent, Recommendation}
use ruptura.Actions.Engine.{
  Engine, AnomalyEvent, max_queue_size, recommendations, enqueue, publish, is_rejected,
  pending_actions, approve_first, approve, reject, emergency_stop, recommend,
  recommend_from_anomaly,
}

-- A call that changes the engine.
pub data Op (F : Type 0) : Type 0 where
  recommends : RuptureEvent F → Time → Op F
  recommends_from_anomaly : AnomalyEvent F → String → Time → Op F
  approves rejects : String → Op F
  stops : Op F

module _ {F : Type 0} ⦃fl : Float F⦄ where
  pub step : Engine F → Op F → Engine F
  step e (recommends event now) = (recommend e event now).0
  step e (recommends_from_anomaly ev id now) = (recommend_from_anomaly e ev id now).0
  step e (approves id) = (approve e id).0
  step e (rejects id) = reject e id
  step e stops = emergency_stop e

  pub run : Engine F → List (Op F) → Engine F
  run e [] = e
  run e (op ∷ ops) = run (step e op) ops

  -- The queue is within its bound, and `id` is among the rejected identifiers.
  record IsRejecting (id : String) (e : Engine F) : Type 0 where
    bounded : length e.queue ≤ max_queue_size
    marked : is_rejected e id ≡ true

module _ {F : Type 0} where
  publish-rest : (e : Engine F) (event : RuptureEvent F) → (publish e event).rejected ≡ e.rejected
  unfolding publish
  publish-rest e event = elim (Bool-cases e.has_bus) [ inl on ↦ rw on refl | inr off ↦ rw off refl ]

  length-approve_first :
      (id : String) (recs : List (Recommendation F))
      → length (approve_first id recs).0 ≡ length recs
  unfolding approve_first
  length-approve_first id [] = refl
  length-approve_first id (rec ∷ recs) = elim (Bool-cases (rec.id == id)) [
    | inl same ↦ rw same refl
    | inr other ↦ rw other (omega (arith, length-approve_first id recs))
  ]

  -- What passes a selection that needs an identifier unmarked has another identifier.
  select-unmarked :
      (id : String) (p : String → Bool) (recs : List (Recommendation F))
      → p id ≡ true
      → All (λ rec. (rec.id == id) ≡ false) (select (λ rec. not (p rec.id)) recs)
  select-unmarked id p [] h = tt
  select-unmarked id p (rec ∷ recs) h = elim (Bool-cases (rec.id == id)) [
    | inl same ↦
        let hit : p rec.id ≡ true = by_id rec.id same in rw hit (select-unmarked id p recs h)
    | inr other ↦ elim (Bool-cases (p rec.id)) [
      | inl hit ↦ rw hit (select-unmarked id p recs h)
      | inr miss ↦ rw miss (other, select-unmarked id p recs h)
    ]
  ]
    where
      by_id : (i : String) → (i == id) ≡ true → p i ≡ true
      by_id i same = let e : i ≡ id = (==_iff i id).0 same in rw e h

module _ {F : Type 0} ⦃fl : Float F⦄ (id : String) where
  recommend-IsRejecting :
      (e : Engine F) (event : RuptureEvent F) (now : Time)
      → IsRejecting id e
      → IsRejecting id (recommend e event now).0
  unfolding recommend enqueue is_rejected
  recommend-IsRejecting e event now h = record {
    bounded =
        length-cut_to_last max_queue_size
          ((publish e event).queue ++ recommendations e.rules event now);
    marked = subst (λ rs. exists (λ r. r == id) rs ≡ true) (sym (publish-rest e event)) h.marked;
  }

  anomaly-IsRejecting :
      (e : Engine F) (ev : AnomalyEvent F) (i : String) (now : Time)
      → IsRejecting id e
      → IsRejecting id (recommend_from_anomaly e ev i now).0
  unfolding recommend_from_anomaly
  anomaly-IsRejecting e ev i now h = elim (Bool-cases (ev.severity == "critical")) [
    | inl critical ↦ rw critical (recommend-IsRejecting e _ now h)
    | inr other ↦ rw other h
  ]

  step-IsRejecting : (e : Engine F) (op : Op F) → IsRejecting id e → IsRejecting id (step e op)
  unfolding step recommend_from_anomaly approve reject emergency_stop is_rejected
  step-IsRejecting e (recommends event now) h = recommend-IsRejecting e event now h
  step-IsRejecting e (recommends_from_anomaly ev i now) h = anomaly-IsRejecting e ev i now h
  step-IsRejecting e (approves i) h = record {
    bounded = rw (length-approve_first i e.queue) h.bounded;
    marked = h.marked;
  }
  step-IsRejecting e (rejects i) h = record {
    bounded = h.bounded;
    marked = elim (Bool-cases (i == id)) [
      | inl same ↦ rw same refl
      | inr other ↦ rw other h.marked
    ];
  }
  step-IsRejecting e stops h = record { bounded = h.bounded; marked = h.marked }

  run-IsRejecting :
      (e : Engine F) (ops : List (Op F)) → IsRejecting id e → IsRejecting id (run e ops)
  unfolding run
  run-IsRejecting e [] h = h
  run-IsRejecting e (op ∷ ops) h = run-IsRejecting (step e op) ops (step-IsRejecting e op h)

  -- After an identifier is rejected on an engine whose queue holds at most 256, whatever calls follow,
  -- no pending action has it, and the queue still holds at most 256.
  pub pending_actions-reject :
      (e : Engine F) (ops : List (Op F))
      → length e.queue ≤ max_queue_size
      → All (λ rec. (rec.id == id) ≡ false) (pending_actions (run (reject e id) ops))
        × (length (run (reject e id) ops).queue ≤ max_queue_size)
  unfolding pending_actions reject is_rejected
  pending_actions-reject e ops h =
      let done : IsRejecting id (run (reject e id) ops) =
        run-IsRejecting (reject e id) ops (record { bounded = h; marked = rw (==_refl id) refl }) in
      (
        select-unmarked id (is_rejected (run (reject e id) ops)) (run (reject e id) ops).queue
            done.marked,
        done.bounded,
      )
