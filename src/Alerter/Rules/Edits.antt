-- ===== src/Alerter/Rules/Edits.antt =====
-- alerter.go: which rule UpdateRule and DeleteRule edit.
use ruptura.Base.{
  ◌≡◌, refl, ap, inl, inr, String, Bool, true, false, List, [], ◌∷◌, ◌++◌, All, Bool-cases, ◌==◌,
  string_eq,
}
use ruptura.Alerter.{Rule, Alerter}
use ruptura.Alerter.Rules.{replace_first, remove_first, update_rule, delete_rule}

module _ {F : Type 0} where
  abbrev pub IsNamed : String → Rule F → Bool → Type 0
  IsNamed name r b = (r.name == name) ≡ b

  -- Either no rule has the name, and the lists are as before, or the first rule of that name is the one
  -- between `front` and `back`.
  pub data Edit (name : String) (new : Rule F) (rules updated deleted : List (Rule F))
      (found : Bool) : Type 0 where
    absent :
        All (λ r. IsNamed name r false) rules
        → updated ≡ rules
        → deleted ≡ rules
        → found ≡ false
        → Edit name new rules updated deleted found
    present :
        (front : List (Rule F)) (r : Rule F) (back : List (Rule F))
        → All (λ r. IsNamed name r false) front
        → IsNamed name r true
        → rules ≡ front ++ r ∷ back
        → updated ≡ front ++ new ∷ back
        → deleted ≡ front ++ back
        → found ≡ true
        → Edit name new rules updated deleted found

  Edit-later :
      (name : String) (new q : Rule F) (rules updated deleted : List (Rule F)) (found : Bool)
      → IsNamed name q false
      → Edit name new rules updated deleted found
      → Edit name new (q ∷ rules) (q ∷ updated) (q ∷ deleted) found
  Edit-later name new q rules updated deleted found other (absent none_named same same' e) =
      absent (other, none_named) (ap (λ l. q ∷ l) same) (ap (λ l. q ∷ l) same') e
  Edit-later name new q rules updated deleted found other
        (present front r back before hit e1 e2 e3 e) =
      present (q ∷ front) r back (other, before) hit (ap (λ l. q ∷ l) e1) (ap (λ l. q ∷ l) e2)
        (ap (λ l. q ∷ l) e3) e

  edits :
      (name : String) (new : Rule F) (rules : List (Rule F))
      → Edit name new rules
          (replace_first name new rules).0
          (remove_first name rules).0
          (replace_first name new rules).1
  unfolding replace_first remove_first
  edits name new [] = absent tt refl refl refl
  edits name new (r ∷ rs) = elim (Bool-cases (r.name == name)) [
    | inl hit ↦ rw hit (present [] r rs tt hit refl refl refl refl)
    | inr other ↦ rw other (
        Edit-later name new r rs (replace_first name new rs).0 (remove_first name rs).0
          (replace_first name new rs).1 other (edits name new rs))
  ]

  -- UpdateRule and DeleteRule act on the first rule of the name, which the one replaces and the other
  -- takes out, with all other rules kept in order; and where no rule has the name, UpdateRule reports
  -- false and neither changes the rules.
  pub update_rule-Edit :
      (a : Alerter F) (name : String) (new : Rule F)
      → Edit name new a.rules
          (update_rule a name new).0.rules
          (delete_rule a name).0.rules
          (update_rule a name new).1
  unfolding update_rule delete_rule
  update_rule-Edit a name new = edits name new a.rules
