-- ===== src/Context/Expiry.antt =====
-- manual.go and deployment.go: which entries are seen, and when detection is suppressed.
use ruptura.Base.{
  ◌≡◌, ◌↔◌, refl, inl, inr, String, Bool, true, false, List, [], ◌∷◌, select, exists, Has, some,
  none, Bool-cases, if◌then◌else◌, ◌==◌, string_eq, lookup-insert, Time, arith,
}
use ruptura.Context.{
  ContextEntry, Entries, add, get_entry, list_entries, prune_entries, is_live, is_expired,
  DeploymentEvent, DeploymentDetector, spans, is_suppressed_at, active_events,
}

expired_unseen : (now : Time) (e : ContextEntry) → is_expired now e ≡ true → is_live now e ≡ false
expired_unseen now e h = ground arith

-- A prune at a time changes nothing of what the list shows at that time.
pub list_entries-prune_entries :
    (s : Entries) (now : Time) → list_entries (prune_entries s now) now ≡ list_entries s now
unfolding list_entries prune_entries
list_entries-prune_entries [] now = refl
list_entries-prune_entries ((id, e) ∷ s) now = elim (Bool-cases (is_expired now e)) [
  | inl old ↦ rw (old, expired_unseen now e old) (list_entries-prune_entries s now)
  | inr kept ↦ rw kept (elim (Bool-cases (is_live now e)) [
    | inl live ↦ rw live (rw (list_entries-prune_entries s now) refl)
    | inr over ↦ rw over (list_entries-prune_entries s now)
  ])
]

-- An entry is added if and only if its identifier is new: then the identifier gives the entry, and any
-- other identifier what it gave before; otherwise the store is as before.
pub get_entry-add :
    (s : Entries) (e : ContextEntry) (id : String)
    → (get_entry s e.id ≡ none
        → ((add s e).1 ≡ true)
          × (get_entry (add s e).0 id ≡ (if e.id == id then some e else get_entry s id)))
      × ((old : ContextEntry) → get_entry s e.id ≡ some old → add s e ≡ (s, false))
unfolding add get_entry
get_entry-add s e id =
    (λ free. rw (add, free) (refl, lookup-insert e.id id e s), λ old taken. rw (add, taken) refl)

module _ {A : Type 0} (p : A → Bool) where
  exists-select : (xs : List A) → (exists p xs ≡ true) ↔ ((x : A) × Has x (select p xs))
  exists-select [] = (λ e. absurd (cc), λ found. absurd found.1)
  exists-select (x ∷ xs) = elim (Bool-cases (p x)) [
    | inl hit ↦ rw hit (λ e. (x, inl refl), λ found. refl)
    | inr miss ↦ rw miss (exists-select xs)
  ]

-- Detection is suppressed at a time if and only if some deployment is active then.
pub is_suppressed_at-active_events :
    (d : DeploymentDetector) (t : Time)
    → (is_suppressed_at d t ≡ true) ↔ ((e : DeploymentEvent) × Has e (active_events d t))
unfolding is_suppressed_at active_events
is_suppressed_at-active_events d t = exists-select (spans d t) d.events
