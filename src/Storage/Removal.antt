-- ===== src/Storage/Removal.antt =====
-- storage.go: what a purge deletes.
use ruptura.Base.{
  ℕ, zero, suc, ◌+◌, ◌≤◌, ◌≡◌, ◌↔◌, ◌⊎◌, refl, sym, ap, ◌∙◌, subst, true, false, Option, none, some,
  inl, inr, List, [], ◌∷◌, ◌++◌, map, select, Has, Has-append, Has-map, Has-select, length,
  length-append, length-drop, drop, take, Bool-cases, Option-cases, ◌==◌, ==_iff, ==_ne, Time,
  arith,
}
use ruptura.Storage.{
  Bytes, bytes_eq, has_prefix, Database, IsLawful, Result, ok, error, StoreError, Write, delete_key,
  commit, written, items_of,
}
use ruptura.Storage.Segments.{Has-items_of}
use ruptura.Storage.Purge.{in_range, Purged, batch_size, to_delete, delete_batches, purge_by_prefix}

abbrev pub deletes : List Bytes → Bytes → Option Bytes → Option Bytes
deletes keys key old = written (map delete_key keys) key old

deletes_nothing : (keys : List Bytes) (key : Bytes) → deletes keys key none ≡ none
deletes_nothing [] key = refl
deletes_nothing (k ∷ keys) key = elim (Bool-cases (k == key)) [
  | inl same ↦ rw (written, same) (deletes_nothing keys key)
  | inr other ↦ rw (written, other) (deletes_nothing keys key)
]

pub deletes_listed :
    (keys : List Bytes) (key : Bytes) (old : Option Bytes)
    → Has key keys
    → deletes keys key old ≡ none
deletes_listed [] key old h = absurd h
deletes_listed (k ∷ keys) key old (inl e) =
    rw (written, (==_iff k key).1 e) (deletes_nothing keys key)
deletes_listed (k ∷ keys) key old (inr h) = deletes_listed keys key _ h

pub deletes_other :
    (keys : List Bytes) (key : Bytes) (old : Option Bytes)
    → ¬ Has key keys
    → deletes keys key old ≡ old
deletes_other [] key old h = refl
deletes_other (k ∷ keys) key old h =
    rw (written, ==_ne k key (λ e. h (inl e))) (deletes_other keys key old (λ there. h (inr there)))

pub Result-cases :
    {A : Type 0} (r : Result A) → ((e : StoreError) × (r ≡ error e)) ⊎ ((a : A) × (r ≡ ok a))
Result-cases (error e) = inl (e, refl)
Result-cases (ok a) = inr (a, refl)

take-drop : (n : ℕ) (keys : List Bytes) → take n keys ++ drop n keys ≡ keys
take-drop zero keys = refl
take-drop (suc n) [] = refl
take-drop (suc n) (k ∷ keys) = ap (λ l. k ∷ l) (take-drop n keys)

module _ (B : Database) where
  -- A transaction that commits has its writes.
  pub commit-written :
      (writes : List Write) (s t : B.State)
      → IsLawful B
      → commit B writes s ≡ ok t
      → (key : Bytes) → B.find t key ≡ written writes key (B.find s key)
  unfolding commit
  commit-written writes s t law done key = elim (Option-cases (B.update s writes)) [
    | inl failed ↦ absurd (let bad : error _ ≡ ok t = rw (commit, failed) at done in cc)
    | inr (t', committed) ↦
        let e : ok t' ≡ ok t = rw (commit, committed) at done in
        let same : t' ≡ t = cc in law.find-update s t writes key (committed ∙ ap some same)
  ]

  -- What the loop over the batches leaves.
  abbrev IsRemoval : List Bytes → ℕ → B.State → Purged B.State → Type 0
  IsRemoval keys deleted s r =
      ((key : Bytes) → ¬ Has key keys → B.find r.state key ≡ B.find s key)
      × ((key : Bytes) → B.find s key ≡ none → B.find r.state key ≡ none)
      × (r.failed ≡ none
          → ((key : Bytes) → Has key keys → B.find r.state key ≡ none)
            × (r.deleted ≡ deleted + length keys))

  delete_batches-IsRemoval :
      (fuel : ℕ) (keys : List Bytes) (deleted : ℕ) (s : B.State)
      → IsLawful B
      → length keys ≤ fuel
      → IsRemoval keys deleted s (delete_batches B fuel keys deleted s)
  unfolding delete_batches
  delete_batches-IsRemoval zero [] deleted s law enough =
      (λ key h. refl, λ key h. h, λ e. (λ key h. absurd h, omega arith))
  delete_batches-IsRemoval zero (k ∷ keys) deleted s law enough = absurd (omega arith)
  delete_batches-IsRemoval (suc fuel) [] deleted s law enough =
      (λ key h. refl, λ key h. h, λ e. (λ key h. absurd h, omega arith))
  delete_batches-IsRemoval (suc fuel) (k ∷ keys) deleted s law enough =
      let batch = take batch_size (k ∷ keys) in
      let others = drop batch_size (k ∷ keys) in
      let shorter = length-drop batch_size (k ∷ keys) in
      let whole : length batch + length others ≡ length (k ∷ keys) =
        sym (length-append batch others) ∙ ap length (take-drop batch_size (k ∷ keys)) in
      let parts = λ (key : Bytes) (h : Has key batch ⊎ Has key others).
        subst (λ l. Has key l) (take-drop batch_size (k ∷ keys))
          ((Has-append key batch others).1 h) in
      let from_parts = λ (key : Bytes) (h : Has key (k ∷ keys)).
        (Has-append key batch others).0
          (subst (λ l. Has key l) (sym (take-drop batch_size (k ∷ keys))) h) in
      elim (Result-cases (commit B (map delete_key batch) s)) [
        | inl (e, failed) ↦
            rw (delete_batches, failed) (λ key h. refl, λ key h. h, λ none_there. absurd (cc))
        | inr (t, done) ↦
            let (keeps, stays, gone) =
              delete_batches-IsRemoval fuel others (deleted + length batch) t law
                (omega (arith, shorter)) in
            let now = commit-written (map delete_key batch) s t law done in
            rw (delete_batches, done)
              (
                λ key absent.
                    keeps key (λ h. absent (parts key (inr h)))
                    ∙ now key
                    ∙ deletes_other batch key _ (λ h. absent (parts key (inl h))),
                λ key none_there.
                    stays key
                      (now key ∙ ap (deletes batch key) none_there ∙ deletes_nothing batch key),
                λ fine. (
                  λ key h. elim (from_parts key h) [
                    | inl first_part ↦ stays key (now key ∙ deletes_listed batch key _ first_part)
                    | inr later ↦ (gone fine).0 key later
                  ],
                  omega (arith, (gone fine).1, whole),
                ),
              )
      ]

  Has-to_delete :
      (prefix : Bytes) (from to : Time) (s : B.State) (key : Bytes)
      → IsLawful B
      → Has key (to_delete B prefix from to s) ↔ (
          (has_prefix key prefix ≡ true)
          × (in_range prefix from to key ≡ true)
          × ((value : Bytes) × (B.find s key ≡ some value)))
  unfolding to_delete
  Has-to_delete prefix from to s key law = (
    λ h.
        let (item, there, at) =
          (Has-map (λ item. item.0) key
              (select (λ item. in_range prefix from to item.0) (items_of B prefix s))).0
            h in
        let (listed, inside) = (Has-select item _ (items_of B prefix s)).0 there in
        let (has_it, held) = (Has-items_of B prefix s law item.0 item.1).0 listed in
        (
          ap (λ k. has_prefix k prefix) (sym at) ∙ has_it,
          ap (in_range prefix from to) (sym at) ∙ inside,
          (item.1, ap (B.find s) (sym at) ∙ held),
        ),
    λ h.
        let (has_it, inside, found) = h in
        let listed = (Has-items_of B prefix s law key found.0).1 (has_it, found.1) in
        (Has-map (λ item. item.0) key
            (select (λ item. in_range prefix from to item.0) (items_of B prefix s))).1
          (
            (key, found.0),
            (Has-select (key, found.0) _ (items_of B prefix s)).1 (listed, inside),
            refl,
          ),
  )

  -- A purge of a prefix changes no key but those with the prefix and, in the last twenty bytes, a
  -- time in the range. Where it reports no error all those are gone, and it reports how many they
  -- were.
  pub purge_by_prefix-IsRemoval :
      (prefix : Bytes) (from to : Time) (s : B.State)
      → IsLawful B
      → ((key : Bytes)
          → has_prefix key prefix ≡ false ⊎ in_range prefix from to key ≡ false
          → B.find (purge_by_prefix B prefix from to s).state key ≡ B.find s key)
        × ((purge_by_prefix B prefix from to s).failed ≡ none
            → ((key : Bytes)
                → has_prefix key prefix ≡ true
                → in_range prefix from to key ≡ true
                → B.find (purge_by_prefix B prefix from to s).state key ≡ none)
              × ((purge_by_prefix B prefix from to s).deleted
                  ≡ length (to_delete B prefix from to s)))
  unfolding purge_by_prefix
  purge_by_prefix-IsRemoval prefix from to s law =
      let keys = to_delete B prefix from to s in
      let (keeps, stays, gone) =
        delete_batches-IsRemoval (length keys) keys 0 s law (omega arith) in
      (
        λ key out. keeps key (λ h.
            let (has_it, inside, found) = (Has-to_delete prefix from to s key law).0 h in
            elim out [
              | inl lost ↦ absurd (let bad : true ≡ false = sym has_it ∙ lost in cc)
              | inr apart ↦ absurd (let bad : true ≡ false = sym inside ∙ apart in cc)
            ]),
        λ fine. (
          λ key has_it inside. elim (Option-cases (B.find s key)) [
            | inl none_there ↦ stays key none_there
            | inr (value, held) ↦
                (gone fine).0 key
                  ((Has-to_delete prefix from to s key law).1 (has_it, inside, (value, held)))
          ],
          (gone fine).1 ∙ omega arith,
        ),
      )
