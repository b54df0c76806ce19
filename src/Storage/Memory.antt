-- ===== src/Storage/Memory.antt =====
-- A database that keeps its entries in a list in the order of their keys, for the examples.
use ruptura.Base.{
  ◌≡◌, ◌↔◌, refl, sym, ap, ◌∙◌, subst, Bool, true, false, not, Option, none, some, inl, inr, List,
  [], ◌∷◌, select, All, All-Has, All-select, Has, Has-select, Bool-cases, ◌==◌, ==_iff, ==_ne,
  if◌then◌else◌, arith,
}
use ruptura.Storage.{
  Bytes, bytes_eq, less, Database, IsLawful, IsAscending, Write, set_entry, delete_key, written,
}
use ruptura.Storage.Keys.{less_irrefl, less_total}
use ruptura.Storage.Ranges.{All-after}

abbrev pub Items : Type 0
Items = List (Bytes × Bytes)

abbrev pub find_in : Items → Bytes → Option Bytes
find_in [] key = none
find_in (item ∷ items) key =
    let rest = find_in items key in if item.0 == key then some item.1 else rest

abbrev pub put : Bytes → Bytes → Items → Items
put key value [] = (key, value) ∷ []
put key value (item ∷ items) =
    let rest = put key value items in
    if less key item.0
    then (key, value) ∷ item ∷ items
    else if less item.0 key
    then item ∷ rest
    else (key, value) ∷ items

abbrev pub cut : Bytes → Items → Items
cut key = select (λ item. not (item.0 == key))

abbrev pub apply : List Write → Items → Items
apply [] items = items
apply (set_entry key value ttl ∷ writes) items = apply writes (put key value items)
apply (delete_key key ∷ writes) items = apply writes (cut key items)

less_distinct : (a b : Bytes) → less a b ≡ true → (a == b) ≡ false
less_distinct a b h = ==_ne a b (λ e. absurd (
    let bad : less b b ≡ true = subst (λ k. less k b ≡ true) e h in
    let clash : true ≡ false = sym bad ∙ less_irrefl b in cc))

All-put :
    (P : Bytes × Bytes → Type 0) (key value : Bytes) (items : Items)
    → P (key, value)
    → All P items
    → All P (put key value items)
All-put P key value [] h hs = (h, tt)
All-put P key value (item ∷ items) h hs = elim (Bool-cases (less key item.0)) [
  | inl first_one ↦ rw first_one (h, hs)
  | inr not_first ↦ elim (Bool-cases (less item.0 key)) [
    | inl later ↦ rw (not_first, later) (hs.0, All-put P key value items h hs.1)
    | inr same ↦ rw (not_first, same) (h, hs.1)
  ]
]

swap_tests :
    (j key k : Bytes) (a b rest : Option Bytes)
    → (j == key) ≡ false
    → (if j == k then a else if key == k then b else rest)
      ≡ (if key == k then b else if j == k then a else rest)
swap_tests j key k a b rest apart = ground (arith, ==_iff j key, ==_iff key k, ==_iff j k)

same_tests :
    (key j k : Bytes) (a b rest : Option Bytes)
    → key ≡ j
    → (if key == k then a else rest) ≡ (if key == k then a else if j == k then b else rest)
same_tests key j k a b rest same = ground (arith, ==_iff key k, ==_iff j k)

find_in-put :
    (key value k : Bytes) (items : Items)
    → IsAscending items
    → find_in (put key value items) k ≡ (if key == k then some value else find_in items k)
find_in-put key value k [] asc = refl
find_in-put key value k (item ∷ items) asc = elim (Bool-cases (less key item.0)) [
  | inl first_one ↦ rw first_one refl
  | inr not_first ↦ elim (Bool-cases (less item.0 key)) [
    | inl later ↦
        rw (not_first, later)
          (ap (λ rest. if item.0 == k then some item.1 else rest)
              (find_in-put key value k items asc.1)
            ∙ swap_tests item.0 key k (some item.1) (some value) (find_in items k)
                (less_distinct item.0 key later))
    | inr not_later ↦
        let same : key ≡ item.0 = less_total key item.0 not_first not_later in
        rw (not_first, not_later)
          (same_tests key item.0 k (some value) (some item.1) (find_in items k) same)
  ]
]

put-IsAscending :
    (key value : Bytes) (items : Items) → IsAscending items → IsAscending (put key value items)
put-IsAscending key value [] asc = (tt, tt)
put-IsAscending key value (item ∷ items) asc = elim (Bool-cases (less key item.0)) [
  | inl first_one ↦ rw first_one ((first_one, All-after key item.0 items first_one asc.0), asc)
  | inr not_first ↦ elim (Bool-cases (less item.0 key)) [
    | inl later ↦
        rw (not_first, later)
          (
            All-put (λ l. less item.0 l.0 ≡ true) key value items later asc.0,
            put-IsAscending key value items asc.1,
          )
    | inr not_later ↦
        let same : item.0 ≡ key = sym (less_total key item.0 not_first not_later) in
        rw (not_first, not_later)
          (subst (λ j. All (λ l. less j l.0 ≡ true) items) same asc.0, asc.1)
  ]
]

select-IsAscending :
    (p : Bytes × Bytes → Bool) (items : Items) → IsAscending items → IsAscending (select p items)
select-IsAscending p [] asc = tt
select-IsAscending p (item ∷ items) asc = elim (Bool-cases (p item)) [
  | inl kept ↦
      rw kept
        (All-select (λ l. less item.0 l.0 ≡ true) p items asc.0, select-IsAscending p items asc.1)
  | inr dropped ↦ rw dropped (select-IsAscending p items asc.1)
]

find_in-cut :
    (key k : Bytes) (items : Items)
    → find_in (cut key items) k ≡ (if key == k then none else find_in items k)
find_in-cut key k [] = ground arith
find_in-cut key k (item ∷ items) =
    ground (arith, ==_iff item.0 key, ==_iff item.0 k, ==_iff key k, find_in-cut key k items)

-- In a list in the order of its keys, an item is what a search for its key finds.
Has-find_in :
    (key value : Bytes) (items : Items)
    → IsAscending items
    → Has (key, value) items ↔ (find_in items key ≡ some value)
Has-find_in key value [] asc = (λ h. absurd h, λ h. absurd (cc))
Has-find_in key value (item ∷ items) asc = elim (Bool-cases (item.0 == key)) [
  | inl same ↦
      let at : item.0 ≡ key = (==_iff item.0 key).0 same in
      rw same (
        λ h. elim h [
          | inl e ↦ ap (λ i. some i.1) e
          | inr later ↦
              let after : less item.0 key ≡ true = All-Has _ (key, value) items asc.0 later in
              let bad : true ≡ false = sym after ∙ ap (less item.0) (sym at) ∙ less_irrefl item.0 in
              absurd (cc)
        ],
        λ h. let held : item.1 ≡ value = cc in inl (λ i. (at i, held i)),
      )
  | inr other ↦ rw other (
    λ h. elim h [
      | inl e ↦
          let here = (==_iff item.0 key).1 (ap (λ i. i.0) e) in
          let bad : true ≡ false = sym here ∙ other in absurd (cc)
      | inr later ↦ (Has-find_in key value items asc.1).0 later
    ],
    λ h. inr ((Has-find_in key value items asc.1).1 h),
  )
]

pub apply-IsAscending :
    (writes : List Write) (items : Items) → IsAscending items → IsAscending (apply writes items)
apply-IsAscending [] items asc = asc
apply-IsAscending (set_entry key value ttl ∷ writes) items asc =
    apply-IsAscending writes (put key value items) (put-IsAscending key value items asc)
apply-IsAscending (delete_key key ∷ writes) items asc =
    apply-IsAscending writes (cut key items)
      (select-IsAscending (λ item. not (item.0 == key)) items asc)

find_in-apply :
    (writes : List Write) (items : Items) (key : Bytes)
    → IsAscending items
    → find_in (apply writes items) key ≡ written writes key (find_in items key)
find_in-apply [] items key asc = refl
find_in-apply (set_entry k v ttl ∷ writes) items key asc =
    find_in-apply writes (put k v items) key (put-IsAscending k v items asc)
    ∙ ap (written writes key) (find_in-put k v key items asc)
find_in-apply (delete_key k ∷ writes) items key asc =
    find_in-apply writes (cut k items) key
      (select-IsAscending (λ item. not (item.0 == k)) items asc)
    ∙ ap (written writes key) (find_in-cut k key items)

abbrev pub from_key : Bytes → Items → Items
from_key seek = select (λ item. not (less item.0 seek))

abbrev pub memory : Database
memory = record {
  State = (items : Items) × IsAscending items;
  find = λ s key. find_in s.0 key;
  scan = λ s seek. from_key seek s.0;
  update = λ s writes. some (apply writes s.0, apply-IsAscending writes s.0 s.1);
}

pub memory-IsLawful : IsLawful memory
memory-IsLawful = record {
  find-update = λ s t writes key done.
      let same : (apply writes s.0, apply-IsAscending writes s.0 s.1) ≡ t = cc in
      ap (λ u. find_in u.0 key) (sym same) ∙ find_in-apply writes s.0 key s.1;
  Has-scan = λ s seek key value. (
    λ h.
        let (there, from) = (Has-select (key, value) _ s.0).0 h in
        (ground arith, (Has-find_in key value s.0 s.1).0 there),
    λ h. (Has-select (key, value) _ s.0).1 ((Has-find_in key value s.0 s.1).1 h.1, rw (h.0) refl),
  );
  scan-IsAscending = λ s seek. select-IsAscending _ s.0 s.1;
}
