-- ===== src/Storage.antt =====
-- storage.go: the keys of the database, and reading and writing one key. A Go string is the list of
-- its bytes. The database is Badger, behind the interface `Database`, and encoding/json is behind
-- `Json`. Times are not before 1970, so no key holds a sign.
pub mod Keys
pub mod Series
mod Ranges
mod Writes
pub mod Memory
mod Records
pub mod Logs
mod Segments
mod Tokens
mod Purge
mod Removal
mod Retention
mod Compaction
mod Snapshots
mod Fresh
mod Windows
mod Examples
use Prim.Native.Nat.{◌^◌}
use ruptura.Base.{
  ℕ, zero, suc, ◌+◌, ◌-◌, ◌*◌, ◌/◌, ◌%◌, ◌≡◌, refl, ap, ◌↔◌, Bool, true, false, not, ◌&&◌, Option,
  none, some, List, [], ◌∷◌, ◌++◌, Has, All, Eq, ◌==◌, nat_beq, ltb, leb, if◌then◌else◌, Time,
  Duration, hour, arith,
}

abbrev pub Bytes : Type 0
Bytes = List ℕ

-- a == b
abbrev pub bytes_beq : Bytes → Bytes → Bool
bytes_beq [] [] = true
bytes_beq [] (y ∷ ys) = false
bytes_beq (x ∷ xs) [] = false
bytes_beq (x ∷ xs) (y ∷ ys) = let rest = bytes_beq xs ys in if nat_beq x y then rest else false

pub bytes_beq_iff : (a b : Bytes) → (bytes_beq a b ≡ true) ↔ (a ≡ b)
bytes_beq_iff [] [] = (λ h. refl, λ h. refl)
bytes_beq_iff [] (y ∷ ys) = ground arith
bytes_beq_iff (x ∷ xs) [] = ground arith
bytes_beq_iff (x ∷ xs) (y ∷ ys) = ground (arith, bytes_beq_iff xs ys)

instance abbrev pub bytes_eq : Eq Bytes
bytes_eq = record { same = bytes_beq; same_iff = bytes_beq_iff }

-- a < b, by bytes
abbrev pub less : Bytes → Bytes → Bool
less [] [] = false
less [] (y ∷ ys) = true
less (x ∷ xs) [] = false
less (x ∷ xs) (y ∷ ys) =
    let rest = less xs ys in if ltb x y then true else if ltb y x then false else rest

-- hasPrefix, and strings.HasPrefix
abbrev pub has_prefix : Bytes → Bytes → Bool
has_prefix key [] = true
has_prefix [] (p ∷ prefix) = false
has_prefix (b ∷ key) (p ∷ prefix) =
    let rest = has_prefix key prefix in if nat_beq b p then rest else false

-- The separator of the segments of a key.
abbrev pub colon : ℕ
colon = b':'

-- The last `width` decimal digits of a number, as fmt's %0<width>d writes a number below 10^width.
abbrev pub padded : ℕ → ℕ → Bytes
padded zero n = []
padded (suc width) n = padded width (n / 10) ++ (b'0' + n % 10) ∷ []

abbrev pub ts_key : Bytes → Time → Bytes
ts_key prefix ts = prefix ++ padded 20 ts

-- The value of a digit.
abbrev pub digit : ℕ → Option ℕ
digit c = if leb b'0' c && leb c b'9' then some (c - b'0') else none

-- The number that digits stand for, after the digits of `acc`.
abbrev pub numeral : ℕ → Bytes → Option ℕ
numeral acc [] = some acc
numeral acc (c ∷ cs) = elim (digit c) [ none ↦ none | some d ↦ numeral (acc * 10 + d) cs ]

abbrev max_int : ℕ
max_int = 2 ^ 63 - 1

-- strconv.ParseInt(text, 10, 64) where the error is dropped: 0 for what is no numeral, and the
-- largest integer for a numeral that is out of range
abbrev pub parse_int : Bytes → ℕ
parse_int [] = 0
parse_int (c ∷ cs) = elim (numeral 0 (c ∷ cs)) [
  | none ↦ 0
  | some n ↦ if leb n max_int then n else max_int
]

-- The digits in front, after `acc` and at least one more.
abbrev pub leading : ℕ → Bytes → ℕ
leading acc [] = acc
leading acc (c ∷ cs) = elim (digit c) [ none ↦ acc | some d ↦ leading (acc * 10 + d) cs ]

-- fmt.Sscanf(text, "%d", &nanos): blanks, then digits; what follows them is not read
abbrev pub scan_int : Bytes → Option ℕ
scan_int [] = none
scan_int (c ∷ cs) =
    let rest = scan_int cs in
    if nat_beq c b' ' then rest else elim (digit c) [
      | none ↦ none
      | some d ↦ let n = leading d cs in if leb n max_int then some n else none
    ]

-- An entry of a transaction: txn.SetEntry with the bytes and the time to live, or txn.Delete.
pub data Write : Type 0 where
  set_entry : Bytes → Bytes → Duration → Write
  delete_key : Bytes → Write

-- badger.DB: the state that a transaction sees, txn.Get, the items of an iterator from a key on, and
-- the writes of one db.Update, which fails as a whole. An entry whose time to live is over leaves
-- the state without the code.
pub record Database : Type 1 where
  pub State : Type 0
  pub find : State → Bytes → Option Bytes
  pub scan : State → Bytes → List (Bytes × Bytes)
  pub update : State → List Write → Option State

-- What a key holds after some writes.
abbrev pub written : List Write → Bytes → Option Bytes → Option Bytes
written [] key old = old
written (set_entry k v ttl ∷ writes) key old = written writes key (if k == key then some v else old)
written (delete_key k ∷ writes) key old = written writes key (if k == key then none else old)

-- The items of an iterator are in the order of their keys.
abbrev pub IsAscending : List (Bytes × Bytes) → Type 0
IsAscending [] = Unit
IsAscending (item ∷ items) = All (λ later. less item.0 later.0 ≡ true) items × IsAscending items

-- Badger's documented behaviour: a transaction that commits has all its writes and nothing else, and
-- an iterator gives the entries from the sought key on, in the order of the keys.
pub record IsLawful (B : Database) : Type 0 where
  pub find-update :
      (s t : B.State) (writes : List Write) (key : Bytes)
      → B.update s writes ≡ some t
      → B.find t key ≡ written writes key (B.find s key)
  pub Has-scan :
      (s : B.State) (seek key value : Bytes)
      → Has (key, value) (B.scan s seek) ↔ ((less key seek ≡ false) × (B.find s key ≡ some value))
  pub scan-IsAscending : (s : B.State) (seek : Bytes) → IsAscending (B.scan s seek)

-- json.Marshal, which fails on NaN and the infinities, and json.Unmarshal.
pub record Json (A : Type 0) : Type 0 where
  pub marshal : A → Option Bytes
  pub unmarshal : Bytes → Option A

-- What is encoded is decoded again.
abbrev pub IsFaithful : {A : Type 0} → Json A → Type 0
IsFaithful {A} json =
    (a : A) (text : Bytes) → json.marshal a ≡ some text → json.unmarshal text ≡ some a

pub data StoreError : Type 0 where
  marshal_error : StoreError
  unmarshal_error : StoreError
  key_not_found : StoreError
  update_error : StoreError
  no_timestamp : StoreError

pub data Result (A : Type 0) : Type 0 where
  ok : A → Result A
  error : StoreError → Result A

module _ {A : Type 0} (B : Database) (json : Json A) where
  unfoldable pub get : Bytes → B.State → Result A
  get key s = elim (B.find s key) [
    | none ↦ error key_not_found
    | some text ↦ elim (json.unmarshal text) [ none ↦ error unmarshal_error | some a ↦ ok a ]
  ]

module _ (B : Database) where
  -- One db.Update.
  unfoldable pub commit : List Write → B.State → Result B.State
  commit writes s = elim (B.update s writes) [ none ↦ error update_error | some t ↦ ok t ]

  unfoldable pub set_raw : Bytes → Bytes → Duration → B.State → Result B.State
  set_raw key text ttl s = commit (set_entry key text ttl ∷ []) s

  unfoldable pub delete : Bytes → B.State → Result B.State
  delete key s = commit (delete_key key ∷ []) s

module _ {A : Type 0} (B : Database) (json : Json A) where
  unfoldable pub set : Bytes → A → Duration → B.State → Result B.State
  set key value ttl s = elim (json.marshal value) [
    | none ↦ error marshal_error
    | some text ↦ set_raw B key text ttl s
  ]

-- The items from the prefix on, while the prefix is there.
abbrev pub under : Bytes → List (Bytes × Bytes) → List (Bytes × Bytes)
under prefix [] = []
under prefix (item ∷ items) =
    let rest = under prefix items in if has_prefix item.0 prefix then item ∷ rest else []

-- listByPrefix: what it hands to `dest`, in order
unfoldable pub items_of : (B : Database) → Bytes → B.State → List (Bytes × Bytes)
items_of B prefix s = under prefix (B.scan s prefix)
