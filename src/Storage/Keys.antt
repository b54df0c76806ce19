-- ===== src/Storage/Keys.antt =====
-- storage.go: the digits at the end of a key, and the order of keys.
use Prim.Native.Nat.{◌^◌}
use ruptura.Base.{
  ℕ, zero, suc, ◌+◌, ◌*◌, ◌/◌, ◌%◌, ◌≤◌, ◌<◌, ◌≡◌, refl, sym, ap, ◌∙◌, subst, true, false, some, [],
  ◌∷◌, ◌++◌, length, length-append, drop, ltb, leb, nat_beq, Option-cases, Bool-cases, none, inl,
  inr, ◌-◌, if◌then◌else◌, arith,
}
use ruptura.Storage.{
  Bytes, less, has_prefix, padded, ts_key, digit, numeral, parse_int, leading, scan_int,
}

-- 10 ^ width
abbrev pub limit : ℕ → ℕ
limit zero = 1
limit (suc width) = 10 * limit width

pub length-padded : (width n : ℕ) → length (padded width n) ≡ width
length-padded zero n = refl
length-padded (suc width) n = omega (
  arith,
  length-append (padded width (n / 10)) ((48 + n % 10) ∷ []),
  length-padded width (n / 10),
)

digit-value : (d : ℕ) → d < 10 → digit (48 + d) ≡ some d
digit-value d h = ground arith

numeral-append :
    (acc : ℕ) (digits : Bytes) (c d n : ℕ)
    → numeral acc digits ≡ some n
    → digit c ≡ some d
    → numeral acc (digits ++ c ∷ []) ≡ some (n * 10 + d)
numeral-append acc [] c d n e at =
    let same : acc ≡ n = cc in rw (numeral, at) (ap (λ m. some (m * 10 + d)) same)
numeral-append acc (x ∷ digits) c d n e at = elim (Option-cases (digit x)) [
  | inl none_there ↦ absurd (let bad : none ≡ some n = rw (numeral, none_there) at e in cc)
  | inr (value, there) ↦
      rw (numeral, there)
        (numeral-append (acc * 10 + value) digits c d n (rw (numeral, there) at e) at)
]

numeral-padded : (width n : ℕ) → n < limit width → numeral 0 (padded width n) ≡ some n
numeral-padded zero n h = let e : 0 ≡ n = omega arith in ap some e
numeral-padded (suc width) n h =
    let whole : n / 10 * 10 + n % 10 ≡ n = omega arith in
    numeral-append 0 (padded width (n / 10)) (48 + n % 10) (n % 10) (n / 10)
      (numeral-padded width (n / 10) (omega arith)) (digit-value (n % 10) (omega arith))
    ∙ ap some whole

less-snoc :
    (xs ys : Bytes) (a b : ℕ)
    → length xs ≡ length ys
    → less (xs ++ a ∷ []) (ys ++ b ∷ [])
      ≡ (if less xs ys then true else if less ys xs then false else ltb a b)
less-snoc [] [] a b h = ground arith
less-snoc [] (y ∷ ys) a b h = absurd (omega arith)
less-snoc (x ∷ xs) [] a b h = absurd (omega arith)
less-snoc (x ∷ xs) (y ∷ ys) a b h = ground (arith, less-snoc xs ys a b)

less-padded :
    (width m n : ℕ)
    → m < limit width
    → n < limit width
    → less (padded width m) (padded width n) ≡ ltb m n
less-padded zero m n hm hn = ground arith
less-padded (suc width) m n hm hn =
    let same : length (padded width (m / 10)) ≡ length (padded width (n / 10)) =
      length-padded width (m / 10) ∙ sym (length-padded width (n / 10)) in
    let there = less-padded width (m / 10) (n / 10) (omega arith) (omega arith) in
    let back = less-padded width (n / 10) (m / 10) (omega arith) (omega arith) in
    rw (less-snoc _ _ (48 + m % 10) (48 + n % 10) same, there, back) (ground arith)

-- The largest time that a key can hold.
abbrev pub max_time : ℕ
max_time = 2 ^ 63 - 1

parse_int-numeral :
    (digits : Bytes) (n : ℕ) → numeral 0 digits ≡ some n → n ≤ max_time → parse_int digits ≡ n
parse_int-numeral [] n e h = cc
parse_int-numeral (c ∷ digits) n e h = rw (parse_int, e) (ground arith)

leading-numeral :
    (acc : ℕ) (digits : Bytes) (n : ℕ) → numeral acc digits ≡ some n → leading acc digits ≡ n
leading-numeral acc [] n e = cc
leading-numeral acc (c ∷ digits) n e = elim (Option-cases (digit c)) [
  | inl none_there ↦ absurd (let bad : none ≡ some n = rw (numeral, none_there) at e in cc)
  | inr (value, there) ↦
      rw (leading, there) (leading-numeral (acc * 10 + value) digits n (rw (numeral, there) at e))
]

digit-not_blank : (c d : ℕ) → digit c ≡ some d → nat_beq c b' ' ≡ false
digit-not_blank c d e = ground arith

scan_int-numeral :
    (digits : Bytes) (n : ℕ)
    → numeral 0 digits ≡ some n
    → 1 ≤ length digits
    → n ≤ max_time
    → scan_int digits ≡ some n
scan_int-numeral [] n e some_digit h = absurd (omega arith)
scan_int-numeral (c ∷ digits) n e some_digit h = elim (Option-cases (digit c)) [
  | inl none_there ↦ absurd (let bad : none ≡ some n = rw (numeral, none_there) at e in cc)
  | inr (value, there) ↦
      let all : leading value digits ≡ n = leading-numeral value digits n (
        let zero_first : 0 * 10 + value ≡ value = omega arith in
        subst (λ k. numeral k digits ≡ some n) zero_first (rw (numeral, there) at e)) in
      let fits : leb n max_time ≡ true = ground arith in
      rw (scan_int, digit-not_blank c value there, there, all, fits) refl
]

pub drop-append : (prefix rest : Bytes) → drop (length prefix) (prefix ++ rest) ≡ rest
drop-append [] rest = refl
drop-append (p ∷ prefix) rest = drop-append prefix rest

-- Of a key that ends in the digits of a time from 1970 to 2262, those digits, read with ParseInt
-- after the prefix or with Sscanf from the last twenty bytes, give back that time.
pub parse_int-ts_key :
    (prefix : Bytes) (ts : ℕ)
    → ts ≤ max_time
    → (parse_int (drop (length prefix) (ts_key prefix ts)) ≡ ts)
      × (length (ts_key prefix ts) ≡ length prefix + 20)
      × (scan_int (drop (length (ts_key prefix ts) - 20) (ts_key prefix ts)) ≡ some ts)
parse_int-ts_key prefix ts h =
    let digits = numeral-padded 20 ts (omega arith) in
    let wide = length-padded 20 ts in
    let long : length (ts_key prefix ts) ≡ length prefix + 20 =
      length-append prefix (padded 20 ts) ∙ ap (λ k. length prefix + k) wide in
    let at : length (ts_key prefix ts) - 20 ≡ length prefix = omega (arith, long) in
    (
      ap parse_int (drop-append prefix (padded 20 ts))
          ∙ parse_int-numeral (padded 20 ts) ts digits h,
      long,
      ap (λ k. scan_int (drop k (ts_key prefix ts))) at
          ∙ ap scan_int (drop-append prefix (padded 20 ts))
          ∙ scan_int-numeral (padded 20 ts) ts digits (omega (arith, wide)) h,
    )

pub less-append : (prefix a b : Bytes) → less (prefix ++ a) (prefix ++ b) ≡ less a b
less-append [] a b = refl
less-append (p ∷ prefix) a b = ground (arith, less-append prefix a b)

-- Two keys of one series are in the byte order of the database exactly if their times, from 1970 to
-- 2262, are in that order.
pub less-ts_key :
    (prefix : Bytes) (m n : ℕ)
    → m ≤ max_time
    → n ≤ max_time
    → less (ts_key prefix m) (ts_key prefix n) ≡ ltb m n
less-ts_key prefix m n hm hn =
    less-append prefix (padded 20 m) (padded 20 n) ∙ less-padded 20 m n (omega arith) (omega arith)

pub has_prefix-append : (prefix rest : Bytes) → has_prefix (prefix ++ rest) prefix ≡ true
has_prefix-append [] rest = refl
has_prefix-append (p ∷ prefix) rest = ground (arith, has_prefix-append prefix rest)

pub prefix-append :
    (key prefix : Bytes) → has_prefix key prefix ≡ true → key ≡ prefix ++ drop (length prefix) key
prefix-append key [] h = refl
prefix-append [] (p ∷ prefix) h = absurd (cc)
prefix-append (b ∷ key) (p ∷ prefix) h = elim (Bool-cases (nat_beq b p)) [
  | inl same ↦
      let e : b ≡ p = ground arith in
      rw e (ap (λ l. p ∷ l) (prefix-append key prefix (rw (has_prefix, same) at h)))
  | inr other ↦ absurd (let bad : false ≡ true = rw (has_prefix, other) at h in cc)
]

-- A key is not after itself, and an order of keys passes on.
pub less_irrefl : (a : Bytes) → less a a ≡ false
less_irrefl [] = refl
less_irrefl (x ∷ a) = ground (arith, less_irrefl a)

pub less_trans : (a b c : Bytes) → less a b ≡ true → less b c ≡ true → less a c ≡ true
less_trans [] [] c h k = absurd (cc)
less_trans [] (y ∷ b) [] h k = absurd (cc)
less_trans [] (y ∷ b) (z ∷ c) h k = refl
less_trans (x ∷ a) [] c h k = absurd (cc)
less_trans (x ∷ a) (y ∷ b) [] h k = absurd (cc)
less_trans (x ∷ a) (y ∷ b) (z ∷ c) h k = ground (arith, less_trans a b c)

-- Two keys are equal, or one is before the other.
pub less_total : (a b : Bytes) → less a b ≡ false → less b a ≡ false → a ≡ b
less_total [] [] h k = refl
less_total [] (y ∷ b) h k = absurd (cc)
less_total (x ∷ a) [] h k = absurd (cc)
less_total (x ∷ a) (y ∷ b) h k = ground (arith, less_total a b)
