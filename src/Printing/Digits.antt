-- ===== src/Printing/Digits.antt =====
-- internal/printing/store.go: what is printed, read back.
use mathlib.Core.List.{reverse, reverse-cons}
use dishflow_glm.Prelude.{
  ℕ, zero, suc, ℤ, pos, negsuc, Within, ◌+◌, ◌-◌, ◌*◌, ◌/◌, ◌%◌, ◌^◌, ◌≤◌, ◌<◌, ltb, leb, ◌==◌, ◌≡◌,
  refl, arith, if◌then◌else◌, Bool, true, false, ◌&&◌, List, [], ◌∷◌, ◌++◌, All, All-append, ◌∙◌,
  ap, Bool-cases, inl, inr, ==_iff,
}
use dishflow_glm.Printing.Receipt.{Text, codes, digits_of, itoa64, cents_to_yuan}

abbrev pub IsDigit : ℕ → Type 0
IsDigit c = (48 ≤ c) × (c ≤ 57)

-- Reading, as a person does: the digits from the left.
abbrev pub read_digits : ℕ → Text → ℕ
read_digits acc [] = acc
read_digits acc (c ∷ s) = read_digits (acc * 10 + (c - 48)) s

abbrev pub read_int : Text → ℤ
read_int [] = pos 0
read_int (c ∷ s) =
    if c == b'-'
    then (elim (read_digits 0 s) [ zero ↦ pos 0 | suc n ↦ negsuc n ])
    else pos (read_digits 0 (c ∷ s))

-- The value of digits whose first is the last of the number.
abbrev from_last : Text → ℕ
from_last [] = 0
from_last (c ∷ s) = (c - 48) + 10 * from_last s

digits_of-IsDigit : (fuel n : ℕ) → All IsDigit (digits_of fuel n)
unfolding digits_of
digits_of-IsDigit zero n = tt
digits_of-IsDigit (suc fuel) n = elim (Bool-cases (n == 0)) [
  | inl e ↦ rw (e, digits_of) tt
  | inr e ↦ rw (e, digits_of) (omega arith, digits_of-IsDigit fuel (n / 10))
]

abbrev power_of_ten : ℕ → ℕ
power_of_ten zero = 1
power_of_ten (suc k) = 10 * power_of_ten k

from_last-digits_of : (fuel n : ℕ) → n < power_of_ten fuel → from_last (digits_of fuel n) ≡ n
unfolding digits_of
from_last-digits_of zero n h = omega arith
from_last-digits_of (suc fuel) n h = elim (Bool-cases (n == 0)) [
  | inl e ↦ rw (e, digits_of) (ground arith)
  | inr e ↦
      let rest = from_last-digits_of fuel (n / 10) (omega arith) in
      rw (e, digits_of) (omega (arith, rest))
]

read_digits-append :
    (acc : ℕ) (s t : Text) → read_digits acc (s ++ t) ≡ read_digits (read_digits acc s) t
read_digits-append acc [] t = refl
read_digits-append acc (c ∷ s) t = read_digits-append (acc * 10 + (c - 48)) s t

read_digits-reverse : (s : Text) → read_digits 0 (reverse s) ≡ from_last s
read_digits-reverse [] = refl
read_digits-reverse (c ∷ s) =
    ap (read_digits 0) (reverse-cons c s)
    ∙ read_digits-append 0 (reverse s) (c ∷ [])
    ∙ omega (arith, read_digits-reverse s)

All-reverse {ℓ κ} : {A : Type ℓ} (P : A → Type κ) (xs : List A) → All P xs → All P (reverse xs)
All-reverse P [] ps = tt
All-reverse P (x ∷ xs) (p, ps) =
    rw (reverse-cons x xs) (All-append P (reverse xs) (x ∷ []) (All-reverse P xs ps) (p, tt))

read_int-digits : (s : Text) → All IsDigit s → read_int s ≡ pos (read_digits 0 s)
read_int-digits [] d = refl
read_int-digits (c ∷ s) (d, ds) = let other : (c == b'-') ≡ false = ground arith in rw other refl

digits_of-IsDigits : (n : ℕ) → All IsDigit (reverse (digits_of 19 n))
digits_of-IsDigits n = All-reverse IsDigit (digits_of 19 n) (digits_of-IsDigit 19 n)

read_digits_of : (n : ℕ) → n < 10 ^ 19 → read_digits 0 (reverse (digits_of 19 n)) ≡ n
read_digits_of n h = read_digits-reverse (digits_of 19 n) ∙ from_last-digits_of 19 n h

-- Reading what `itoa64` prints gives the number back, for all 64-bit integers but the smallest.
pub read_int-itoa64 : (z : ℤ) → Within (2 ^ 63 - 1) z → read_int (itoa64 z) ≡ z
unfolding itoa64
read_int-itoa64 (pos n) w = elim (Bool-cases (n == 0)) [
  | inl e ↦ rw e (ground arith)
  | inr e ↦ rw e (
      read_int-digits (reverse (digits_of 19 n)) (digits_of-IsDigits n)
      ∙ ap pos (read_digits_of n (omega arith)))
]
read_int-itoa64 (negsuc n) w =
    let small : (suc n == 2 ^ 63) ≡ false = ground arith in
    let value = read_digits_of (suc n) (omega arith) in rw (small, value) refl

-- The smallest one is printed without digits.
itoa64_min : itoa64 (negsuc (2 ^ 63 - 1)) ≡ b'-' ∷ []
unfolding itoa64
itoa64_min = refl

-- A price as it is read: yuan, and after the point tenths and hundredths.
abbrev pub is_digit : ℕ → Bool
is_digit c = leb 48 c && leb c 57

abbrev pub read_cents : Text → ℕ
read_cents [] = 0
read_cents (a ∷ []) = (a - 48) * 10
read_cents (a ∷ b ∷ s) = if is_digit b then (a - 48) * 10 + (b - 48) else (a - 48) * 10

abbrev pub read_price : ℕ → Text → ℕ
read_price acc [] = acc * 100
read_price acc (c ∷ s) =
    if c == b'.' then acc * 100 + read_cents s else read_price (acc * 10 + (c - 48)) s

read_price-point :
    (acc : ℕ) (s rest : Text)
    → All IsDigit s
    → read_price acc (s ++ b'.' ∷ rest) ≡ read_digits acc s * 100 + read_cents rest
read_price-point acc [] rest d = refl
read_price-point acc (c ∷ s) rest (d, ds) =
    let other : (c == b'.') ≡ false = ground arith in
    rw other (read_price-point (acc * 10 + (c - 48)) s rest ds)

itoa64-digits :
    (n : ℕ) → n < 10 ^ 19 → All IsDigit (itoa64 (pos n)) × (read_digits 0 (itoa64 (pos n)) ≡ n)
unfolding itoa64
itoa64-digits n h = elim (Bool-cases (n == 0)) [
  | inl e ↦ rw e (omega arith, ground arith)
  | inr e ↦ rw e (digits_of-IsDigits n, read_digits_of n h)
]

-- The remainders below a bound, one after another.
checked : (ℕ → Bool) → ℕ → Bool
checked test zero = true
checked test (suc r) = if test r then checked test r else false

checked_lt : (test : ℕ → Bool) (bound r : ℕ) → r < bound → checked test bound ≡ true → test r ≡ true
unfolding checked
checked_lt test zero r l h = absurd (omega arith)
checked_lt test (suc b) r l h = elim (Bool-cases (r == b)) [
  | inl e ↦ let last : r ≡ b = ground arith in rw last (ground arith)
  | inr e ↦ checked_lt test b r (ground arith) (ground arith)
]

abbrev reads_well : ℕ → Bool
unfolding itoa64
reads_well r = read_cents (itoa64 (pos r) ++ codes "元") == (if ltb r 10 then 10 * r else r)

cents_table : checked reads_well 100 ≡ true
unfolding checked itoa64
cents_table = refl

read_cents-itoa64 :
    (r : ℕ) → r < 100 → read_cents (itoa64 (pos r) ++ codes "元") ≡ (if ltb r 10 then 10 * r else r)
unfolding itoa64
read_cents-itoa64 r h =
    (==_iff (read_cents (itoa64 (pos r) ++ codes "元")) (if ltb r 10 then 10 * r else r)).0
      (checked_lt reads_well 100 r h cents_table)

-- A price of no fen, or of ten or more, is printed so that it reads as what it is; with one to nine fen it reads
-- as ten times as many fen: 105 fen are printed as `1.5元`.
pub read_price-cents_to_yuan :
    (n : ℕ)
    → n < 2 ^ 63
    → read_price 0 (cents_to_yuan (pos n)) ≡ n + (if ltb (n % 100) 10 then 9 * (n % 100) else 0)
unfolding cents_to_yuan
read_price-cents_to_yuan n h =
    let (whole, value) = itoa64-digits (n / 100) (omega arith) in
    let cents = read_cents-itoa64 (n % 100) (omega arith) in
    read_price-point 0 (itoa64 (pos (n / 100))) (itoa64 (pos (n % 100)) ++ codes "元") whole
    ∙ ground arith
