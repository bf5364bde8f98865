-- ===== src/Prelude/Lists.antt =====
-- Lists measured by native numbers, and predicates on all their elements.
use Prim.Native.Nat.{ℕ, suc, ◌+◌, ◌≤◌}
use mathlib.Core.Path.{◌≡◌, refl, subst}
use mathlib.Core.Bool.{Bool, true, false}
use mathlib.Core.Logic.{inl, inr}
use mathlib.Core.Option.{Option, none, some}
use mathlib.Core.List.{List, [], ◌∷◌, ◌++◌}
use native.Mathlib.Omega.{arith}
use dishflow_glm.Prelude.Tests.{if◌then◌else◌, Bool-cases}

module _ {ℓ} {A : Type ℓ} where
  abbrev pub length : List A → ℕ
  length [] = 0
  length (x ∷ xs) = suc (length xs)

  -- A statement about every element; it computes to a tuple.
  abbrev pub All {κ} : (A → Type κ) → List A → Type κ
  All P [] = Unit
  All P (x ∷ xs) = P x × All P xs

  pub All-append {κ} : (P : A → Type κ) (xs ys : List A) → All P xs → All P ys → All P (xs ++ ys)
  All-append P [] ys p q = q
  All-append P (x ∷ xs) ys (p, ps) q = (p, All-append P xs ys ps q)

  pub All-map {κ} : {P Q : A → Type κ} (xs : List A) → ((x : A) → P x → Q x) → All P xs → All Q xs
  All-map [] f ps = tt
  All-map (x ∷ xs) f (p, ps) = (f x p, All-map xs f ps)

  pub length-append : (xs ys : List A) → length (xs ++ ys) ≡ length xs + length ys
  length-append [] ys = omega arith
  length-append (x ∷ xs) ys = omega (arith, length-append xs ys)

  -- The first element that passes a test: `SELECT ... WHERE` on a unique key.
  abbrev pub find? : (A → Bool) → List A → Option A
  find? p [] = none
  find? p (x ∷ xs) = if p x then some x else find? p xs

  -- `UPDATE ... SET ... WHERE`.
  abbrev pub update_where : (A → Bool) → (A → A) → List A → List A
  update_where p f [] = []
  update_where p f (x ∷ xs) = (if p x then f x else x) ∷ update_where p f xs

  pub length-update_where :
      (p : A → Bool) (f : A → A) (xs : List A) → length (update_where p f xs) ≡ length xs
  length-update_where p f [] = refl
  length-update_where p f (x ∷ xs) = omega (arith, length-update_where p f xs)

  -- `SELECT COUNT(*) ... WHERE`.
  abbrev pub count : (A → Bool) → List A → ℕ
  count p [] = 0
  count p (x ∷ xs) = (if p x then 1 else 0) + count p xs

-- An update that keeps a test's answer updates what the test finds.
pub find?-update_where {ℓ} :
    {A : Type ℓ} (p q : A → Bool) (f : A → A) (xs : List A) {x : A}
    → ((y : A) → p (f y) ≡ p y)
    → find? p xs ≡ some x
    → find? p (update_where q f xs) ≡ some (if q x then f x else x)
find?-update_where p q f [] same h = absurd (cc)
find?-update_where p q f (y ∷ ys) {x} same h = elim (Bool-cases (p y)) [
  | inl e ↦
      let found : find? p (y ∷ ys) ≡ some y = rw e refl in
      let this : y ≡ x = cc in
      elim (Bool-cases (q y)) [
        | inl g ↦ rw (g, same y, e, ← this, g) refl
        | inr g ↦ rw (g, e, ← this, g) refl
      ]
  | inr e ↦
      let rest : find? p ys ≡ some x = rw e at h in
      let later = find?-update_where p q f ys same rest in
      elim (Bool-cases (q y)) [ inl g ↦ rw (g, same y, e) later | inr g ↦ rw (g, e) later ]
]

pub find?_holds {ℓ} :
    {A : Type ℓ} (p : A → Bool) (xs : List A) {x : A} → find? p xs ≡ some x → p x ≡ true
find?_holds p [] h = absurd (cc)
find?_holds p (y ∷ ys) {x} h = elim (Bool-cases (p y)) [
  | inl e ↦ let found : some y ≡ some x = rw e at h in let this : y ≡ x = cc in rw (← this) e
  | inr e ↦ find?_holds p ys (rw e at h)
]

-- An update that keeps what a test reads keeps the count.
pub count-update_where {ℓ} :
    {A : Type ℓ} (p q : A → Bool) (f : A → A) (xs : List A)
    → ((x : A) → p (f x) ≡ p x)
    → count p (update_where q f xs) ≡ count p xs
count-update_where p q f [] same = refl
count-update_where p q f (x ∷ xs) same =
    let rest = count-update_where p q f xs same in
    elim (Bool-cases (q x)) [ inl e ↦ rw (e, same x, rest) refl | inr e ↦ rw (e, rest) refl ]

pub find?-none-count {ℓ} :
    {A : Type ℓ} (p : A → Bool) (xs : List A) → find? p xs ≡ none → count p xs ≡ 0
find?-none-count p [] h = refl
find?-none-count p (x ∷ xs) h = elim (Bool-cases (p x)) [
  | inl e ↦ absurd (let g : some x ≡ none = rw e at h in cc)
  | inr e ↦ rw e (omega (arith, find?-none-count p xs (rw e at h)))
]

-- What holds of all rows after an update: the rows that it leaves, and those that it writes.
pub All-update_where {ℓ κ} :
    {A : Type ℓ} {P Q : A → Type κ} (q : A → Bool) (f : A → A) (xs : List A)
    → ((x : A) → P x → Q x)
    → ((x : A) → q x ≡ true → P x → Q (f x))
    → All P xs
    → All Q (update_where q f xs)
All-update_where q f [] leaves writes ps = tt
All-update_where q f (x ∷ xs) leaves writes (p, ps) =
    let rest = All-update_where q f xs leaves writes ps in
    elim (Bool-cases (q x)) [ inl e ↦ rw e (writes x e p, rest) | inr e ↦ rw e (leaves x p, rest) ]

pub count-weaker {ℓ} :
    {A : Type ℓ} (p q : A → Bool) (xs : List A)
    → ((x : A) → p x ≡ true → q x ≡ true)
    → count p xs ≤ count q xs
count-weaker p q [] h = omega arith
count-weaker p q (x ∷ xs) h =
    let rest = count-weaker p q xs h in
    elim (Bool-cases (p x)) [
      | inl e ↦ rw (e, h x e) (omega (arith, rest))
      | inr e ↦ rw e (omega (arith, rest))
    ]

pub All-both {ℓ κ μ} :
    {A : Type ℓ} (P : A → Type κ) (Q : A → Type μ) (xs : List A)
    → All P xs
    → All Q xs
    → All (λ x. P x × Q x) xs
All-both P Q [] ps qs = tt
All-both P Q (x ∷ xs) (p, ps) (q, qs) = ((p, q), All-both P Q xs ps qs)

-- Nothing to show of the rows that pass a test, where none does.
pub count-zero-All {ℓ κ} :
    {A : Type ℓ} (p : A → Bool) (Q : A → Type κ) (xs : List A)
    → count p xs ≡ 0
    → All (λ x. p x ≡ true → Q x) xs
count-zero-All p Q [] h = tt
count-zero-All p Q (x ∷ xs) h = elim (Bool-cases (p x)) [
  | inl e ↦ absurd (let bad = rw e at h in omega (arith, bad))
  | inr e ↦ (λ yes. absurd (cc), count-zero-All p Q xs (let g = rw e at h in omega (arith, g)))
]

pub find?-count {ℓ} :
    {A : Type ℓ} (p r : A → Bool) (xs : List A) {s : A}
    → find? p xs ≡ some s
    → r s ≡ true
    → 1 ≤ count r xs
find?-count p r [] h this = absurd (cc)
find?-count p r (x ∷ xs) {s} h this = elim (Bool-cases (p x)) [
  | inl e ↦
      let found : some x ≡ some s = rw e at h in
      let same : x ≡ s = cc in rw (same, this) (omega arith)
  | inr e ↦ let rest = find?-count p r xs (rw e at h) this in omega (arith, rest)
]

-- A row that is found, and is the only one of its key.
pub find?-only {ℓ} :
    {A : Type ℓ} (p r : A → Bool) (xs : List A) {s : A}
    → find? p xs ≡ some s
    → r s ≡ true
    → count r xs ≤ 1
    → All (λ x. r x ≡ true → x ≡ s) xs
find?-only p r [] h this one = tt
find?-only p r (x ∷ xs) {s} h this one = elim (Bool-cases (p x)) [
  | inl e ↦
      let found : some x ≡ some s = rw e at h in
      let same : x ≡ s = cc in
      let here : r x ≡ true = rw same this in
      let some_one : 1 + count r xs ≤ 1 = rw here at one in
      (λ k. same, count-zero-All r (λ y. y ≡ s) xs (omega (arith, some_one)))
  | inr e ↦
      let rest = rw e at h in
      let there = find?-count p r xs rest this in
      let others = find?-only p r xs rest this (omega (arith, one)) in
      (
        λ k. absurd (let two : 1 + count r xs ≤ 1 = rw k at one in omega (arith, two, there)),
        others,
      )
]

pub find?-All {ℓ κ} :
    {A : Type ℓ} (P : A → Type κ) (p : A → Bool) (xs : List A) {s : A}
    → All P xs
    → find? p xs ≡ some s
    → P s
find?-All P p [] all h = absurd (cc)
find?-All P p (x ∷ xs) {s} (this, others) h = elim (Bool-cases (p x)) [
  | inl e ↦ let found : some x ≡ some s = rw e at h in let same : x ≡ s = cc in subst P same this
  | inr e ↦ find?-All P p xs others (rw e at h)
]

-- The same, where it matters that the other rows are not updated.
pub All-update_cases {ℓ κ} :
    {A : Type ℓ} {P Q : A → Type κ} (q : A → Bool) (f : A → A) (xs : List A)
    → ((x : A) → q x ≡ false → P x → Q x)
    → ((x : A) → q x ≡ true → P x → Q (f x))
    → All P xs
    → All Q (update_where q f xs)
All-update_cases q f [] leaves writes ps = tt
All-update_cases q f (x ∷ xs) leaves writes (p, ps) =
    let rest = All-update_cases q f xs leaves writes ps in
    elim (Bool-cases (q x)) [
      | inl e ↦ rw e (writes x e p, rest)
      | inr e ↦ rw e (leaves x e p, rest)
    ]

-- Two updates of the same rows.
pub update_where-twice {ℓ} :
    {A : Type ℓ} (p : A → Bool) (f g : A → A) (xs : List A)
    → ((x : A) → p (f x) ≡ p x)
    → update_where p g (update_where p f xs) ≡ update_where p (λ x. g (f x)) xs
update_where-twice p f g [] same = refl
update_where-twice p f g (x ∷ xs) same =
    let rest = update_where-twice p f g xs same in
    elim (Bool-cases (p x)) [ inl e ↦ rw (e, same x, e, rest) refl | inr e ↦ rw (e, e, rest) refl ]
