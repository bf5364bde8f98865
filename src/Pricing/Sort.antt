-- ===== src/Pricing/Sort.antt =====
-- internal/pricing/calc.go: `sortInt64` sorts, so the order in which options are picked does not matter.
use dishflow_glm.Prelude.{
  ℕ, ◌+◌, ◌≤◌, ◌<◌, ◌==◌, ◌≡◌, refl, sym, arith, List, [], ◌∷◌, All, count, ℤ,
}
use dishflow_glm.Pricing.Types.{Input}
use dishflow_glm.Pricing.Price.{sink, sort_from, reverse_onto, sort_int64, price_line}

abbrev pub occurrences : ℕ → List ℕ → ℕ
occurrences a xs = count (λ x. a == x) xs

abbrev pub SameItems : List ℕ → List ℕ → Type 0
SameItems xs ys = (a : ℕ) → occurrences a xs ≡ occurrences a ys

abbrev pub IsSorted : List ℕ → Type 0
IsSorted [] = Unit
IsSorted (x ∷ xs) = All (λ y. x ≤ y) xs × IsSorted xs

abbrev IsFalling : List ℕ → Type 0
IsFalling [] = Unit
IsFalling (x ∷ xs) = All (λ y. y ≤ x) xs × IsFalling xs

All-le : (x y : ℕ) (ys : List ℕ) → x ≤ y → All (λ z. z ≤ x) ys → All (λ z. z ≤ y) ys
All-le x y [] h hs = tt
All-le x y (z ∷ zs) h (p, ps) = (omega arith, All-le x y zs h ps)

All-ge : (x y : ℕ) (ys : List ℕ) → x ≤ y → All (λ z. y ≤ z) ys → All (λ z. x ≤ z) ys
All-ge x y [] h hs = tt
All-ge x y (z ∷ zs) h (p, ps) = (omega arith, All-ge x y zs h ps)

occurrences-sink : (a x : ℕ) (ps : List ℕ) → occurrences a (sink x ps) ≡ occurrences a (x ∷ ps)
unfolding sink
occurrences-sink a x [] = refl
occurrences-sink a x (p ∷ ps) = ground (arith, occurrences-sink a x ps)

All-sink : (x n : ℕ) (ps : List ℕ) → x ≤ n → All (λ z. z ≤ n) ps → All (λ z. z ≤ n) (sink x ps)
unfolding sink
All-sink x n [] h hs = (h, tt)
All-sink x n (p ∷ ps) h hs = ground (arith, All-sink x n ps h hs.1)

sink-IsFalling : (x : ℕ) (ps : List ℕ) → IsFalling ps → IsFalling (sink x ps)
unfolding sink
sink-IsFalling x [] h = (tt, tt)
sink-IsFalling x (p ∷ ps) h =
    ground (arith, sink-IsFalling x ps h.1, All-sink x p ps, All-le p x ps)

sort_from-IsFalling : (ps xs : List ℕ) → IsFalling ps → IsFalling (sort_from ps xs)
unfolding sort_from
sort_from-IsFalling ps [] h = h
sort_from-IsFalling ps (x ∷ xs) h = sort_from-IsFalling (sink x ps) xs (sink-IsFalling x ps h)

occurrences-sort_from :
    (a : ℕ) (ps xs : List ℕ) → occurrences a (sort_from ps xs) ≡ occurrences a ps + occurrences a xs
unfolding sort_from
occurrences-sort_from a ps [] = omega arith
occurrences-sort_from a ps (x ∷ xs) =
    omega (arith, occurrences-sort_from a (sink x ps) xs, occurrences-sink a x ps)

occurrences-reverse_onto :
    (a : ℕ) (xs ys : List ℕ)
    → occurrences a (reverse_onto xs ys) ≡ occurrences a xs + occurrences a ys
occurrences-reverse_onto a [] ys = omega arith
occurrences-reverse_onto a (x ∷ xs) ys = omega (arith, occurrences-reverse_onto a xs (x ∷ ys))

-- Every element of the first list is at most every element of the second.
abbrev Below : List ℕ → List ℕ → Type 0
Below xs ys = All (λ x. All (λ y. x ≤ y) ys) xs

Below-cons : (x : ℕ) (xs ys : List ℕ) → All (λ z. z ≤ x) xs → Below xs ys → Below xs (x ∷ ys)
Below-cons x [] ys h b = tt
Below-cons x (z ∷ zs) ys (p, ps) (c, cs) = ((p, c), Below-cons x zs ys ps cs)

reverse_onto-IsSorted :
    (xs ys : List ℕ) → IsFalling xs → IsSorted ys → Below xs ys → IsSorted (reverse_onto xs ys)
reverse_onto-IsSorted [] ys f s b = s
reverse_onto-IsSorted (x ∷ xs) ys f s b =
    reverse_onto-IsSorted xs (x ∷ ys) f.1 (b.0, s) (Below-cons x xs ys f.0 b.1)

Below-nil : (xs : List ℕ) → Below xs []
Below-nil [] = tt
Below-nil (x ∷ xs) = (tt, Below-nil xs)

pub sort_int64-IsSorted : (xs : List ℕ) → IsSorted (sort_int64 xs)
unfolding sort_int64
sort_int64-IsSorted xs =
    let p = sort_from [] xs in
    reverse_onto-IsSorted p [] (sort_from-IsFalling [] xs tt) tt (Below-nil p)

pub occurrences-sort_int64 :
    (a : ℕ) (xs : List ℕ) → occurrences a (sort_int64 xs) ≡ occurrences a xs
unfolding sort_int64
occurrences-sort_int64 a xs =
    omega (arith, occurrences-reverse_onto a (sort_from [] xs) [], occurrences-sort_from a [] xs)

occurs_ge : (x a : ℕ) (ys : List ℕ) → All (λ y. x ≤ y) ys → 0 < occurrences a ys → x ≤ a
occurs_ge x a [] h o = absurd (omega arith)
occurs_ge x a (y ∷ ys) (p, ps) o = ground (arith, occurs_ge x a ys ps)

head_le : (x y : ℕ) (xs ys : List ℕ) → SameItems (x ∷ xs) (y ∷ ys) → IsSorted (y ∷ ys) → y ≤ x
head_le x y xs ys same s = ground (arith, same x, occurs_ge y x ys s.0)

-- Two sorted lists with the same items are the same list.
sorted_unique : (xs ys : List ℕ) → IsSorted xs → IsSorted ys → SameItems xs ys → xs ≡ ys
sorted_unique [] [] s t same = refl
sorted_unique [] (y ∷ ys) s t same = ground (arith, same y)
sorted_unique (x ∷ xs) [] s t same = ground (arith, same x)
sorted_unique (x ∷ xs) (y ∷ ys) s t same =
    let le : y ≤ x = head_le x y xs ys same t in
    let ge : x ≤ y = head_le y x ys xs (λ a. sym (same a)) s in
    let e : x ≡ y = omega arith in
    let rest : SameItems xs ys = λ a. ground (arith, same a) in
    ground (arith, sorted_unique xs ys s.1 t.1 rest)

pub sort_int64_canonical : (xs ys : List ℕ) → SameItems xs ys → sort_int64 xs ≡ sort_int64 ys
sort_int64_canonical xs ys same =
    sorted_unique (sort_int64 xs) (sort_int64 ys) (sort_int64-IsSorted xs) (sort_int64-IsSorted ys)
      (λ a. omega (arith, same a, occurrences-sort_int64 a xs, occurrences-sort_int64 a ys))

-- A line's unit price, amount and option snapshot do not depend on the order in which the customer
-- picked the options.
pub price_line_order :
    (in_ : Input) (sku : ℕ) (quantity : ℤ) (xs ys : List ℕ)
    → SameItems xs ys
    → price_line in_ (record { sku_id = sku; quantity = quantity; option_ids = xs })
      ≡ price_line in_ (record { sku_id = sku; quantity = quantity; option_ids = ys })
unfolding price_line
price_line_order in_ sku quantity xs ys same = rw (sort_int64_canonical xs ys same)
