-- ===== src/Pricing/Bounds.antt =====
-- internal/pricing/calc.go: within sane limits no 64-bit operation of `Price` overflows, so its amounts
-- are the exact sums.
use dishflow_glm.Prelude.{
  ℕ, ℤ, pos, negsuc, suc, ◌+◌, ◌*◌, ◌^◌, ◌≤◌, ◌<◌, ◌+ℤ◌, ◌-ℤ◌, ◌*ℤ◌, Within, wrap_id, add64, sub64,
  mul64, int_laws, ◌≡◌, refl, ◌∙◌, ap, arith, List, [], ◌∷◌, length,
}
use dishflow_glm.Pricing.Types.{Input}
use dishflow_glm.Pricing.Price.{
  sink, sort_from, reverse_onto, sort_int64, modifier_of, add_modifiers,
}

module _ (n m : ℕ) (a b : ℤ) (p : Within n a) (q : Within m b) where
  pub Within-add : Within (n + m) (a +ℤ b)
  unfolding ◌+ℤ◌
  Within-add = ground arith

  pub Within-sub : Within (n + m) (a -ℤ b)
  unfolding ◌-ℤ◌
  Within-sub = ground arith

  pub add64_exact : n + m < 2 ^ 63 → add64 a b ≡ a +ℤ b
  unfolding add64
  add64_exact h = wrap_id (a +ℤ b) (omega (arith, Within-add))

  pub sub64_exact : n + m < 2 ^ 63 → sub64 a b ≡ a -ℤ b
  unfolding sub64
  sub64_exact h = wrap_id (a -ℤ b) (omega (arith, Within-sub))

pub Within-mul : (n m k : ℕ) (a : ℤ) → Within n a → k ≤ m → Within (n * m) (a *ℤ pos k)
unfolding ◌*ℤ◌
Within-mul n m k (pos a) p h = grind arith
Within-mul n m k (negsuc a) p h = grind arith

pub mul64_exact :
    (n m k : ℕ) (a : ℤ) → Within n a → k ≤ m → n * m < 2 ^ 63 → mul64 a (pos k) ≡ a *ℤ pos k
unfolding mul64
mul64_exact n m k a p h l = wrap_id (a *ℤ pos k) (omega (arith, Within-mul n m k a p h))

-- The exact sum of the modifiers of some options.
unfoldable pub modifiers : Input → List ℕ → ℤ
modifiers in_ [] = pos 0
modifiers in_ (oid ∷ oids) = modifier_of in_ oid +ℤ modifiers in_ oids

modifiers-sink :
    (in_ : Input) (x : ℕ) (ps : List ℕ)
    → modifiers in_ (sink x ps) ≡ modifier_of in_ x +ℤ modifiers in_ ps
unfolding modifiers sink
modifiers-sink in_ x [] = refl
modifiers-sink in_ x (p ∷ ps) = grind (int_laws, modifiers-sink in_ x ps)

modifiers-sort_from :
    (in_ : Input) (ps xs : List ℕ)
    → modifiers in_ (sort_from ps xs) ≡ modifiers in_ ps +ℤ modifiers in_ xs
unfolding modifiers sort_from
modifiers-sort_from in_ ps [] = omega int_laws
modifiers-sort_from in_ ps (x ∷ xs) =
    modifiers-sort_from in_ (sink x ps) xs
    ∙ ap (λ z. z +ℤ modifiers in_ xs) (modifiers-sink in_ x ps)
    ∙ omega int_laws

modifiers-reverse_onto :
    (in_ : Input) (xs ys : List ℕ)
    → modifiers in_ (reverse_onto xs ys) ≡ modifiers in_ xs +ℤ modifiers in_ ys
unfolding modifiers
modifiers-reverse_onto in_ [] ys = omega int_laws
modifiers-reverse_onto in_ (x ∷ xs) ys = modifiers-reverse_onto in_ xs (x ∷ ys) ∙ omega int_laws

pub modifiers-sort_int64 :
    (in_ : Input) (xs : List ℕ) → modifiers in_ (sort_int64 xs) ≡ modifiers in_ xs
unfolding sort_int64 modifiers
modifiers-sort_int64 in_ xs =
    modifiers-reverse_onto in_ (sort_from [] xs) []
    ∙ ap (λ z. z +ℤ pos 0) (modifiers-sort_from in_ [] xs)
    ∙ omega int_laws

length-sink : (x : ℕ) (ps : List ℕ) → length (sink x ps) ≡ suc (length ps)
unfolding sink
length-sink x [] = refl
length-sink x (p ∷ ps) = ground (arith, length-sink x ps)

length-sort_from : (ps xs : List ℕ) → length (sort_from ps xs) ≡ length ps + length xs
unfolding sort_from
length-sort_from ps [] = omega arith
length-sort_from ps (x ∷ xs) = omega (arith, length-sort_from (sink x ps) xs, length-sink x ps)

length-reverse_onto : (xs ys : List ℕ) → length (reverse_onto xs ys) ≡ length xs + length ys
length-reverse_onto [] ys = omega arith
length-reverse_onto (x ∷ xs) ys = omega (arith, length-reverse_onto xs (x ∷ ys))

pub length-sort_int64 : (xs : List ℕ) → length (sort_int64 xs) ≡ length xs
unfolding sort_int64
length-sort_int64 xs =
    omega (arith, length-reverse_onto (sort_from [] xs) [], length-sort_from [] xs)

-- Ten million yuan, in cents.
abbrev pub price_limit : ℕ
price_limit = 1_000_000_000

module _ (in_ : Input) (small : (oid : ℕ) → Within price_limit (modifier_of in_ oid)) where
  pub add_modifiers_exact :
      (n : ℕ) (unit : ℤ) (oids : List ℕ)
      → Within n unit
      → n + length oids * price_limit < 2 ^ 63
      → (add_modifiers in_ unit oids ≡ unit +ℤ modifiers in_ oids)
        × Within (n + length oids * price_limit) (add_modifiers in_ unit oids)
  unfolding add_modifiers modifiers
  add_modifiers_exact n unit [] w h = omega int_laws
  add_modifiers_exact n unit (oid ∷ oids) w h =
      let m = modifier_of in_ oid in
      let sum = add64 unit m in
      let exact : sum ≡ unit +ℤ m = add64_exact n price_limit unit m w (small oid) (omega arith) in
      let wide : Within (n + price_limit) sum =
        rw exact (Within-add n price_limit unit m w (small oid)) in
      let (e, bound) = add_modifiers_exact (n + price_limit) sum oids wide (omega arith) in
      let moved : sum +ℤ modifiers in_ oids ≡ unit +ℤ (m +ℤ modifiers in_ oids) =
        ap (λ z. z +ℤ modifiers in_ oids) exact ∙ omega int_laws in
      (e ∙ moved, (omega arith, omega arith))
