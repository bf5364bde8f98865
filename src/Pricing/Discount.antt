-- ===== src/Pricing/Discount.antt =====
-- internal/pricing/calc.go: the choice between the best promotion and the coupon.
use dishflow_glm.Prelude.{
  ℤ, pos, ◌≤ℤ◌, ltb_ℤ, ◌≡◌, refl, sym, subst, arith, if◌then◌else◌, ok, true, ◌&&◌, Option, none,
  some, List, [], ◌∷◌, ◌++◌, ◌⊎◌, inl, inr, Bool-cases,
}
use dishflow_glm.Pricing.Types.{Input, PromotionInput, CouponInput, PriceResult}
use dishflow_glm.Pricing.Price.{
  is_eligible, is_better, best_promotion_from, best_promotion, promotion_discount, coupon_discount,
  choose_discount, amount_of, is_coupon, settle, price, add_items, no_totals, Totals, shown_reason,
}
use dishflow_glm.Pricing.Settle.{price_of, price_inv}

abbrev pub larger : ℤ → ℤ → ℤ
larger a b = if ltb_ℤ a b then b else a

-- The loop only ever replaces the best promotion by a better one.
best_promotion_from_mono :
    (base : ℤ) (best : Option PromotionInput) (ps : List PromotionInput)
    → promotion_discount best ≤ℤ promotion_discount (best_promotion_from base best ps)
unfolding best_promotion_from
best_promotion_from_mono base best [] = omega arith
best_promotion_from_mono base none (p ∷ ps) =
    ground (arith, best_promotion_from_mono base (some p) ps, best_promotion_from_mono base none ps)
best_promotion_from_mono base (some b) (p ∷ ps) =
    ground
      (arith, best_promotion_from_mono base (some p) ps, best_promotion_from_mono base (some b) ps)

le-best_promotion_from :
    (base : ℤ) (best : Option PromotionInput) (xs : List PromotionInput) (p : PromotionInput)
    (ys : List PromotionInput)
    → is_eligible base p ≡ true
    → p.discount_cents ≤ℤ promotion_discount (best_promotion_from base best (xs ++ p ∷ ys))
unfolding best_promotion_from
le-best_promotion_from base none [] p ys h =
    ground (arith, best_promotion_from_mono base (some p) ys)
le-best_promotion_from base (some b) [] p ys h =
    ground
      (arith, best_promotion_from_mono base (some p) ys, best_promotion_from_mono base (some b) ys)
le-best_promotion_from base best (x ∷ xs) p ys h =
    le-best_promotion_from base (if is_eligible base x && is_better x best then some x else best) xs
      p ys h

-- The best promotion is at least as good as every eligible one.
pub le-best_promotion :
    (base : ℤ) (xs : List PromotionInput) (p : PromotionInput) (ys : List PromotionInput)
    → is_eligible base p ≡ true
    → p.discount_cents ≤ℤ promotion_discount (best_promotion base (xs ++ p ∷ ys))
unfolding best_promotion
le-best_promotion base xs p ys h = le-best_promotion_from base none xs p ys h

abbrev pub Member : PromotionInput → List PromotionInput → Type 0
Member p [] = ⊥
Member p (x ∷ xs) = (p ≡ x) ⊎ Member p xs

best_promotion_from-Member :
    (base : ℤ) (best : Option PromotionInput) (ps : List PromotionInput) (b : PromotionInput)
    → best_promotion_from base best ps ≡ some b
    → (best ≡ some b) ⊎ (Member b ps × (is_eligible base b ≡ true))
unfolding best_promotion_from
best_promotion_from-Member base best [] b h = inl h
best_promotion_from-Member base best (p ∷ ps) b h =
    elim (Bool-cases (is_eligible base p && is_better p best)) [
      | inl taken ↦ ground (arith, best_promotion_from-Member base (some p) ps b)
      | inr left ↦ ground (arith, best_promotion_from-Member base best ps b)
    ]

-- A best promotion is one of the promotions, and an eligible one.
pub best_promotion-Member :
    (base : ℤ) (ps : List PromotionInput) (b : PromotionInput)
    → best_promotion base ps ≡ some b
    → Member b ps × (is_eligible base b ≡ true)
unfolding best_promotion
best_promotion-Member base ps b h = elim (best_promotion_from-Member base none ps b h) [
  | inl e ↦ absurd (cc)
  | inr m ↦ m
]

-- Exactly the larger of the two discounts is taken, never their sum, and nothing below zero; the
-- coupon is taken only if its discount is strictly larger than the promotion's.
pub choose_discount-larger :
    (base : ℤ) (best : Option PromotionInput) (named : Option CouponInput)
    → let promo = promotion_discount best in
      let cut = coupon_discount base named in
      (amount_of (choose_discount base best named) ≡ larger (pos 0) (larger promo cut))
      × (is_coupon (choose_discount base best named) ≡ (ltb_ℤ promo cut && ltb_ℤ (pos 0) cut))
unfolding choose_discount coupon_discount
choose_discount-larger base none none = ground arith
choose_discount-larger base none (some c) = ground arith
choose_discount-larger base (some p) none = ground arith
choose_discount-larger base (some p) (some c) = ground arith

-- A discount that `price` may have used: the customer saves at least that much or pays nothing.
abbrev pub Saves : PriceResult → ℤ → Type 0
Saves r a = (a ≤ℤ r.discount_cents) ⊎ (r.payable_cents ≡ pos 0)

settle-Saves :
    (in_ : Input) (t : Totals) (best : Option PromotionInput) (named : Option CouponInput)
    (base a : ℤ)
    → (a ≤ℤ promotion_discount best) ⊎ (a ≤ℤ coupon_discount base named)
    → let chosen = choose_discount base best named in
      Saves (settle in_ t chosen (shown_reason base named chosen)) a
unfolding settle
settle-Saves in_ t best named base a h = ground (arith, choose_discount-larger base best named)

price_of-item_amount :
    (in_ : Input)
    → (price_of in_).item_amount_cents ≡ (add_items in_ no_totals in_.cart).item_amount
unfolding price_of settle
price_of-item_amount in_ = refl

-- No promotion that the order qualifies for would have given the customer a lower price: the discount
-- is at least that promotion's, or nothing is payable.
pub price-Saves_promotion :
    (in_ : Input) (xs : List PromotionInput) (p : PromotionInput) (ys : List PromotionInput)
    {r : PriceResult}
    → price in_ ≡ ok r
    → in_.promotions ≡ xs ++ p ∷ ys
    → is_eligible r.item_amount_cents p ≡ true
    → Saves r p.discount_cents
unfolding price_of
price-Saves_promotion in_ xs p ys {r} h e el =
    let t = add_items in_ no_totals in_.cart in
    let base = t.item_amount in
    let best = best_promotion base in_.promotions in
    let same : r ≡ price_of in_ = (price_inv in_ h).1 in
    let eligible : is_eligible base p ≡ true = rw (← price_of-item_amount in_) (rw same at el) in
    let good : p.discount_cents ≤ℤ promotion_discount best =
      subst (λ ps. p.discount_cents ≤ℤ promotion_discount (best_promotion base ps)) (sym e)
        (le-best_promotion base xs p ys eligible) in
    rw same (settle-Saves in_ t best in_.coupon base p.discount_cents (inl good))

-- Nor would the coupon that the customer named.
pub price-Saves_coupon :
    (in_ : Input) {r : PriceResult}
    → price in_ ≡ ok r
    → Saves r (coupon_discount r.item_amount_cents in_.coupon)
unfolding price_of
price-Saves_coupon in_ {r} h =
    let t = add_items in_ no_totals in_.cart in
    let base = t.item_amount in
    let best = best_promotion base in_.promotions in
    let a = coupon_discount base in_.coupon in
    rw ((price_inv in_ h).1, price_of-item_amount in_)
      (settle-Saves in_ t best in_.coupon base a (inr (omega arith)))
