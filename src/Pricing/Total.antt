-- ===== src/Pricing/Total.antt =====
-- internal/pricing/calc.go: the totals of `Price` are the exact sums, and nothing is lost or invented
-- between the order's value, the discount and what is payable.
use dishflow_glm.Prelude.{
  ℕ, ℤ, pos, ◌+◌, ◌*◌, ◌^◌, ◌≤◌, ◌<◌, ltb_ℤ, ◌+ℤ◌, ◌-ℤ◌, ◌*ℤ◌, Within, int_laws, ◌≡◌, ◌∙◌, ap,
  arith, List, [], ◌∷◌, All, length, Option, none, some, ◌&&◌, ok, Bool-cases, inl, inr,
}
use dishflow_glm.Pricing.Types.{
  Input, CartItem, CouponInput, DiscountDetail, PromotionInput, Reason, PriceResult,
}
use dishflow_glm.Pricing.Price.{
  price_line, is_pickup, packaging_of, Totals, add_item, add_items, no_totals, price, settle,
  amount_of, best_promotion_from, best_promotion, promotion_discount, coupon_discount,
  choose_discount, shown_reason, is_better, is_eligible,
}
use dishflow_glm.Pricing.Settle.{price_of, price_inv}
use dishflow_glm.Pricing.Sound.{IsOrderable, validate-IsValid}
use dishflow_glm.Pricing.Discount.{choose_discount-larger}
use dishflow_glm.Pricing.Bounds.{Within-add, add64_exact, sub64_exact, price_limit}
use dishflow_glm.Pricing.Exact.{
  IsBounded, coupon_amount, exact_unit, exact_items, exact_packaging, line_exact, packaging_exact,
  line_limit,
}

-- Totals that stay below a limit.
abbrev IsSmall : ℕ → Totals → Type 0
IsSmall n t = Within n t.item_amount × Within n t.packaging

module _ (in_ : Input) (b : IsBounded in_) where
  item_step :
      (n : ℕ) (t : Totals) (ci : CartItem)
      → IsOrderable in_ ci
      → length ci.option_ids ≤ 99
      → IsSmall n t
      → n + line_limit < 2 ^ 63
      → ((add_item in_ t ci).item_amount ≡ t.item_amount +ℤ exact_unit in_ ci *ℤ ci.quantity)
        × Within (n + line_limit) (add_item in_ t ci).item_amount
  unfolding add_item
  item_step n t ci o h s fits =
      let (same, w) = line_exact in_ b ci o h in
      let amount = (price_line in_ ci).line_amount_cents in
      let exact = add64_exact n line_limit t.item_amount amount s.0 w fits in
      (
        exact ∙ ap (λ z. t.item_amount +ℤ z) same,
        rw exact (Within-add n line_limit t.item_amount amount s.0 w),
      )

  packaging_step :
      (n : ℕ) (t : Totals) (ci : CartItem) (rest : ℤ)
      → IsOrderable in_ ci
      → IsSmall n t
      → n + line_limit < 2 ^ 63
      → ((add_item in_ t ci).packaging +ℤ rest
          ≡ t.packaging +ℤ (exact_packaging in_ (ci ∷ []) +ℤ rest))
        × Within (n + line_limit) (add_item in_ t ci).packaging
  unfolding add_item exact_packaging
  packaging_step n t ci rest o s fits = elim (Bool-cases (is_pickup in_.scenario)) [
    | inl e ↦
        let (same, w) = packaging_exact in_ b ci o in
        let fee = packaging_of in_ ci in
        let exact = add64_exact n line_limit t.packaging fee s.1 w fits in
        rw e (
          ap (λ z. z +ℤ rest) (exact ∙ ap (λ z. t.packaging +ℤ z) same) ∙ omega int_laws,
          rw exact (Within-add n line_limit t.packaging fee s.1 w),
        )
    | inr e ↦ rw e (omega int_laws, (omega arith, omega arith))
  ]

  add_items_exact :
      (n : ℕ) (t : Totals) (cart : List CartItem)
      → All (IsOrderable in_) cart
      → All (λ ci. length ci.option_ids ≤ 99) cart
      → IsSmall n t
      → n + length cart * line_limit < 2 ^ 63
      → ((add_items in_ t cart).item_amount ≡ t.item_amount +ℤ exact_items in_ cart)
        × ((add_items in_ t cart).packaging ≡ t.packaging +ℤ exact_packaging in_ cart)
        × IsSmall (n + length cart * line_limit) (add_items in_ t cart)
  unfolding add_items exact_items exact_packaging
  add_items_exact n t [] o h s fits = (omega int_laws, omega int_laws, omega arith)
  add_items_exact n t (ci ∷ cart) (o, os) (h, hs) s fits =
      let t' = add_item in_ t ci in
      let (e, w) = item_step n t ci o h s (omega arith) in
      let (f, v) = packaging_step n t ci (exact_packaging in_ cart) o s (omega arith) in
      let (items, fees, small) =
        add_items_exact (n + line_limit) t' cart os hs (w, v) (omega arith) in
      (
        items ∙ ap (λ z. z +ℤ exact_items in_ cart) e ∙ omega int_laws,
        fees ∙ f ∙ omega int_laws,
        omega arith,
      )

best_promotion_from-Within :
    (n : ℕ) (base : ℤ) (best : Option PromotionInput) (ps : List PromotionInput)
    → Within n (promotion_discount best)
    → All (λ p. Within n p.discount_cents) ps
    → Within n (promotion_discount (best_promotion_from base best ps))
unfolding best_promotion_from
best_promotion_from-Within n base best [] w h = w
best_promotion_from-Within n base best (p ∷ ps) w (h, hs) =
    elim (Bool-cases (is_eligible base p && is_better p best)) [
      | inl e ↦ rw e (best_promotion_from-Within n base (some p) ps h hs)
      | inr e ↦ rw e (best_promotion_from-Within n base best ps w hs)
    ]

coupon_discount-Within :
    (n : ℕ) (base : ℤ) (named : Option CouponInput)
    → Within n (coupon_amount named)
    → Within n (coupon_discount base named)
unfolding coupon_discount
coupon_discount-Within n base none w = w
coupon_discount-Within n base (some c) w = ground arith

chosen-Within :
    (in_ : Input) (base : ℤ)
    → IsBounded in_
    → Within price_limit
        (amount_of (choose_discount base (best_promotion base in_.promotions) in_.coupon))
unfolding best_promotion
chosen-Within in_ base b =
    let best = best_promotion_from base none in_.promotions in
    ground (
      arith,
      choose_discount-larger base best in_.coupon,
      best_promotion_from-Within price_limit base none in_.promotions (omega arith) b.discounts,
      coupon_discount-Within price_limit base in_.coupon b.coupon,
    )

settle_exact :
    (in_ : Input) (t : Totals) (chosen : Option DiscountDetail) (why : Reason) (n : ℕ)
    → IsSmall n t
    → Within price_limit (amount_of chosen)
    → n + n + price_limit < 2 ^ 63
    → let r = settle in_ t chosen why in
      r.payable_cents +ℤ r.discount_cents ≡ r.item_amount_cents +ℤ r.packaging_fee_cents
unfolding settle
settle_exact in_ t chosen why n s w fits =
    let gross = t.item_amount +ℤ t.packaging in
    let wide = Within-add n n t.item_amount t.packaging s.0 s.1 in
    let sum = add64_exact n n t.item_amount t.packaging s.0 s.1 (omega arith) in
    let left = sub64_exact (n + n) price_limit gross (amount_of chosen) wide w (omega arith) in
    rw (sum, left)
      (elim (Bool-cases (ltb_ℤ (gross -ℤ amount_of chosen) (pos 0))) [
        | inl e ↦ rw e (omega int_laws)
        | inr e ↦ rw e (omega int_laws)
      ])

-- For an accepted cart within the limits, the item amount and the packaging fee are the exact sums over
-- the cart, and the payable amount and the discount add up to them exactly.
pub price_exact :
    (in_ : Input) {r : PriceResult}
    → IsBounded in_
    → price in_ ≡ ok r
    → (r.item_amount_cents ≡ exact_items in_ in_.cart)
      × (r.packaging_fee_cents ≡ exact_packaging in_ in_.cart)
      × (r.payable_cents +ℤ r.discount_cents
          ≡ exact_items in_ in_.cart +ℤ exact_packaging in_ in_.cart)
unfolding price_of settle
price_exact in_ {r} b h =
    let (valid, same) = price_inv in_ h in
    let o = (validate-IsValid in_ valid).orderable in
    let t = add_items in_ no_totals in_.cart in
    let (items, fees, small) =
      add_items_exact in_ b 0 no_totals in_.cart o b.options (omega arith)
        (omega (arith, b.size)) in
    let base = t.item_amount in
    let chosen = choose_discount base (best_promotion base in_.promotions) in_.coupon in
    let balance =
      settle_exact in_ t chosen (shown_reason base in_.coupon chosen)
        (0 + length in_.cart * line_limit) small (chosen-Within in_ base b)
        (omega (arith, b.size)) in
    rw same (
      items ∙ omega int_laws,
      fees ∙ omega int_laws,
      balance
          ∙ ap (λ z. z +ℤ t.packaging) items
          ∙ ap (λ z. no_totals.item_amount +ℤ exact_items in_ in_.cart +ℤ z) fees
          ∙ omega int_laws,
    )
