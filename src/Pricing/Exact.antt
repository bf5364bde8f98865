-- ===== src/Pricing/Exact.antt =====
-- internal/pricing/calc.go: the amounts of `Price` against the exact sums of PRD 4.5.
use dishflow_glm.Prelude.{
  ℕ, ℤ, pos, negsuc, ◌*◌, ◌≤◌, ◌≤ℤ◌, ◌+ℤ◌, ◌*ℤ◌, Within, mul64, ◌≡◌, refl, ◌∙◌, ap, arith, List, [],
  ◌∷◌, All, length, Option, none, some, if◌then◌else◌,
}
use dishflow_glm.Pricing.Types.{Input, CartItem, CouponInput}
use dishflow_glm.Pricing.Price.{
  sort_int64, sku_or_zero, modifier_of, price_line, is_pickup, packaging_of,
}
use dishflow_glm.Pricing.Sound.{IsOrderable}
use dishflow_glm.Pricing.Bounds.{
  Within-mul, mul64_exact, modifiers, modifiers-sort_int64, length-sort_int64, price_limit,
  add_modifiers_exact,
}

abbrev pub coupon_amount : Option CouponInput → ℤ
coupon_amount none = pos 0
coupon_amount (some c) = c.discount_cents

-- The limits: prices, fees, modifiers and discounts of at most ten million yuan, at most 99 options in a line and
-- at most 1000 lines.
pub record IsBounded (in_ : Input) : Type 0 where
  pub price : (id : ℕ) → Within price_limit (sku_or_zero (in_.skus id)).price_cents
  pub packaging : (id : ℕ) → Within price_limit (sku_or_zero (in_.skus id)).packaging_fee_cents
  pub modifier : (oid : ℕ) → Within price_limit (modifier_of in_ oid)
  pub options : All (λ ci. length ci.option_ids ≤ 99) in_.cart
  pub size : length in_.cart ≤ 1000
  pub discounts : All (λ p. Within price_limit p.discount_cents) in_.promotions
  pub coupon : Within price_limit (coupon_amount in_.coupon)

-- The exact amounts, over unbounded integers and with the options in the order of the cart.
unfoldable pub exact_unit : Input → CartItem → ℤ
unfolding modifiers
exact_unit in_ ci = (sku_or_zero (in_.skus ci.sku_id)).price_cents +ℤ modifiers in_ ci.option_ids

unfoldable pub exact_items : Input → List CartItem → ℤ
unfolding exact_unit
exact_items in_ [] = pos 0
exact_items in_ (ci ∷ cart) = exact_unit in_ ci *ℤ ci.quantity +ℤ exact_items in_ cart

unfoldable pub exact_packaging : Input → List CartItem → ℤ
exact_packaging in_ [] = pos 0
exact_packaging in_ (ci ∷ cart) =
    (if is_pickup in_.scenario
      then (sku_or_zero (in_.skus ci.sku_id)).packaging_fee_cents *ℤ ci.quantity
      else pos 0)
    +ℤ exact_packaging in_ cart

abbrev pub line_limit : ℕ
line_limit = 100 * price_limit * 99

-- A quantity between 1 and 99 is a natural number.
quantity_pos : (q : ℤ) → pos 1 ≤ℤ q → q ≤ℤ pos 99 → (k : ℕ) × (q ≡ pos k) × (k ≤ 99)
quantity_pos (pos k) h l = (k, refl, omega arith)
quantity_pos (negsuc k) h l = absurd (omega arith)

module _ (in_ : Input) (b : IsBounded in_) where
  unit_exact :
      (ci : CartItem)
      → length ci.option_ids ≤ 99
      → ((price_line in_ ci).unit_price_cents ≡ exact_unit in_ ci)
        × Within (100 * price_limit) (price_line in_ ci).unit_price_cents
  unfolding price_line exact_unit
  unit_exact ci h =
      let base = (sku_or_zero (in_.skus ci.sku_id)).price_cents in
      let ids = sort_int64 ci.option_ids in
      let (e, w) =
        add_modifiers_exact in_ b.modifier price_limit base ids (b.price ci.sku_id)
          (omega (arith, length-sort_int64 ci.option_ids)) in
      (
        e ∙ ap (λ z. base +ℤ z) (modifiers-sort_int64 in_ ci.option_ids),
        omega (arith, length-sort_int64 ci.option_ids),
      )

  pub line_exact :
      (ci : CartItem)
      → IsOrderable in_ ci
      → length ci.option_ids ≤ 99
      → ((price_line in_ ci).line_amount_cents ≡ exact_unit in_ ci *ℤ ci.quantity)
        × Within line_limit (price_line in_ ci).line_amount_cents
  unfolding price_line
  line_exact ci o h =
      let (k, e, le) = quantity_pos ci.quantity o.quantity_ge o.quantity_le in
      let (same, w) = unit_exact ci h in
      let unit = (price_line in_ ci).unit_price_cents in
      let exact : mul64 unit (pos k) ≡ unit *ℤ pos k =
        mul64_exact (100 * price_limit) 99 k unit w le (omega arith) in
      let wide = Within-mul (100 * price_limit) 99 k unit w le in
      simp (e, exact) (ap (λ z. z *ℤ pos k) same, wide)

  pub packaging_exact :
      (ci : CartItem)
      → IsOrderable in_ ci
      → (packaging_of in_ ci
          ≡ (sku_or_zero (in_.skus ci.sku_id)).packaging_fee_cents *ℤ ci.quantity)
        × Within line_limit (packaging_of in_ ci)
  unfolding packaging_of
  packaging_exact ci o =
      let (k, e, le) = quantity_pos ci.quantity o.quantity_ge o.quantity_le in
      let fee = (sku_or_zero (in_.skus ci.sku_id)).packaging_fee_cents in
      let w = b.packaging ci.sku_id in
      let exact : mul64 fee (pos k) ≡ fee *ℤ pos k =
        mul64_exact price_limit 99 k fee w le (omega arith) in
      let wide = Within-mul price_limit 99 k fee w le in
      simp (e, exact) (refl, (omega (arith, wide), omega (arith, wide)))
