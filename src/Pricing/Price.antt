-- ===== src/Pricing/Price.antt =====
-- internal/pricing/calc.go: the sort of the options, the lines, the choice of the discount and `Price`.
-- All amounts are computed in wrapping 64-bit arithmetic.
use dishflow_glm.Prelude.{
  ℕ, ℤ, pos, ltb, ltb_ℤ, leb_ℤ, add64, sub64, mul64, if◌then◌else◌, Bool, true, false, ◌&&◌, Option,
  none, some, List, [], ◌∷◌, ◌++◌, ok, ◌>>◌,
}
use dishflow_glm.Pricing.Types.{
  Scenario, dine_in, pickup, unknown_scenario, unlimited, SkuInput, OptionItemInput, CartItem,
  PromotionInput, CouponInput, Input, LineItem, no_kind, promotion, coupon, Reason, no_reason,
  below_minimum_spend, promotion_is_better, DiscountDetail, PriceResult, Priced,
}
use dishflow_glm.Pricing.Validate.{validate}

-- One outer round of `sortInt64`: the new element sinks to the left of the sorted prefix, past every
-- element that is larger. The prefix stands reversed, its last element first.
unfoldable pub sink : ℕ → List ℕ → List ℕ
sink x [] = x ∷ []
sink x (y ∷ prefix) = if ltb x y then y ∷ sink x prefix else x ∷ y ∷ prefix

unfoldable pub sort_from : List ℕ → List ℕ → List ℕ
unfolding sink
sort_from prefix [] = prefix
sort_from prefix (x ∷ xs) = sort_from (sink x prefix) xs

abbrev pub reverse_onto : List ℕ → List ℕ → List ℕ
reverse_onto [] ys = ys
reverse_onto (x ∷ xs) ys = reverse_onto xs (x ∷ ys)

unfoldable pub sort_int64 : List ℕ → List ℕ
unfolding sort_from
sort_int64 s = reverse_onto (sort_from [] s) []

-- A map read at a missing key gives Go's zero value.
abbrev pub zero_sku : SkuInput
zero_sku = record {
  price_cents = pos 0;
  packaging_fee_cents = pos 0;
  inventory_mode = unlimited;
  available_qty = pos 0;
}

abbrev pub sku_or_zero : Option SkuInput → SkuInput
sku_or_zero none = zero_sku
sku_or_zero (some sk) = sk

abbrev pub modifier_or_zero : Option OptionItemInput → ℤ
modifier_or_zero none = pos 0
modifier_or_zero (some item) = item.price_modifier_cents

unfoldable pub modifier_of : Input → ℕ → ℤ
modifier_of in_ oid = modifier_or_zero (in_.option_items oid)

unfoldable pub add_modifiers : Input → ℤ → List ℕ → ℤ
unfolding modifier_of add64
add_modifiers in_ unit [] = unit
add_modifiers in_ unit (oid ∷ oids) = add_modifiers in_ (add64 unit (modifier_of in_ oid)) oids

unfoldable pub price_line : Input → CartItem → LineItem
unfolding sort_int64 add_modifiers mul64
price_line in_ ci =
    let opt_ids = sort_int64 ci.option_ids in
    let unit = add_modifiers in_ (sku_or_zero (in_.skus ci.sku_id)).price_cents opt_ids in
    record {
      sku_id = ci.sku_id;
      quantity = ci.quantity;
      unit_price_cents = unit;
      option_ids = opt_ids;
      line_amount_cents = mul64 unit ci.quantity;
    }

abbrev pub is_pickup : Scenario → Bool
is_pickup dine_in = false
is_pickup pickup = true
is_pickup (unknown_scenario _) = false

unfoldable pub packaging_of : Input → CartItem → ℤ
unfolding mul64
packaging_of in_ ci = mul64 (sku_or_zero (in_.skus ci.sku_id)).packaging_fee_cents ci.quantity

-- The three variables of the loop over the cart.
pub record Totals : Type 0 where
  pub lines : List LineItem
  pub item_amount : ℤ
  pub packaging : ℤ

unfoldable pub add_item : Input → Totals → CartItem → Totals
unfolding price_line packaging_of add64
add_item in_ t ci =
    let line = price_line in_ ci in
    record {
      lines = t.lines ++ (line ∷ []);
      item_amount = add64 t.item_amount line.line_amount_cents;
      packaging =
          if is_pickup in_.scenario then add64 t.packaging (packaging_of in_ ci) else t.packaging;
    }

abbrev pub no_totals : Totals
no_totals = record { lines = []; item_amount = pos 0; packaging = pos 0 }

unfoldable pub add_items : Input → Totals → List CartItem → Totals
unfolding add_item
add_items in_ t [] = t
add_items in_ t (ci ∷ cart) = add_items in_ (add_item in_ t ci) cart

abbrev pub is_better : PromotionInput → Option PromotionInput → Bool
is_better p none = true
is_better p (some best) = ltb_ℤ best.discount_cents p.discount_cents

-- `base >= p.ThresholdCents && p.DiscountCents > 0`
abbrev pub is_eligible : ℤ → PromotionInput → Bool
is_eligible base p = leb_ℤ p.threshold_cents base && ltb_ℤ (pos 0) p.discount_cents

unfoldable pub best_promotion_from :
    ℤ → Option PromotionInput → List PromotionInput → Option PromotionInput
best_promotion_from base best [] = best
best_promotion_from base best (p ∷ ps) =
    best_promotion_from base (if is_eligible base p && is_better p best then some p else best) ps

unfoldable pub best_promotion : ℤ → List PromotionInput → Option PromotionInput
unfolding best_promotion_from
best_promotion base ps = best_promotion_from base none ps

abbrev pub promotion_discount : Option PromotionInput → ℤ
promotion_discount none = pos 0
promotion_discount (some p) = p.discount_cents

unfoldable pub coupon_discount : ℤ → Option CouponInput → ℤ
coupon_discount base none = pos 0
coupon_discount base (some c) = if ltb_ℤ base c.min_spend_cents then pos 0 else c.discount_cents

unfoldable pub coupon_reason : ℤ → Option CouponInput → Reason
coupon_reason base none = no_reason
coupon_reason base (some c) =
    if ltb_ℤ base c.min_spend_cents then below_minimum_spend else no_reason

abbrev pub promotion_detail : PromotionInput → DiscountDetail
promotion_detail p = record {
  kind = promotion;
  id = p.id;
  name = p.name;
  amount_cents = p.discount_cents;
  unavailable_reason = no_reason;
}

abbrev pub coupon_detail : CouponInput → ℤ → DiscountDetail
coupon_detail c amount = record {
  kind = coupon;
  id = c.customer_coupon_id;
  name = 0;
  amount_cents = amount;
  unavailable_reason = no_reason;
}

abbrev pub choose_coupon : ℤ → Option CouponInput → ℤ → Option DiscountDetail
choose_coupon base none discount = none
choose_coupon base (some c) discount =
    if ltb_ℤ (pos 0) discount then some (coupon_detail c discount) else none

abbrev pub choose_promotion :
    Option PromotionInput → ℤ → Option DiscountDetail → Option DiscountDetail
choose_promotion none discount otherwise = otherwise
choose_promotion (some p) discount otherwise =
    if leb_ℤ discount p.discount_cents && ltb_ℤ (pos 0) p.discount_cents
    then some (promotion_detail p)
    else otherwise

-- The `switch`: the larger discount, and the promotion on a tie.
unfoldable pub choose_discount :
    ℤ → Option PromotionInput → Option CouponInput → Option DiscountDetail
unfolding coupon_discount
choose_discount base best named =
    let discount = coupon_discount base named in
    choose_promotion best discount (choose_coupon base named discount)

abbrev pub is_coupon : Option DiscountDetail → Bool
is_coupon none = false
is_coupon (some d) = elim d.kind [ coupon ↦ true | _ ↦ false ]

abbrev pub amount_of : Option DiscountDetail → ℤ
amount_of none = pos 0
amount_of (some d) = d.amount_cents

abbrev pub or_better : Reason → Reason
or_better no_reason = promotion_is_better
or_better r = r

-- The reason that is shown: only if a coupon was named and is not the one in use.
unfoldable pub shown_reason : ℤ → Option CouponInput → Option DiscountDetail → Reason
unfolding coupon_reason
shown_reason base none chosen = no_reason
shown_reason base (some c) chosen =
    if is_coupon chosen
    then coupon_reason base (some c)
    else or_better (coupon_reason base (some c))

abbrev pub zero_detail : DiscountDetail
zero_detail = record {
  kind = no_kind;
  id = 0;
  name = 0;
  amount_cents = pos 0;
  unavailable_reason = no_reason;
}

abbrev pub detail_or_zero : Option DiscountDetail → DiscountDetail
detail_or_zero none = zero_detail
detail_or_zero (some d) = d

unfoldable pub attach_reason : Reason → Option DiscountDetail → Option DiscountDetail
attach_reason no_reason d = d
attach_reason r d =
    if is_coupon d then d else some (record (detail_or_zero d) { unavailable_reason = r })

abbrev pub set_amount : ℤ → Option DiscountDetail → Option DiscountDetail
set_amount amount none = none
set_amount amount (some d) = some (record d { amount_cents = amount })

-- The end of `Price`: the discount is capped so that nothing below zero is payable.
unfoldable pub settle : Input → Totals → Option DiscountDetail → Reason → PriceResult
unfolding attach_reason add64 sub64
settle in_ t chosen reason =
    let gross = add64 t.item_amount t.packaging in
    let pre_payable = sub64 gross (amount_of chosen) in
    let below_zero = ltb_ℤ pre_payable (pos 0) in
    record {
      lines = t.lines;
      item_amount_cents = t.item_amount;
      packaging_fee_cents = t.packaging;
      discount = attach_reason reason (if below_zero then set_amount gross chosen else chosen);
      discount_cents = if below_zero then gross else amount_of chosen;
      payable_cents = if below_zero then pos 0 else pre_payable;
      scenario = in_.scenario;
    }

unfoldable pub price : Input → Priced PriceResult
unfolding validate add_items best_promotion choose_discount shown_reason settle
price in_ = do
  validate in_
  let t = add_items in_ no_totals in_.cart
  let base = t.item_amount
  let chosen = choose_discount base (best_promotion base in_.promotions) in_.coupon
  ok (settle in_ t chosen (shown_reason base in_.coupon chosen))
