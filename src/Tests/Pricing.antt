-- ===== src/Tests/Pricing.antt =====
-- internal/pricing: a pickup order of two lines with an option, promotions and a coupon, and a dine-in order.
use dishflow_glm.Prelude.{
  ℕ, ℤ, pos, ◌==◌, ◌≡◌, refl, arith, if◌then◌else◌, true, Option, none, some, List, [], ◌∷◌, ok,
  map, err, ◌+ℤ◌, ◌*ℤ◌, ◌-ℤ◌, wrap, ltb_ℤ, ◌&&◌, Within,
}
use dishflow_glm.Pricing.Types.{
  Input, SkuInput, OptionItemInput, CartItem, PromotionInput, CouponInput, PriceResult, LineItem,
  dine_in, pickup, single, unlimited, promotion_is_better, invalid_quantity, insufficient_stock,
  missing_required_option, invalid_sku, dine_in_scheduled,
}
use dishflow_glm.Pricing.Validate.{validate}
use dishflow_glm.Pricing.Price.{
  price, price_line, amount_of, choose_discount, coupon_discount, modifier_of, is_coupon,
}
use dishflow_glm.Pricing.Bounds.{price_limit}
use dishflow_glm.Pricing.Settle.{IsConserved, price-IsConserved}
use dishflow_glm.Pricing.Discount.{
  larger, choose_discount-larger, Saves, price-Saves_promotion, price-Saves_coupon,
}
use dishflow_glm.Pricing.Sort.{SameItems, price_line_order}
use dishflow_glm.Pricing.Sound.{IsValid, validate-IsValid}
use dishflow_glm.Pricing.Scenario.{sum_lines, price_lines, price_dine_in}
use dishflow_glm.Pricing.Exact.{IsBounded, exact_items, exact_packaging}
use dishflow_glm.Pricing.Total.{price_exact}

abbrev noodles : SkuInput
noodles = record {
  price_cents = pos 1000;
  packaging_fee_cents = pos 100;
  inventory_mode = dishflow_glm.Pricing.Types.InventoryMode.daily;
  available_qty = pos 5;
}

abbrev duck : SkuInput
duck = record {
  price_cents = pos 2500;
  packaging_fee_cents = pos 0;
  inventory_mode = unlimited;
  available_qty = pos 0;
}

abbrev skus : ℕ → Option SkuInput
skus id = if id == 1 then some noodles else if id == 2 then some duck else none

abbrev options : ℕ → Option OptionItemInput
options id =
    if id == 7
    then some (record { option_group_id = 3; price_modifier_cents = pos 200; enabled = true })
    else if id == 8
    then some (record { option_group_id = 4; price_modifier_cents = pos 50; enabled = true })
    else none

abbrev small_promotion : PromotionInput
small_promotion = record { id = 1; name = 1; threshold_cents = pos 3000; discount_cents = pos 300 }

abbrev large_promotion : PromotionInput
large_promotion = record { id = 2; name = 2; threshold_cents = pos 4000; discount_cents = pos 500 }

abbrev voucher : CouponInput
voucher = record { customer_coupon_id = 9; discount_cents = pos 400; min_spend_cents = pos 2000 }

abbrev lunch : Input
lunch = record {
  scenario = pickup;
  table_token = 0;
  scheduled_for = 0;
  skus = skus;
  option_items = options;
  option_groups =
      record {
        id = 3;
        selection_type = single;
        is_required = true;
        min_select = pos 1;
        max_select = pos 1;
      }
      ∷ [];
  cart =
      record { sku_id = 1; quantity = pos 2; option_ids = 8 ∷ 7 ∷ [] }
      ∷ record { sku_id = 2; quantity = pos 1; option_ids = [] }
      ∷ [];
  promotions = small_promotion ∷ large_promotion ∷ [];
  coupon = some voucher;
}

abbrev dinner : Input
dinner = record lunch { scenario = dine_in; table_token = 4 }

abbrev lunch_result : PriceResult
lunch_result = record {
  lines =
      record {
        sku_id = 1;
        quantity = pos 2;
        unit_price_cents = pos 1250;
        option_ids = 7 ∷ 8 ∷ [];
        line_amount_cents = pos 2500;
      }
      ∷ record {
        sku_id = 2;
        quantity = pos 1;
        unit_price_cents = pos 2500;
        option_ids = [];
        line_amount_cents = pos 2500;
      }
      ∷ [];
  item_amount_cents = pos 5000;
  packaging_fee_cents = pos 200;
  discount = some (record {
    kind = dishflow_glm.Pricing.Types.Kind.promotion;
    id = 2;
    name = 2;
    amount_cents = pos 500;
    unavailable_reason = promotion_is_better;
  });
  discount_cents = pos 500;
  payable_cents = pos 4700;
  scenario = pickup;
}

abbrev dinner_result : PriceResult
dinner_result = record lunch_result {
  packaging_fee_cents = pos 0;
  payable_cents = pos 4500;
  scenario = dine_in;
}

price_lunch : price lunch ≡ ok lunch_result
unfolding price wrap ◌+ℤ◌ ◌*ℤ◌ ◌-ℤ◌
price_lunch = refl

price_dinner : price dinner ≡ ok dinner_result
unfolding price wrap ◌+ℤ◌ ◌*ℤ◌ ◌-ℤ◌
price_dinner = refl

validate-lunch : validate lunch ≡ ok tt
unfolding validate
validate-lunch = refl

-- Refused inputs: a line of 100, more than the day's stock, a missing option, and a dine-in order with a pickup time.
abbrev one_line : ℕ → ℤ → List ℕ → Input
one_line sku quantity option_ids = record lunch {
  cart = record { sku_id = sku; quantity = quantity; option_ids = option_ids } ∷ [];
}

validate_refused :
    (validate (one_line 2 (pos 100) (7 ∷ [])) ≡ err invalid_quantity)
    × (validate (one_line 1 (pos 6) (7 ∷ [])) ≡ err insufficient_stock)
    × (validate (one_line 1 (pos 1) []) ≡ err missing_required_option)
    × (validate (one_line 5 (pos 1) []) ≡ err invalid_sku)
    × (validate (record dinner { scheduled_for = 8 }) ≡ err dine_in_scheduled)
unfolding validate
validate_refused = (refl, refl, refl, refl, refl)

lunch_modifiers : (oid : ℕ) → Within price_limit (modifier_of lunch oid)
unfolding modifier_of
lunch_modifiers oid = ground arith

lunch-IsBounded : IsBounded lunch
lunch-IsBounded = record {
  price = λ id. ground arith;
  packaging = λ id. ground arith;
  modifier = lunch_modifiers;
  options = (omega arith, (omega arith, tt));
  size = omega arith;
  discounts = (omega arith, (omega arith, tt));
  coupon = omega arith;
}

price_exact_example :
    (lunch_result.item_amount_cents ≡ exact_items lunch lunch.cart)
    × (lunch_result.packaging_fee_cents ≡ exact_packaging lunch lunch.cart)
    × (lunch_result.payable_cents +ℤ lunch_result.discount_cents
        ≡ exact_items lunch lunch.cart +ℤ exact_packaging lunch lunch.cart)
price_exact_example = price_exact lunch lunch-IsBounded price_lunch

price-IsConserved_example : IsConserved lunch_result
price-IsConserved_example = price-IsConserved lunch price_lunch

choose_discount-larger_example :
    (amount_of (choose_discount (pos 5000) (some small_promotion) (some voucher))
      ≡ larger (pos 0) (larger (pos 300) (coupon_discount (pos 5000) (some voucher))))
    × (is_coupon (choose_discount (pos 5000) (some small_promotion) (some voucher)) ≡ (
        ltb_ℤ (pos 300) (coupon_discount (pos 5000) (some voucher))
        && ltb_ℤ (pos 0) (coupon_discount (pos 5000) (some voucher))))
choose_discount-larger_example =
    choose_discount-larger (pos 5000) (some small_promotion) (some voucher)

price-Saves_promotion_example : Saves lunch_result (pos 300)
price-Saves_promotion_example =
    price-Saves_promotion lunch [] small_promotion (large_promotion ∷ []) price_lunch refl refl

voucher-Saves : Saves lunch_result (coupon_discount (pos 5000) (some voucher))
voucher-Saves = price-Saves_coupon lunch price_lunch

swapped : SameItems (8 ∷ 7 ∷ []) (7 ∷ 8 ∷ [])
swapped a = ground arith

price_line_order_example :
    price_line lunch (record { sku_id = 1; quantity = pos 2; option_ids = 8 ∷ 7 ∷ [] })
    ≡ price_line lunch (record { sku_id = 1; quantity = pos 2; option_ids = 7 ∷ 8 ∷ [] })
price_line_order_example = price_line_order lunch 1 (pos 2) (8 ∷ 7 ∷ []) (7 ∷ 8 ∷ []) swapped

validate-IsValid_example : IsValid lunch
validate-IsValid_example = validate-IsValid lunch validate-lunch

lunch_lines :
    (lunch_result.lines ≡ map (price_line lunch) lunch.cart)
    × (lunch_result.item_amount_cents ≡ sum_lines (pos 0) lunch_result.lines)
lunch_lines = price_lines lunch price_lunch

dinner_packaging : dinner_result.packaging_fee_cents ≡ pos 0
dinner_packaging = price_dine_in dinner refl price_dinner
