-- ===== src/Pricing/Settle.antt =====
-- internal/pricing/calc.go: what is payable, in the machine's arithmetic.
use dishflow_glm.Prelude.{
  ℤ, pos, negsuc, ◌≤ℤ◌, ◌-ℤ◌, ◌+ℤ◌, wrap, add64, sub64, ◌≡◌, sym, subst, arith, ok, Option,
}
use dishflow_glm.Pricing.Types.{Input, DiscountDetail, PriceResult, Reason}
use dishflow_glm.Pricing.Validate.{validate}
use dishflow_glm.Pricing.Price.{
  Totals, settle, amount_of, price, add_items, no_totals, best_promotion, choose_discount,
  shown_reason,
}

add64-sub64 : (a b : ℤ) → add64 (sub64 (wrap a) b) b ≡ wrap a
unfolding add64 sub64 wrap ◌+ℤ◌ ◌-ℤ◌
add64-sub64 (pos a) (pos b) = ground arith
add64-sub64 (pos a) (negsuc b) = ground arith
add64-sub64 (negsuc a) (pos b) = ground arith
add64-sub64 (negsuc a) (negsuc b) = ground arith

add64-zero : (a : ℤ) → add64 (pos 0) (wrap a) ≡ wrap a
unfolding add64 wrap ◌+ℤ◌
add64-zero (pos a) = ground arith
add64-zero (negsuc a) = ground arith

-- The sums of a settled price.
abbrev pub IsConserved : PriceResult → Type 0
IsConserved r =
    (pos 0 ≤ℤ r.payable_cents)
    × (add64 r.payable_cents r.discount_cents ≡ add64 r.item_amount_cents r.packaging_fee_cents)

pub settle-IsConserved :
    (in_ : Input) (t : Totals) (chosen : Option DiscountDetail) (why : Reason)
    → IsConserved (settle in_ t chosen why)
unfolding settle
settle-IsConserved in_ t chosen why =
    let gross = t.item_amount +ℤ t.packaging in
    ground (arith, add64-sub64 gross (amount_of chosen), add64-zero gross)

-- What `price` returns, once validation has passed.
unfoldable pub price_of : Input → PriceResult
price_of in_ =
    let t = add_items in_ no_totals in_.cart in
    let base = t.item_amount in
    let chosen = choose_discount base (best_promotion base in_.promotions) in_.coupon in
    settle in_ t chosen (shown_reason base in_.coupon chosen)

pub price_inv :
    (in_ : Input) {r : PriceResult} → price in_ ≡ ok r → (validate in_ ≡ ok tt) × (r ≡ price_of in_)
unfolding price price_of
price_inv in_ h = ground arith

-- Whatever the amounts, in the machine's arithmetic what is payable is never below zero, and with the
-- discount it makes up the item amount and the packaging fee.
pub price-IsConserved : (in_ : Input) {r : PriceResult} → price in_ ≡ ok r → IsConserved r
unfolding price_of
price-IsConserved in_ h =
    let t = add_items in_ no_totals in_.cart in
    let base = t.item_amount in
    let chosen = choose_discount base (best_promotion base in_.promotions) in_.coupon in
    subst IsConserved (sym (price_inv in_ h).1)
      (settle-IsConserved in_ t chosen (shown_reason base in_.coupon chosen))
