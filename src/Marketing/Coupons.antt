-- ===== src/Marketing/Coupons.antt =====
-- internal/marketing/store.go: `Claim` and `RedeemCoupon`; coupon_pricing.go: `GetCouponForPricing`.
use dishflow_glm.Prelude.{
  ℕ, ◌+◌, ltb, ◌==◌, if◌then◌else◌, Bool, true, false, not, ◌&&◌, ◌||◌, Option, none, some, ◌∷◌,
  Result, ok, err, ◌>>=◌, ◌>>◌, fail_if, find?, update_where, count,
}
use dishflow_glm.Pricing.Types.{CouponInput}
use dishflow_glm.Store.{Db, CustomerCoupon, CouponTemplate, available, CouponSource, claim}
use dishflow_glm.Orders.Release.{is_none}
use dishflow_glm.Worker.Payment.{is_available, use_coupon}

pub data MarketingError : Type 0 where
  template_not_found not_publicly_claimable not_in_valid_period already_claimed : MarketingError
  not_redeemable not_found_or_not_yours not_available template_disabled coupon_expired :
      MarketingError

abbrev pub Offered : Type 0 → Type 0
Offered A = Result MarketingError A

-- `WHERE id=? AND store_id=? AND deleted_at IS NULL`
abbrev pub template_of_store : ℕ → Option CouponTemplate → Offered CouponTemplate
template_of_store store none = err template_not_found
template_of_store store (some t) =
    if (t.store_id == store) && is_none t.deleted_at then ok t else err template_not_found

abbrev pub is_claim : CouponSource → Bool
is_claim claim = true
is_claim _ = false

-- The unique key of `customer_coupons`: customer, template and source.
abbrev pub is_claimed : ℕ → ℕ → CustomerCoupon → Bool
is_claimed customer template c =
    (c.customer_id == customer) && (c.template_id == template) && is_claim c.source

abbrev pub outside : ℕ → CouponTemplate → Bool
outside now t = ltb now t.starts_at || ltb t.ends_at now

abbrev pub new_coupon : ℕ → ℕ → ℕ → ℕ → ℕ → CustomerCoupon
new_coupon id store customer template ends_at = record {
  id = id;
  store_id = store;
  customer_id = customer;
  template_id = template;
  status = available;
  source = claim;
  expires_at = ends_at;
  used_at = none;
}

unfoldable pub claim_coupon : ℕ → ℕ → ℕ → ℕ → Db → Offered (ℕ × Db)
claim_coupon now store customer template db = do
  t ← template_of_store store (db.templates template)
  fail_if (not t.publicly_claimable || not t.enabled) not_publicly_claimable
  fail_if (outside now t) not_in_valid_period
  fail_if (ltb 0 (count (is_claimed customer template) db.coupons)) already_claimed
  ok (
    db.next_id,
    record db {
      coupons = new_coupon db.next_id store customer template t.ends_at ∷ db.coupons;
      next_id = db.next_id + 1;
    },
  )

-- `WHERE id=? AND store_id=? AND status='AVAILABLE'`
abbrev pub is_redeemable : ℕ → ℕ → CustomerCoupon → Bool
is_redeemable store id c = (c.id == id) && (c.store_id == store) && is_available c.status

unfoldable pub redeem_customer_coupon : ℕ → ℕ → ℕ → Db → Offered Db
redeem_customer_coupon now store id db = do
  fail_if (count (is_redeemable store id) db.coupons == 0) not_redeemable
  ok (record db { coupons = update_where (is_redeemable store id) (use_coupon now) db.coupons })

-- `WHERE cc.id=? AND cc.store_id=? AND cc.customer_id=?`
abbrev pub is_own : ℕ → ℕ → ℕ → CustomerCoupon → Bool
is_own store customer id c = (c.id == id) && (c.store_id == store) && (c.customer_id == customer)

-- The tests on the row of the join.
unfoldable pub price_coupon : ℕ → CustomerCoupon → Option CouponTemplate → Offered CouponInput
price_coupon now c none = err not_found_or_not_yours
price_coupon now c (some t) = do
  fail_if (not (is_available c.status)) not_available
  fail_if (not t.enabled) template_disabled
  fail_if (outside now t) not_in_valid_period
  fail_if (ltb c.expires_at now) coupon_expired
  ok (record {
    customer_coupon_id = c.id;
    discount_cents = t.discount_cents;
    min_spend_cents = t.min_spend_cents;
  })

unfoldable pub price_found : ℕ → Option CustomerCoupon → Db → Offered CouponInput
unfolding price_coupon
price_found now none db = err not_found_or_not_yours
price_found now (some c) db = price_coupon now c (db.templates c.template_id)

unfoldable pub get_coupon_for_pricing : ℕ → ℕ → ℕ → ℕ → Db → Offered CouponInput
unfolding price_found
get_coupon_for_pricing now store customer id db =
    price_found now (find? (is_own store customer id) db.coupons) db
