-- ===== src/Tests/Marketing.antt =====
-- internal/marketing: a coupon is claimed, priced and redeemed.
use dishflow_glm.Prelude.{
  pos, ◌≡◌, ◌≢◌, ◌==◌, refl, arith, if◌then◌else◌, true, none, some, [], ◌∷◌, ok, err,
}
use dishflow_glm.Pricing.Types.{CouponInput}
use dishflow_glm.Store.{Db, CouponTemplate, used}
use dishflow_glm.Marketing.Coupons.{
  claim_coupon, new_coupon, redeem_customer_coupon, get_coupon_for_pricing, not_redeemable,
  not_in_valid_period,
}
use dishflow_glm.Marketing.Claims.{claim_coupon_once, redeem_customer_coupon_once}
use dishflow_glm.Marketing.Steps.{CouponHistory, start, then_, claims, redeems, IsUnredeemed}
use dishflow_glm.Marketing.History.{get_coupon_for_pricing-claim_coupon}
use dishflow_glm.Tests.{empty}

abbrev template : CouponTemplate
template = record {
  store_id = 1;
  min_spend_cents = pos 2000;
  discount_cents = pos 400;
  starts_at = 100;
  ends_at = 900;
  enabled = true;
  publicly_claimable = true;
  deleted_at = none;
}

abbrev on_offer : Db
on_offer = record empty { templates = λ t. if t == 6 then some template else none }

abbrev claimed : Db
claimed = record on_offer { coupons = new_coupon 1 1 40 6 900 ∷ []; next_id = 2 }

abbrev spent : Db
spent = record claimed {
  coupons = record (new_coupon 1 1 40 6 900) { status = used; used_at = some 300 } ∷ [];
}

abbrev terms : CouponInput
terms = record { customer_coupon_id = 1; discount_cents = pos 400; min_spend_cents = pos 2000 }

claim_on_offer : claim_coupon 200 1 40 6 on_offer ≡ ok (1, claimed)
unfolding claim_coupon
claim_on_offer = refl

claim_too_late : claim_coupon 901 1 40 6 on_offer ≡ err not_in_valid_period
unfolding claim_coupon
claim_too_late = refl

redeem_claimed : redeem_customer_coupon 300 1 1 claimed ≡ ok spent
unfolding redeem_customer_coupon
redeem_claimed = refl

-- Another customer's coupon, claimed and redeemed meanwhile.
abbrev both : Db
both = record claimed {
  coupons = new_coupon 2 1 41 6 900 ∷ new_coupon 1 1 40 6 900 ∷ [];
  next_id = 3;
}

abbrev other_spent : Db
other_spent = record both {
  coupons =
      record (new_coupon 2 1 41 6 900) { status = used; used_at = some 240 }
      ∷ new_coupon 1 1 40 6 900
      ∷ [];
}

meanwhile : CouponHistory claimed other_spent
unfolding claim_coupon redeem_customer_coupon
meanwhile = then_ (then_ start (claims 220 1 41 6 2 refl)) (redeems 240 1 2 refl)

meanwhile-IsUnredeemed : IsUnredeemed 1 meanwhile
unfolding meanwhile
meanwhile-IsUnredeemed = ((tt, refl), refl)

get_coupon_for_pricing-claim_coupon_example :
    get_coupon_for_pricing 250 1 40 1 other_spent ≡ ok terms
get_coupon_for_pricing-claim_coupon_example =
    get_coupon_for_pricing-claim_coupon 200 250 1 40 6 on_offer template claim_on_offer refl
      meanwhile meanwhile-IsUnredeemed (omega arith) (omega arith)

claimed_already : claim_coupon 210 1 40 6 claimed ≢ ok (2, claimed)
claimed_already = claim_coupon_once 200 210 1 40 6 on_offer (2, claimed) claim_on_offer

redeemed_already :
    (redeem_customer_coupon 310 1 1 spent ≡ err not_redeemable)
    × (get_coupon_for_pricing 310 1 40 1 spent ≢ ok terms)
redeemed_already = redeem_customer_coupon_once 300 310 1 40 1 claimed terms redeem_claimed
