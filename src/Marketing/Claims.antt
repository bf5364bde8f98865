-- ===== src/Marketing/Claims.antt =====
-- internal/marketing: a coupon from its claim to its use.
use dishflow_glm.Prelude.{
  ℕ, ltb, ◌==◌, ◌≡◌, ◌≢◌, refl, subst, arith, if◌then◌else◌, true, false, not, ◌||◌, Option, none,
  some, List, [], ◌∷◌, ok, err, >>=-eq-ok, fail_if, find?, update_where, count, Bool-cases,
  Option-cases, inl, inr,
}
use dishflow_glm.Pricing.Types.{CouponInput}
use dishflow_glm.Store.{Db, CustomerCoupon, CouponTemplate}
use dishflow_glm.Worker.Payment.{is_available, use_coupon}
use dishflow_glm.Marketing.Coupons.{
  template_of_store, is_claimed, outside, new_coupon, claim_coupon, is_redeemable,
  redeem_customer_coupon, is_own, price_coupon, price_found, get_coupon_for_pricing,
  not_publicly_claimable, not_in_valid_period, already_claimed, not_redeemable,
}

pub template_of_store_found :
    (store : ℕ) (row : Option CouponTemplate) {t : CouponTemplate}
    → template_of_store store row ≡ ok t
    → row ≡ some t
template_of_store_found store row h = ground arith

-- No customer claims a template twice.
pub claim_coupon_once :
    (now later store customer template : ℕ) (db : Db) {id : ℕ} {db' : Db} (r : ℕ × Db)
    → claim_coupon now store customer template db ≡ ok (id, db')
    → claim_coupon later store customer template db' ≢ ok r
unfolding claim_coupon
claim_coupon_once now later store customer template db {id} {db'} r h g =
    let (t, found, h₁) = >>=-eq-ok (template_of_store store (db.templates template)) _ h in
    let (_, open_, h₂) =
      >>=-eq-ok (fail_if (not t.publicly_claimable || not t.enabled) not_publicly_claimable) _ h₁ in
    let (_, period, h₃) = >>=-eq-ok (fail_if (outside now t) not_in_valid_period) _ h₂ in
    let (_, first, h₄) =
      >>=-eq-ok (fail_if (ltb 0 (count (is_claimed customer template) db.coupons)) already_claimed)
        _ h₃ in
    let rows : db'.coupons ≡ new_coupon db.next_id store customer template t.ends_at ∷ db.coupons =
      ground arith in
    ground arith

used_status :
    (store customer id now : ℕ) (x : CustomerCoupon)
    → let y = if is_redeemable store id x then use_coupon now x else x in
      is_own store customer id y ≡ true → is_available y.status ≡ false
used_status store customer id now x h = ground arith

-- What is left for the price of a coupon that an UPDATE has made used.
used_row :
    (store customer id now : ℕ) (cs : List CustomerCoupon) {c : CustomerCoupon}
    → find? (is_own store customer id) (update_where (is_redeemable store id) (use_coupon now) cs)
      ≡ some c
    → is_available c.status ≡ false
used_row store customer id now [] {c} h = absurd (cc)
used_row store customer id now (x ∷ xs) {c} h =
    let own = is_own store customer id in
    let y : CustomerCoupon = if is_redeemable store id x then use_coupon now x else x in
    let rest = update_where (is_redeemable store id) (use_coupon now) xs in
    elim (Bool-cases (own y)) [
      | inl e ↦
          let head : (if own y then some y else find? own rest) ≡ some c = h in
          let found : some y ≡ some c = rw e at head in
          let this : y ≡ c = cc in
          subst (λ z. is_available z.status ≡ false) this (used_status store customer id now x e)
      | inr e ↦
          let head : (if own y then some y else find? own rest) ≡ some c = h in
          used_row store customer id now xs (rw e at head)
    ]

not_priced :
    (now : ℕ) (c : CustomerCoupon) (t : Option CouponTemplate) {r : CouponInput}
    → is_available c.status ≡ false
    → price_coupon now c t ≢ ok r
unfolding price_coupon
not_priced now c none e h = cc
not_priced now c (some t) e h = ground arith

none_left :
    (store id now : ℕ) (cs : List CustomerCoupon)
    → count (is_redeemable store id) (update_where (is_redeemable store id) (use_coupon now) cs) ≡ 0
none_left store id now [] = refl
none_left store id now (x ∷ xs) = elim (Bool-cases (is_redeemable store id x)) [
  | inl e ↦ ground (arith, none_left store id now xs)
  | inr e ↦ ground (arith, none_left store id now xs)
]

-- A coupon that has been redeemed is neither redeemed again nor used for another price.
pub redeem_customer_coupon_once :
    (now later store customer id : ℕ) (db : Db) {db' : Db} (r : CouponInput)
    → redeem_customer_coupon now store id db ≡ ok db'
    → (redeem_customer_coupon later store id db' ≡ err not_redeemable)
      × (get_coupon_for_pricing later store customer id db' ≢ ok r)
unfolding redeem_customer_coupon get_coupon_for_pricing price_found
redeem_customer_coupon_once now later store customer id db {db'} r h =
    let (_, _, h₁) =
      >>=-eq-ok (fail_if (count (is_redeemable store id) db.coupons == 0) not_redeemable) _ h in
    let rows : db'.coupons ≡ update_where (is_redeemable store id) (use_coupon now) db.coupons =
      ground arith in
    let gone : count (is_redeemable store id) db'.coupons ≡ 0 =
      rw rows (none_left store id now db.coupons) in
    (
      rw gone refl,
      λ g. elim (Option-cases (find? (is_own store customer id) db'.coupons)) [
        | inl e ↦ cc (rw e at g)
        | inr (c, e) ↦
            let status = used_row store customer id now db.coupons (rw rows at e) in
            not_priced later c (db'.templates c.template_id) status (rw e at g)
      ],
    )
