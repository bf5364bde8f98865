-- ===== src/Marketing/History.antt =====
-- internal/marketing: a coupon after its claim, along any history of what else happens.
use dishflow_glm.Prelude.{
  ℕ, ◌≤◌, ◌<◌, ltb, ◌==◌, ◌≡◌, refl, arith, Bool, true, false, not, ◌||◌, Option, none, some, List,
  ok, >>=-eq-ok, find?, find?-update_where, update_where, count, sym, ◌∙◌, ok_inj, fail_if-eq-ok,
  ap, subst,
}
use dishflow_glm.Store.{Db, CustomerCoupon, CouponTemplate}
use dishflow_glm.Orders.Release.{find_order}
use dishflow_glm.Worker.Payment.{use_coupon, is_usable, coupon_of, set_used}
use dishflow_glm.Marketing.Coupons.{
  template_of_store, is_claimed, outside, new_coupon, claim_coupon, is_redeemable, is_own,
  get_coupon_for_pricing, price_coupon, price_found, not_publicly_claimable, not_in_valid_period,
  already_claimed,
}
use dishflow_glm.Marketing.Steps.{
  CouponStep, claims, redeems, pays, elsewhere, CouponHistory, start, then_, is_the, redeems_it,
  IsUnredeemed, pays-frame, claims-frame, redeems-frame,
}
use dishflow_glm.Marketing.Claims.{template_of_store_found}

module _ (id store customer template : ℕ) (t : CouponTemplate) where
  abbrev row : CustomerCoupon
  row = new_coupon id store customer template t.ends_at

  -- The coupon is as it was claimed.
  record Held (db : Db) : Type 0 where
    pub mine : find? (is_own store customer id) db.coupons ≡ some row
    pub offer : db.templates template ≡ some t
    pub fresh : id < db.next_id

  -- An UPDATE of other coupons.
  other_used :
      (q : CustomerCoupon → Bool) (now : ℕ) (cs : List CustomerCoupon)
      → q row ≡ false
      → find? (is_own store customer id) cs ≡ some row
      → find? (is_own store customer id) (update_where q (use_coupon now) cs) ≡ some row
  other_used q now cs off h =
      find?-update_where (is_own store customer id) q (use_coupon now) cs (λ c. refl) h
      ∙ rw off refl

  set_used-mine :
      (now : ℕ) (k : Option ℕ) (cs : List CustomerCoupon)
      → is_the id k ≡ false
      → find? (is_own store customer id) cs ≡ some row
      → find? (is_own store customer id) (set_used now k cs) ≡ some row
  set_used-mine now none cs off h = h
  set_used-mine now (some k) cs off h =
      let other : is_usable k row ≡ false = ground arith in other_used (is_usable k) now cs other h

  CouponStep-Held : {a b : Db} → Held a → (s : CouponStep a b) → redeems_it id s ≡ false → Held b
  CouponStep-Held {a} {b} h (claims now store' customer' template' k made) u =
      let (e, rows, offers, next) = claims-frame now store' customer' template' k a made in
      let other : is_own store customer id (new_coupon a.next_id store' customer' template' e)
          ≡ false =
        ground (arith, h.fresh) in
      record {
        mine = rw (rows, other) h.mine;
        offer = rw offers h.offer;
        fresh = omega (arith, h.fresh);
      }
  CouponStep-Held {a} {b} h (redeems now store' k made) u =
      let off : (k == id) ≡ false = u in
      let flipped : (id == k) ≡ false = ground arith in
      let other : is_redeemable store' k row ≡ false = rw flipped refl in
      subst Held (redeems-frame now store' k a made) (record {
        mine = other_used (is_redeemable store' k) now a.coupons other h.mine;
        offer = h.offer;
        fresh = h.fresh;
      })
  CouponStep-Held {a} {b} h (pays now store' order made) u =
      let (coupons, offers, next) = pays-frame now store' order a made in
      record {
        mine =
            rw coupons
              (set_used-mine now (coupon_of (find_order order b.orders)) a.coupons u h.mine);
        offer = rw offers h.offer;
        fresh = omega (arith, h.fresh);
      }
  CouponStep-Held {a} {b} h (elsewhere coupons offers next) u = record {
    mine = rw coupons h.mine;
    offer = offers template t h.offer;
    fresh = omega (arith, h.fresh);
  }

  CouponHistory-Held : {a b : Db} → Held a → (h : CouponHistory a b) → IsUnredeemed id h → Held b
  CouponHistory-Held held start u = held
  CouponHistory-Held held (then_ before step) (u, off) =
      CouponStep-Held (CouponHistory-Held held before u) step off

-- What a claim leaves, and what it has tested.
claim_coupon-Held :
    (now store customer template : ℕ) (db : Db) (t : CouponTemplate) {id : ℕ} {db' : Db}
    → claim_coupon now store customer template db ≡ ok (id, db')
    → db.templates template ≡ some t
    → Held id store customer template t db' × (t.enabled ≡ true) × (outside now t ≡ false)
unfolding claim_coupon
claim_coupon-Held now store customer template db t {id} {db'} h row =
    let (t', found, h₁) = >>=-eq-ok (template_of_store store (db.templates template)) _ h in
    let (open_, h₂) =
      fail_if-eq-ok (not t'.publicly_claimable || not t'.enabled) not_publicly_claimable _ h₁ in
    let (period, h₃) = fail_if-eq-ok (outside now t') not_in_valid_period _ h₂ in
    let made =
      (fail_if-eq-ok (ltb 0 (count (is_claimed customer template) db.coupons)) already_claimed _
        h₃).1 in
    let again : some t' ≡ some t =
      sym (template_of_store_found store (db.templates template) found) ∙ row in
    let same : t' ≡ t = cc in
    let key : db.next_id ≡ id = ap (λ (r : ℕ × Db). r.0) (ok_inj made) in
    let own : is_own store customer db.next_id
          (new_coupon db.next_id store customer template t'.ends_at)
        ≡ true =
      ground arith in
    let held : Held db.next_id store customer template t' db' =
      subst (Held db.next_id store customer template t') (ap (λ (r : ℕ × Db). r.1) (ok_inj made))
        (record {
          mine = rw own refl;
          offer = template_of_store_found store (db.templates template) found;
          fresh = omega arith;
        }) in
    (
      subst (λ k. Held k store customer template t db') key
          (subst (λ u. Held db.next_id store customer template u db') same held),
      rw (← same) (ground arith),
      rw (← same) period,
    )

-- A coupon that a customer has claimed is priced at its template's terms in every state that follows, at any instant
-- from the claim to the end of the template's period, unless it has been redeemed or an order that names it has been
-- paid since. What follows are claims, redemptions and payments of orders in any number and sequence, and whatever
-- leaves the coupons and the existing templates as they are.
pub get_coupon_for_pricing-claim_coupon :
    (now later store customer template : ℕ) (db : Db) (t : CouponTemplate) {id : ℕ} {db' after : Db}
    → claim_coupon now store customer template db ≡ ok (id, db')
    → db.templates template ≡ some t
    → (h : CouponHistory db' after) → IsUnredeemed id h
    → now ≤ later
    → later ≤ t.ends_at
    → get_coupon_for_pricing later store customer id after
      ≡ ok (record {
        customer_coupon_id = id;
        discount_cents = t.discount_cents;
        min_spend_cents = t.min_spend_cents;
      })
unfolding get_coupon_for_pricing price_found price_coupon
get_coupon_for_pricing-claim_coupon now later store customer template db t {id} {db'} {after}
      claimed row h unredeemed l u =
    let (held, enabled, inside) = claim_coupon-Held now store customer template db t claimed row in
    let kept = CouponHistory-Held id store customer template t held h unredeemed in
    let open_ : outside later t ≡ false = ground arith in
    let valid : ltb t.ends_at later ≡ false = ground arith in
    rw (kept.mine, kept.offer, enabled, open_, valid) refl
