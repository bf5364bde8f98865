-- ===== src/Marketing/Steps.antt =====
-- internal/marketing and internal/worker: the operations on the coupons, and what each leaves as it is.
use dishflow_glm.Prelude.{
  ℕ, ◌≤◌, ◌+◌, ltb, ◌==◌, ◌≡◌, refl, Bool, false, not, ◌||◌, Option, none, some, ◌∷◌, ok, >>=-eq-ok,
  update_where, count, inl, inr, Bool-cases, ok_inj, fail_if-eq-ok, ap, subst,
}
use dishflow_glm.Store.{Db, CouponTemplate}
use dishflow_glm.Orders.Release.{find_order}
use dishflow_glm.Orders.Create.{insert_event}
use dishflow_glm.Worker.Payment.{
  use_coupon, coupon_of, set_used, on_payment_success, pay_with, sell_reserved, log_paid,
  redeem_coupon, has_been_paid, is_payable, pay_row, mark_fulfilled,
}
use dishflow_glm.Marketing.Coupons.{
  template_of_store, is_claimed, outside, new_coupon, claim_coupon, is_redeemable,
  redeem_customer_coupon, not_publicly_claimable, not_in_valid_period, already_claimed,
  not_redeemable,
}

-- The operations that write `customer_coupons`, and what leaves it alone: no code changes a template or deletes one.
pub data CouponStep (a : Db) (b : Db) : Type 0 where
  claims :
      (now store customer template id : ℕ)
      → claim_coupon now store customer template a ≡ ok (id, b)
      → CouponStep a b
  redeems : (now store id : ℕ) → redeem_customer_coupon now store id a ≡ ok b → CouponStep a b
  pays : (now store order : ℕ) → on_payment_success now store order a ≡ ok b → CouponStep a b
  elsewhere :
      b.coupons ≡ a.coupons
      → ((k : ℕ) (t : CouponTemplate) → a.templates k ≡ some t → b.templates k ≡ some t)
      → a.next_id ≤ b.next_id
      → CouponStep a b

pub data CouponHistory (a : Db) : Db → Type 0 where
  start : CouponHistory a a
  then_ : {b c : Db} → CouponHistory a b → CouponStep b c → CouponHistory a c

abbrev pub is_the : ℕ → Option ℕ → Bool
is_the id none = false
is_the id (some k) = k == id

-- The step redeems the coupon, or pays the order that names it.
abbrev pub redeems_it : ℕ → {a b : Db} → CouponStep a b → Bool
redeems_it id (redeems now store k h) = k == id
redeems_it id {a} {b} (pays now store order h) = is_the id (coupon_of (find_order order b.orders))
redeems_it id _ = false

abbrev pub IsUnredeemed : ℕ → {a b : Db} → CouponHistory a b → Type 0
IsUnredeemed id start = Unit
IsUnredeemed id (then_ before step) = IsUnredeemed id before × (redeems_it id step ≡ false)

log_paid-frame :
    (store order : ℕ) (db : Db)
    → ((log_paid store order db).coupons ≡ db.coupons)
      × ((log_paid store order db).templates ≡ db.templates)
      × ((log_paid store order db).next_id ≡ db.next_id)
unfolding log_paid insert_event
log_paid-frame store order db = elim (Bool-cases (has_been_paid order db.orders)) [
  | inl e ↦ rw e (refl, refl, refl)
  | inr e ↦ rw e (refl, refl, refl)
]

pub pays-frame :
    (now store order : ℕ) (a : Db) {b : Db}
    → on_payment_success now store order a ≡ ok b
    → (b.coupons ≡ set_used now (coupon_of (find_order order b.orders)) a.coupons)
      × (b.templates ≡ a.templates)
      × (b.next_id ≡ a.next_id)
unfolding on_payment_success pay_with redeem_coupon
pays-frame now store order a {b} h =
    let (daily, sold, made) = >>=-eq-ok (sell_reserved order a.reservations a.daily) _ h in
    let (coupons, templates, next) = log_paid-frame store order (record a {
      orders = update_where (is_payable store order) (pay_row now) a.orders;
      daily = daily;
      reservations = mark_fulfilled order a.reservations;
    }) in
    subst
      (λ (d : Db).
        (d.coupons ≡ set_used now (coupon_of (find_order order d.orders)) a.coupons)
        × (d.templates ≡ a.templates)
        × (d.next_id ≡ a.next_id))
      (ok_inj made) (rw coupons refl, templates, next)

pub claims-frame :
    (now store customer template id : ℕ) (a : Db) {b : Db}
    → claim_coupon now store customer template a ≡ ok (id, b)
    → (e : ℕ) × (b.coupons ≡ new_coupon a.next_id store customer template e ∷ a.coupons)
      × (b.templates ≡ a.templates)
      × (b.next_id ≡ a.next_id + 1)
unfolding claim_coupon
claims-frame now store customer template id a {b} h =
    let (t, found, h₁) = >>=-eq-ok (template_of_store store (a.templates template)) _ h in
    let h₂ =
      (fail_if-eq-ok (not t.publicly_claimable || not t.enabled) not_publicly_claimable _ h₁).1 in
    let h₃ = (fail_if-eq-ok (outside now t) not_in_valid_period _ h₂).1 in
    let made =
      (fail_if-eq-ok (ltb 0 (count (is_claimed customer template) a.coupons)) already_claimed _
        h₃).1 in
    let same = ap (λ (r : ℕ × Db). r.1) (ok_inj made) in
    subst
      (λ (d : Db).
        (e : ℕ) × (d.coupons ≡ new_coupon a.next_id store customer template e ∷ a.coupons)
        × (d.templates ≡ a.templates)
        × (d.next_id ≡ a.next_id + 1))
      same (t.ends_at, refl, refl, refl)

pub redeems-frame :
    (now store id : ℕ) (a : Db) {b : Db}
    → redeem_customer_coupon now store id a ≡ ok b
    → record a { coupons = update_where (is_redeemable store id) (use_coupon now) a.coupons } ≡ b
unfolding redeem_customer_coupon
redeems-frame now store id a h =
    ok_inj (fail_if-eq-ok (count (is_redeemable store id) a.coupons == 0) not_redeemable _ h).1
