-- ===== src/Worker/Payment.antt =====
-- internal/worker/worker.go: `onPaymentSuccess`, the transaction that makes an order paid.
use dishflow_glm.Prelude.{
  ℕ, ◌+◌, ◌-◌, ltb, ◌==◌, if◌then◌else◌, Bool, true, false, not, ◌&&◌, Option, none, some, List, [],
  ◌∷◌, ok, ◌>>=◌, ◌>>◌, fail_if, update_where,
}
use dishflow_glm.Store.{
  Db, Order, Daily, Reservation, fulfilled, Stock, set_daily, pending_payment, paid, system,
  order_paid, CustomerCoupon, CouponStatus, available, used, check_violation,
}
use dishflow_glm.Orders.Reserve.{Traded}
use dishflow_glm.Orders.Create.{insert_event}
use dishflow_glm.Orders.Release.{is_reserved_by, set_hold, find_order, is_none}
use dishflow_glm.Orders.Cancel.{is_pending}

-- `id=? AND store_id=? AND fulfillment_state='PENDING_PAYMENT'`
abbrev pub is_payable : ℕ → ℕ → Order → Bool
is_payable store order o = (o.id == order) && (o.store_id == store) && is_pending o.state

abbrev pub pay_row : ℕ → Order → Order
pay_row now o = record o {
  state = paid;
  paid_at = some now;
  paid_cents = o.payable_cents;
  version = o.version + 1;
}

-- `reserved_qty - quantity, sold_qty + quantity`; the column may not go below zero.
abbrev pub sell_row : Reservation → Option Daily → Stock → Traded Stock
sell_row r none daily = ok daily
sell_row r (some d) daily = do
  fail_if (ltb d.reserved_qty r.quantity) check_violation
  ok (
      set_daily r.store_id r.sku_id r.business_date
        (record d {
          reserved_qty = d.reserved_qty - r.quantity;
          sold_qty = d.sold_qty + r.quantity;
        })
        daily)

unfoldable pub sell : Reservation → Stock → Traded Stock
sell r daily = sell_row r (daily r.store_id r.sku_id r.business_date) daily

unfoldable pub sell_reserved : ℕ → List Reservation → Stock → Traded Stock
unfolding sell
sell_reserved order [] daily = ok daily
sell_reserved order (r ∷ rs) daily = do
  daily' ← if is_reserved_by order r then sell r daily else ok daily
  sell_reserved order rs daily'

unfoldable pub mark_fulfilled : ℕ → List Reservation → List Reservation
mark_fulfilled order rs = update_where (is_reserved_by order) (set_hold fulfilled) rs

-- `WHERE EXISTS (... paid_at IS NOT NULL)`
unfoldable pub has_been_paid : ℕ → List Order → Bool
has_been_paid order [] = false
has_been_paid order (o ∷ os) =
    if (o.id == order) && not (is_none o.paid_at) then true else has_been_paid order os

unfoldable pub log_paid : ℕ → ℕ → Db → Db
unfolding has_been_paid insert_event
log_paid store order db =
    if has_been_paid order db.orders
    then insert_event
        (record {
          order_id = order;
          store_id = store;
          event_type = order_paid;
          from_state = some pending_payment;
          to_state = paid;
          actor_type = system;
          actor_id = none;
        })
        db
    else db

abbrev pub is_available : CouponStatus → Bool
is_available available = true
is_available _ = false

-- `SET cc.status='USED', cc.used_at=...`
abbrev pub use_coupon : ℕ → CustomerCoupon → CustomerCoupon
use_coupon now c = record c { status = used; used_at = some now }

abbrev pub is_usable : ℕ → CustomerCoupon → Bool
is_usable id c = (c.id == id) && is_available c.status

abbrev pub coupon_of : Option Order → Option ℕ
coupon_of none = none
coupon_of (some o) = o.customer_coupon_id

abbrev pub set_used : ℕ → Option ℕ → List CustomerCoupon → List CustomerCoupon
set_used now none coupons = coupons
set_used now (some id) coupons = update_where (is_usable id) (use_coupon now) coupons

-- The coupon that the order names becomes used.
unfoldable pub redeem_coupon : ℕ → ℕ → Db → Db
unfolding find_order
redeem_coupon now order db = record db {
  coupons = set_used now (coupon_of (find_order order db.orders)) db.coupons;
}

-- The statements of the transaction besides the UPDATE of the stock, whose result is given.
unfoldable pub pay_with : ℕ → ℕ → ℕ → Stock → Db → Db
unfolding mark_fulfilled log_paid redeem_coupon
pay_with now store order daily db = redeem_coupon now order (
    log_paid store order (record db {
      orders = update_where (is_payable store order) (pay_row now) db.orders;
      daily = daily;
      reservations = mark_fulfilled order db.reservations;
    }))

-- The transaction, up to its commit.
unfoldable pub on_payment_success : ℕ → ℕ → ℕ → Db → Traded Db
unfolding sell_reserved pay_with
on_payment_success now store order db = do
  daily ← sell_reserved order db.reservations db.daily
  ok (pay_with now store order daily db)
