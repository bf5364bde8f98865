-- ===== src/Capacity/History.antt =====
-- The pickup slots along any history of the operations.
use dishflow_glm.Prelude.{ℕ, ◌≡◌, arith, Bool, ok}
use dishflow_glm.Store.{Db, Order}
use dishflow_glm.Orders.Cancel.{staff_refund_order, review_cancel_request}
use dishflow_glm.Orders.Transition.{TransitionInput, transition}
use dishflow_glm.Worker.Payment.{on_payment_success}
use dishflow_glm.Inventory.{AdjustInput, ensure_daily, adjust}
use dishflow_glm.Prelude.{Option-cases, inl, inr}
use dishflow_glm.Worker.Payment.{log_paid, redeem_coupon}
use dishflow_glm.Inventory.{adjust_found, adjust_to, set_target}
use dishflow_glm.Stock.History.{
  Step, History, creates, cancels, refunds, starts_refund, reviews, moves, pays, expires, opens_day,
  adjusts, start, then_,
}
use dishflow_glm.Capacity.Updates.{Bounded, Bounded-same}
use dishflow_glm.Capacity.Create.{create-Bounded}
use dishflow_glm.Capacity.Operations.{
  cancel-Bounded, mark_refunded-Bounded, release_expired_orders-Bounded,
}

on_payment_success-slots :
    (now store order : ℕ) (db : Db) {db' : Db}
    → on_payment_success now store order db ≡ ok db'
    → db'.slots ≡ db.slots
unfolding on_payment_success redeem_coupon log_paid
on_payment_success-slots now store order db h = ground arith

staff_refund_order-slots :
    (store order user : ℕ) (db : Db) {db' : Db}
    → staff_refund_order store order user db ≡ ok db'
    → db'.slots ≡ db.slots
unfolding staff_refund_order
staff_refund_order-slots store order user db h = ground arith

review_cancel_request-slots :
    (store order user : ℕ) (approve : Bool) (db : Db) {db' : Db}
    → review_cancel_request store order user approve db ≡ ok db'
    → db'.slots ≡ db.slots
unfolding review_cancel_request
review_cancel_request-slots store order user approve db h = ground arith

transition-slots :
    (now : ℕ) (in_ : TransitionInput) (db : Db) {o : Order} {db' : Db}
    → transition now in_ db ≡ ok (o, db')
    → db'.slots ≡ db.slots
unfolding transition
transition-slots now in_ db h = ground arith

ensure_daily-slots :
    (store sku date qty : ℕ) (db : Db) → (ensure_daily store sku date qty db).slots ≡ db.slots
unfolding ensure_daily
ensure_daily-slots store sku date qty db = elim (Option-cases (db.daily store sku date)) [
  | inl e ↦ ground arith
  | inr (d, e) ↦ ground arith
]

adjust-slots :
    (in_ : AdjustInput) (db : Db) {db' : Db} → adjust in_ db ≡ ok db' → db'.slots ≡ db.slots
unfolding adjust adjust_found adjust_to set_target
adjust-slots in_ db {db'} h =
    elim (Option-cases (db.daily in_.store_id in_.sku_id in_.business_date)) [
      | inl e ↦ ground arith
      | inr (d, e) ↦ ground arith
    ]

Step-Bounded : (db db' : Db) → Step db db' → Bounded db → Bounded db'
Step-Bounded db db' (creates clock now order_no in_ id e) b =
    create-Bounded clock now order_no in_ db b e
Step-Bounded db db' (cancels now in_ r e) b = cancel-Bounded now in_ db b e
Step-Bounded db db' (refunds now store order e) b = mark_refunded-Bounded now store order db b e
Step-Bounded db db' (starts_refund store order user e) b =
    Bounded-same db db' (staff_refund_order-slots store order user db e) b
Step-Bounded db db' (reviews store order user approve e) b =
    Bounded-same db db' (review_cancel_request-slots store order user approve db e) b
Step-Bounded db db' (moves now in_ o e) b = Bounded-same db db' (transition-slots now in_ db e) b
Step-Bounded db db' (pays now store order e) b =
    Bounded-same db db' (on_payment_success-slots now store order db e) b
Step-Bounded db db' (expires now e) b = rw e (release_expired_orders-Bounded now db b)
Step-Bounded db db' (opens_day store sku date qty e) b = rw e (
    Bounded-same db (ensure_daily store sku date qty db) (ensure_daily-slots store sku date qty db)
      b)
Step-Bounded db db' (adjusts in_ e) b = Bounded-same db db' (adjust-slots in_ db e) b

-- After any history of committed operations from a state in which no pickup slot is overbooked, none is.
pub History-Bounded : {db db' : Db} → Bounded db → History db db' → Bounded db'
History-Bounded b start = b
History-Bounded b (then_ {db₁} {db₂} h s) = Step-Bounded db₁ db₂ s (History-Bounded b h)
