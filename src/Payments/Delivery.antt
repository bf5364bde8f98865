-- ===== src/Payments/Delivery.antt =====
-- internal/customer/payments.go and internal/worker/worker.go: a confirmed payment makes its order paid.
use dishflow_glm.Prelude.{
  ℕ, ap, ◌∙◌, ℤ, ◌==◌, ◌≡◌, refl, arith, true, false, not, Option, none, some, List, [], ◌∷◌, ok,
  >>=-eq-ok, fail_if-eq-ok, find?, find?-update_where, find?_holds, count, update_where,
  Option-cases, inl, inr, ok_inj,
}
use dishflow_glm.Store.{Db, Order, OutboxRow, payment_success, pending, Membership}
use dishflow_glm.Orders.Create.{insert_outbox}
use dishflow_glm.Orders.Release.{find_order}
use dishflow_glm.Orders.Cancel.{is_order, is_pending}
use dishflow_glm.Worker.Payment.{
  on_payment_success, is_payable, pay_row, sell_reserved, log_paid, redeem_coupon,
}
use dishflow_glm.Worker.Queue.{is_due, take_due, select_due, lock_batch, mark_outbox_sent}
use dishflow_glm.Worker.Outbox.{
  Surroundings, awarded, award_paid, handle_event, handle_outbox_event, handle_batch,
  process_outbox,
}
use dishflow_glm.Worker.Selection.{take_due-foldl}
use dishflow_glm.Members.Points.{
  post, award_active, award_member, award_points, points_for, is_customer_of_store,
}
use dishflow_glm.Stock.Books.{Books}
use dishflow_glm.Stock.Reserve.{SameStock, Books-SameStock}
use dishflow_glm.Stock.Sell.{on_payment_success_total}
use dishflow_glm.Payments.Store.{
  order_not_found, not_payable, Payment, Till, Provider, confirm_mock_payment, is_payment_at,
  is_success,
}
use dishflow_glm.Payments.Handlers.{own_order, confirm_order}

on_payment_success-orders :
    (now store order : ℕ) (db : Db) {db' : Db}
    → on_payment_success now store order db ≡ ok db'
    → db'.orders ≡ update_where (is_payable store order) (pay_row now) db.orders
unfolding on_payment_success redeem_coupon log_paid
on_payment_success-orders now store order db {db'} h =
    let (daily, _, h₁) = >>=-eq-ok (sell_reserved order db.reservations db.daily) _ h in
    ground arith

awarded-orders :
    (row : Option Membership) (customer order : ℕ) (points : ℤ) (key : ℕ) (db : Db)
    → (awarded db (award_member row customer order points key db)).orders ≡ db.orders
unfolding award_member award_active post
awarded-orders none customer order points key db = refl
awarded-orders (some m) customer order points key db = ground arith

award_paid-orders :
    (env : Surroundings) (store order : ℕ) (db : Db)
    → (award_paid env store order db).orders ≡ db.orders
unfolding award_paid award_points
award_paid-orders env store order db = elim (Option-cases (find_order order db.orders)) [
  | inl e ↦ rw e refl
  | inr (o, e) ↦ elim (Option-cases (env.points_per_yuan o.store_id)) [
    | inl f ↦ rw (e, f) refl
    | inr (rate, f) ↦ ground (
      arith,
      awarded-orders (find? (is_customer_of_store o.customer_id store) db.memberships) o.customer_id
          o.id (points_for o.paid_cents rate) (env.earn_pay o.id) db,
    )
  ]
]

-- The batch, where the newest row alone is due.
select_due-newest :
    (now : ℕ) (row : OutboxRow) (rows : List OutboxRow)
    → is_due now row ≡ true
    → count (is_due now) rows ≡ 0
    → select_due now (row ∷ rows) ≡ row ∷ []
unfolding select_due take_due
select_due-newest now row rows h none_due =
    take_due-foldl now 50 rows (row ∷ []) none_due ∙ rw (h, take_due) refl

lock_batch-orders :
    (now : ℕ) (rows : List OutboxRow) (db : Db)
    → ((lock_batch now rows db).orders ≡ db.orders) × SameStock db (lock_batch now rows db)
unfolding lock_batch
lock_batch-orders now [] db = (refl, (refl, refl))
lock_batch-orders now (row ∷ rows) db = lock_batch-orders now rows _

-- One event of a payment, from a state whose books are in order.
handle_payment-orders :
    (env : Surroundings) (now : ℕ) (row : OutboxRow) (db : Db)
    → Books db
    → row.event ≡ payment_success
    → (handle_batch env now (row ∷ []) db).orders
      ≡ update_where (is_payable row.store_id row.aggregate_id) (pay_row now) db.orders
unfolding handle_batch handle_outbox_event handle_event mark_outbox_sent
handle_payment-orders env now row db b e =
    let (d, done) = on_payment_success_total now row.store_id row.aggregate_id db b in
    rw (e, done)
      (award_paid-orders env row.store_id row.aggregate_id d
        ∙ on_payment_success-orders now row.store_id row.aggregate_id db done)

confirmed-outbox :
    (provider : Provider) (store order transaction : ℕ) (till : Till) {till' : Till} {p : Payment}
    → confirm_mock_payment provider store order transaction till ≡ ok till'
    → find? (is_payment_at store order) till.payments ≡ some p
    → is_success p.status ≡ false
    → till'.db ≡ insert_outbox store payment_success order till.db
unfolding confirm_mock_payment
confirmed-outbox provider store order transaction till h f s = ground arith

own_order-pending :
    (customer : ℕ) (found : Option Order) {o : Order}
    → own_order customer found ≡ ok o
    → (found ≡ some o) × (is_pending o.state ≡ true)
own_order-pending customer none h = cc
own_order-pending customer (some p) {o} h =
    let (_, h₁) = fail_if-eq-ok (not (p.customer_id == customer)) order_not_found _ h in
    let (waits, h₂) = fail_if-eq-ok (not (is_pending p.state)) not_payable _ h₁ in
    let same : p ≡ o = ok_inj h₂ in (ap some same, ground arith)

-- A customer's confirmation of a mock payment that has not succeeded before, made while no other event is due
-- and the books of the stock are in order, makes the order paid in the worker's next round over the outbox.
pub confirm_order-process_outbox :
    (env : Surroundings) (provider : Provider) (store customer order transaction now : ℕ)
    (till : Till) {till' : Till} {p : Payment} {o : Order}
    → Books till.db
    → count (is_due now) till.db.outbox ≡ 0
    → find? (is_order store order) till.db.orders ≡ some o
    → find? (is_payment_at store o.id) till.payments ≡ some p
    → is_success p.status ≡ false
    → confirm_order provider store customer order transaction till ≡ ok till'
    → find? (is_order store order) (process_outbox env now till'.db).orders ≡ some (pay_row now o)
unfolding confirm_order process_outbox insert_outbox
confirm_order-process_outbox env provider store customer order transaction now till {till'} {p} {o}
      b idle f g s h =
    let (q, own, h₁) =
      >>=-eq-ok (own_order customer (find? (is_order store order) till.db.orders)) _ h in
    let (found, waits) =
      own_order-pending customer (find? (is_order store order) till.db.orders) own in
    let same : q ≡ o = cc in
    let db = confirmed-outbox provider store o.id transaction till (rw same at h₁) g s in
    let row : OutboxRow = record {
      id = till.db.next_id;
      store_id = store;
      event = payment_success;
      aggregate_id = o.id;
      status = pending;
      attempts = 0;
      next_attempt_at = none;
    } in
    let new = insert_outbox store payment_success o.id till.db in
    let locked = lock_batch now (row ∷ []) new in
    let batch = select_due-newest now row till.db.outbox refl idle in
    let (orders, stock) = lock_batch-orders now (row ∷ []) new in
    let paid_orders =
      handle_payment-orders env now row locked (Books-SameStock till.db locked stock b) refl in
    let here = find?_holds (is_order store order) till.db.orders f in
    let payable : is_payable store o.id o ≡ true = ground arith in
    let changed =
      find?-update_where (is_order store order) (is_payable store o.id) (pay_row now) till.db.orders
        (λ y. refl) f in
    rw (db, batch, paid_orders, orders, changed, payable) refl
