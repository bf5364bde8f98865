-- ===== src/Worker/Outbox.antt =====
-- internal/worker/worker.go: `processOutbox`, `handleOutboxEvent`, `onRefundSuccess`, and the points that
-- `onPaymentSuccess` awards after its transaction.
use dishflow_glm.Prelude.{
  ℕ, ℤ, pos, ltb, ltb_ℤ, ◌==◌, if◌then◌else◌, ◌&&◌, Option, none, some, List, [], ◌∷◌, ok, err,
  ◌>>=◌,
}
use dishflow_glm.Store.{
  Db, Order, OutboxRow, OutboxEvent, order_created, payment_success, refund_success,
}
use dishflow_glm.Orders.Reserve.{Traded}
use dishflow_glm.Orders.Release.{find_order}
use dishflow_glm.Orders.Cancel.{mark_refunded}
use dishflow_glm.Worker.Payment.{on_payment_success}
use dishflow_glm.Worker.Queue.{select_due, lock_batch, mark_outbox_sent, bump_outbox_attempt}
use dishflow_glm.Members.Points.{Pointed, award_points, reverse_points}

-- What the worker reads elsewhere: the points rate of a store, the order of a refund (0 where there is none),
-- and the two texts that `fmt.Sprintf` makes of a number.
pub record Surroundings : Type 0 where
  pub points_per_yuan : ℕ → Option ℤ
  pub aggregate_order_id : ℕ → ℕ → ℕ
  pub earn_pay : ℕ → ℕ
  pub reverse_refund : ℕ → ℕ

-- `_, _ = AwardPoints(...)` and `_ = ReversePoints(...)`: an error changes nothing and is forgotten.
abbrev pub awarded : Db → Pointed (ℤ × Db) → Db
awarded db (ok (balance, db')) = db'
awarded db (err e) = db

abbrev pub reversed : Db → Pointed Db → Db
reversed db (ok db') = db'
reversed db (err e) = db

abbrev pub award_at : Surroundings → ℕ → Order → Option ℤ → Db → Db
award_at env store o none db = db
award_at env store o (some rate) db =
    if ltb 0 o.customer_id && ltb_ℤ (pos 0) o.paid_cents && ltb_ℤ (pos 0) rate
    then awarded db (award_points store o.customer_id o.id o.paid_cents rate (env.earn_pay o.id) db)
    else db

abbrev pub award_order : Surroundings → ℕ → Option Order → Db → Db
award_order env store none db = db
award_order env store (some o) db = award_at env store o (env.points_per_yuan o.store_id) db

unfoldable pub award_paid : Surroundings → ℕ → ℕ → Db → Db
unfolding award_points find_order
award_paid env store order db = award_order env store (find_order order db.orders) db

abbrev pub reverse_customer : Surroundings → ℕ → ℕ → ℕ → ℕ → Db → Db
reverse_customer env store customer refund order db =
    if ltb 0 customer
    then reversed db (reverse_points store customer refund order (env.reverse_refund refund) db)
    else db

unfoldable pub on_refund_success : Surroundings → ℕ → ℕ → ℕ → ℕ → ℕ → Db → Traded Db
unfolding mark_refunded reverse_points
on_refund_success env now store refund order customer db = do
  let order' = if order == 0 then env.aggregate_order_id store refund else order
  db' ← mark_refunded now store order' db
  ok (reverse_customer env store customer refund order' db')

-- The `switch` on the type of the event.
unfoldable pub handle_event : Surroundings → ℕ → OutboxEvent → ℕ → ℕ → Db → Traded Db
unfolding on_payment_success award_paid on_refund_success
handle_event env now payment_success store aggregate db = do
  db' ← on_payment_success now store aggregate db
  ok (award_paid env store aggregate db')
handle_event env now (refund_success order customer) store aggregate db =
    on_refund_success env now store aggregate order customer db
handle_event env now order_created store aggregate db = ok db

unfoldable pub handle_outbox_event : Surroundings → ℕ → OutboxRow → Db → Traded Db
unfolding handle_event
handle_outbox_event env now row db = handle_event env now row.event row.store_id row.aggregate_id db

-- The row is sent, or its next attempt is put off.
abbrev pub settle_row : ℕ → OutboxRow → Db → Traded Db → Db
settle_row now row db (ok db') = mark_outbox_sent row.id db'
settle_row now row db (err e) = bump_outbox_attempt now row.id row.attempts db

unfoldable pub handle_batch : Surroundings → ℕ → List OutboxRow → Db → Db
unfolding handle_outbox_event mark_outbox_sent bump_outbox_attempt
handle_batch env now [] db = db
handle_batch env now (row ∷ rows) db =
    handle_batch env now rows (settle_row now row db (handle_outbox_event env now row db))

unfoldable pub process_outbox : Surroundings → ℕ → Db → Db
unfolding select_due lock_batch handle_batch
process_outbox env now db =
    let batch = select_due now db.outbox in handle_batch env now batch (lock_batch now batch db)
