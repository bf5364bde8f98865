-- ===== src/Stock/Outbox.antt =====
-- internal/worker/worker.go: the delivery of outbox events keeps the books of the stock.
use dishflow_glm.Prelude.{
  ◌⊎◌, ℕ, ℤ, ◌==◌, ◌≡◌, refl, subst, arith, if◌then◌else◌, Option, none, some, List, [], ◌∷◌, ok,
  err, >>=-eq-ok, find?, Option-cases, inl, inr,
}
use dishflow_glm.Store.{
  TradeError, Db, OutboxRow, OutboxEvent, order_created, payment_success, refund_success,
  Membership, LedgerEntry,
}
use dishflow_glm.Orders.Reserve.{Traded}
use dishflow_glm.Orders.Release.{find_order}
use dishflow_glm.Orders.Cancel.{mark_refunded}
use dishflow_glm.Worker.Payment.{on_payment_success}
use dishflow_glm.Worker.Queue.{select_due, lock_batch, mark_outbox_sent, bump_outbox_attempt}
use dishflow_glm.Worker.Outbox.{
  Surroundings, awarded, reversed, award_paid, reverse_customer, on_refund_success, handle_event,
  handle_outbox_event, settle_row, handle_batch, process_outbox,
}
use dishflow_glm.Members.Points.{
  post, award_active, award_member, award_points, points_for, reverse_earned, reverse_member,
  reverse_points, is_customer_of_store, is_earned,
}
use dishflow_glm.Stock.Books.{Books}
use dishflow_glm.Stock.Sell.{on_payment_success-Books}
use dishflow_glm.Stock.Reserve.{SameStock, Books-SameStock}
use dishflow_glm.Stock.Trade.{mark_refunded-Books}

post-SameStock : (e : LedgerEntry) (db : Db) {db' : Db} → post e db ≡ ok db' → SameStock db db'
unfolding post
post-SameStock e db h = ground arith

awarded-SameStock :
    (row : Option Membership) (customer order : ℕ) (points : ℤ) (key : ℕ) (db : Db)
    → SameStock db (awarded db (award_member row customer order points key db))
unfolding award_member award_active post
awarded-SameStock none customer order points key db = (refl, refl)
awarded-SameStock (some m) customer order points key db = ground arith

award_paid-SameStock :
    (env : Surroundings) (store order : ℕ) (db : Db) → SameStock db (award_paid env store order db)
unfolding award_paid award_points
award_paid-SameStock env store order db = elim (Option-cases (find_order order db.orders)) [
  | inl e ↦ rw e (refl, refl)
  | inr (o, e) ↦ elim (Option-cases (env.points_per_yuan o.store_id)) [
    | inl f ↦ rw (e, f) (refl, refl)
    | inr (rate, f) ↦ ground (
      arith,
      awarded-SameStock (find? (is_customer_of_store o.customer_id store) db.memberships)
          o.customer_id o.id (points_for o.paid_cents rate) (env.earn_pay o.id) db,
    )
  ]
]

reversed-SameStock :
    (row : Option Membership) (customer refund order key : ℕ) (db : Db)
    → SameStock db (reversed db (reverse_member row customer refund order key db))
unfolding reverse_member reverse_earned post
reversed-SameStock none customer refund order key db = (refl, refl)
reversed-SameStock (some m) customer refund order key db =
    elim (Option-cases (find? (is_earned customer order) db.ledger)) [
      | inl e ↦ rw e (refl, refl)
      | inr (entry, e) ↦ ground arith
    ]

reverse_customer-SameStock :
    (env : Surroundings) (store customer refund order : ℕ) (db : Db)
    → SameStock db (reverse_customer env store customer refund order db)
unfolding reverse_points
reverse_customer-SameStock env store customer refund order db = ground (
  arith,
  reversed-SameStock (find? (is_customer_of_store customer store) db.memberships) customer refund
      order (env.reverse_refund refund) db,
)

handle_event-Books :
    (env : Surroundings) (now : ℕ) (event : OutboxEvent) (store aggregate : ℕ) (db : Db) {db' : Db}
    → Books db
    → handle_event env now event store aggregate db ≡ ok db'
    → Books db'
unfolding handle_event on_refund_success
handle_event-Books env now payment_success store aggregate db {db'} b h =
    let (mid, paid, h₁) = >>=-eq-ok (on_payment_success now store aggregate db) _ h in
    let state : award_paid env store aggregate mid ≡ db' = cc in
    subst Books state (
      Books-SameStock mid _ (award_paid-SameStock env store aggregate mid)
        (on_payment_success-Books now store aggregate db b paid))
handle_event-Books env now (refund_success order customer) store aggregate db {db'} b h =
    let order' = if order == 0 then env.aggregate_order_id store aggregate else order in
    let (mid, refunded, h₁) = >>=-eq-ok (mark_refunded now store order' db) _ h in
    let state : reverse_customer env store customer aggregate order' mid ≡ db' = cc in
    subst Books state (
      Books-SameStock mid _ (reverse_customer-SameStock env store customer aggregate order' mid)
        (mark_refunded-Books now store order' db b refunded))
handle_event-Books env now order_created store aggregate db {db'} b h =
    let state : db ≡ db' = cc in subst Books state b

Result-cases : (r : Traded Db) → ((d : Db) × (r ≡ ok d)) ⊎ ((e : TradeError) × (r ≡ err e))
Result-cases (ok d) = inl (d, refl)
Result-cases (err e) = inr (e, refl)

settle_row-Books :
    (env : Surroundings) (now : ℕ) (row : OutboxRow) (db : Db)
    → Books db
    → Books (settle_row now row db (handle_outbox_event env now row db))
unfolding handle_outbox_event mark_outbox_sent bump_outbox_attempt
settle_row-Books env now row db b =
    elim (Result-cases (handle_event env now row.event row.store_id row.aggregate_id db)) [
      | inl (d, e) ↦
          let done = handle_event-Books env now row.event row.store_id row.aggregate_id db b e in
          rw e (record { agree = done.agree })
      | inr (x, e) ↦ rw e (record { agree = b.agree })
    ]

handle_batch-Books :
    (env : Surroundings) (now : ℕ) (rows : List OutboxRow) (db : Db)
    → Books db
    → Books (handle_batch env now rows db)
unfolding handle_batch
handle_batch-Books env now [] db b = b
handle_batch-Books env now (row ∷ rows) db b =
    handle_batch-Books env now rows (settle_row now row db (handle_outbox_event env now row db))
      (settle_row-Books env now row db b)

lock_batch-SameStock :
    (now : ℕ) (rows : List OutboxRow) (db : Db) → SameStock db (lock_batch now rows db)
unfolding lock_batch
lock_batch-SameStock now [] db = (refl, refl)
lock_batch-SameStock now (row ∷ rows) db = lock_batch-SameStock now rows _

-- A round of the worker over the outbox leaves the books of the stock in order, whatever events are due and
-- whichever of them fail.
pub process_outbox-Books :
    (env : Surroundings) (now : ℕ) (db : Db) → Books db → Books (process_outbox env now db)
unfolding process_outbox
process_outbox-Books env now db b =
    let batch = select_due now db.outbox in
    handle_batch-Books env now batch (lock_batch now batch db)
      (Books-SameStock db (lock_batch now batch db) (lock_batch-SameStock now batch db) b)
