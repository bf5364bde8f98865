-- ===== src/Payments/Frames.antt =====
-- internal/orders, internal/worker and internal/inventory: what they leave of the outbox, and the counter of the
-- identifiers.
use dishflow_glm.Prelude.{
  ℕ, ◌≤◌, ◌≡◌, refl, arith, if◌then◌else◌, Bool, true, false, ◌&&◌, ◌==◌, List, [], ◌∷◌, ok,
  >>=-eq-ok, fail_if-eq-ok, Option-cases, Bool-cases, inl, inr, not, update_where,
}
use dishflow_glm.Store.{
  Db, State, pending_payment, paid, accepted, refunding, cancel_requested, Actor, customer,
  OutboxRow, OutboxEvent, payment_success, not_your_order,
}
use dishflow_glm.Orders.StateMachine.{is_customer}
use dishflow_glm.Orders.Create.{insert_event}
use dishflow_glm.Orders.Cancel.{
  CancelInput, CancelResult, cancel, cancel_in, cancel_and_release, is_pending_order, cancel_row,
  load_order, update_version,
}
use dishflow_glm.Orders.Release.{release_inventory, release_pickup_capacity, find_order, holds_slot}
use dishflow_glm.Payments.Store.{Till, WebhookProvider, insert_webhook, has_webhook}

abbrev pub is_payment_event : OutboxEvent → Bool
is_payment_event payment_success = true
is_payment_event _ = false

-- A row of the outbox says that the order has been paid.
abbrev pub is_announced : ℕ → List OutboxRow → Bool
is_announced order [] = false
is_announced order (row ∷ rows) =
    if is_payment_event row.event && (row.aggregate_id == order)
    then true
    else is_announced order rows

-- Nothing that was announced is unsaid, and no identifier is given twice.
pub record Grows (db : Db) (db' : Db) : Type 0 where
  pub announced :
      (order : ℕ) → is_announced order db.outbox ≡ true → is_announced order db'.outbox ≡ true
  pub later : db.next_id ≤ db'.next_id

pub Grows-same : (db db' : Db) → db'.outbox ≡ db.outbox → db'.next_id ≡ db.next_id → Grows db db'
Grows-same db db' e n = record { announced = λ o h. rw e h; later = omega arith }

release_inventory-same :
    (order : ℕ) (db : Db)
    → ((release_inventory order db).outbox ≡ db.outbox)
      × ((release_inventory order db).next_id ≡ db.next_id)
unfolding release_inventory
release_inventory-same order db = (refl, refl)

release_pickup_capacity-same :
    (now order : ℕ) (db : Db)
    → ((release_pickup_capacity now order db).outbox ≡ db.outbox)
      × ((release_pickup_capacity now order db).next_id ≡ db.next_id)
unfolding release_pickup_capacity
release_pickup_capacity-same now order db = elim (Option-cases (find_order order db.orders)) [
  | inl e ↦ rw e (refl, refl)
  | inr (o, e) ↦
      rw e
        (elim (Bool-cases (holds_slot o)) [ inl h ↦ rw h (refl, refl) | inr h ↦ rw h (refl, refl) ])
]

cancel_and_release-same :
    (now order store : ℕ) (actor : Actor) (db : Db)
    → ((cancel_and_release now order store actor db).outbox ≡ db.outbox)
      × ((cancel_and_release now order store actor db).next_id ≡ db.next_id)
unfolding cancel_and_release
cancel_and_release-same now order store actor db = ground (
  arith,
  release_inventory-same order
      (record db { orders = update_where (is_pending_order order) (cancel_row now) db.orders }),
  release_pickup_capacity-same now order (
      release_inventory order
        (record db { orders = update_where (is_pending_order order) (cancel_row now) db.orders })),
)

cancel_in-same :
    (s : State) (now : ℕ) (in_ : CancelInput) (version : ℕ) (db : Db) {r : CancelResult} {db' : Db}
    → cancel_in s now in_ version db ≡ ok (r, db')
    → (db'.outbox ≡ db.outbox) × (db'.next_id ≡ db.next_id)
unfolding cancel_in update_version insert_event
cancel_in-same pending_payment now in_ version db h =
    ground (arith, cancel_and_release-same now in_.order_id in_.store_id customer db)
cancel_in-same paid now in_ version db h = ground arith
cancel_in-same accepted now in_ version db h = ground arith
cancel_in-same refunding now in_ version db h = ground arith
cancel_in-same cancel_requested now in_ version db h = ground arith
cancel_in-same _ now in_ version db h = cc

pub cancel-Grows :
    (now : ℕ) (in_ : CancelInput) (db : Db) {r : CancelResult} {db' : Db}
    → cancel now in_ db ≡ ok (r, db')
    → Grows db db'
unfolding cancel
cancel-Grows now in_ db {r} {db'} h =
    let (o, _, h₁) = >>=-eq-ok (load_order in_.store_id in_.order_id db) _ h in
    let (_, h₂) =
      fail_if-eq-ok (is_customer in_.actor && not (o.customer_id == in_.customer_id)) not_your_order
        _ h₁ in
    let (e, n) = cancel_in-same o.state now in_ o.version db h₂ in Grows-same db db' e n

-- The rows of the webhooks are beside the others.
module _ (provider : WebhookProvider) (store event resource : ℕ) (till : Till) where
  pub insert_webhook-payments :
      (insert_webhook provider store event resource till).payments ≡ till.payments
  unfolding has_webhook
  insert_webhook-payments = ground arith

  pub insert_webhook-refunds :
      (insert_webhook provider store event resource till).refunds ≡ till.refunds
  unfolding has_webhook
  insert_webhook-refunds = ground arith

  pub insert_webhook-db : (insert_webhook provider store event resource till).db ≡ till.db
  unfolding has_webhook
  insert_webhook-db = ground arith
