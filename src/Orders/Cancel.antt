-- ===== src/Orders/Cancel.antt =====
-- internal/orders/cancel.go: `Cancel`, `MarkRefunded`, `StaffRefund` and `ReviewCancelRequest`, each one
-- transaction; an error is a rollback.
use dishflow_glm.Prelude.{
  ℕ, ◌+◌, ◌==◌, if◌then◌else◌, Bool, true, false, not, ◌&&◌, none, some, ok, err, ◌>>=◌, ◌>>◌,
  fail_if, update_where, find?,
}
use dishflow_glm.Store.{
  Db, Order, OrderEvent, State, pending_payment, paid, accepted, cancelled, refunding, refunded,
  cancel_requested, Actor, customer, staff, system, no_rows, not_your_order, invalid_transition,
  cancel_request, order_cancelled, order_refunded, staff_refund, cancel_review,
}
use dishflow_glm.Orders.StateMachine.{can_transition, is_customer}
use dishflow_glm.Orders.Reserve.{Traded}
use dishflow_glm.Orders.Create.{insert_event}
use dishflow_glm.Orders.Release.{has_id, release_inventory, release_pickup_capacity}

pub data TriggerKind : Type 0 where
  no_trigger customer_auto customer_review staff_manual : TriggerKind

pub record CancelResult : Type 0 where
  pub new_state : State
  pub need_refund : Bool
  pub refund_trigger_kind : TriggerKind

pub record CancelInput : Type 0 where
  pub store_id : ℕ
  pub order_id : ℕ
  pub customer_id : ℕ
  pub actor : Actor

-- `WHERE id=? AND store_id=?`
abbrev pub is_order : ℕ → ℕ → Order → Bool
is_order store order o = (o.id == order) && (o.store_id == store)

unfoldable pub load_order : ℕ → ℕ → Db → Traded Order
load_order store order db = elim (find? (is_order store order) db.orders) [
  | none ↦ err no_rows
  | some o ↦ ok o
]

abbrev pub is_version : ℕ → ℕ → Order → Bool
is_version order version o = (o.id == order) && (o.version == version)

-- `SET fulfillment_state=?, version=version+1`
abbrev pub move_to : State → Order → Order
move_to s o = record o { state = s; version = o.version + 1 }

unfoldable pub update_version : ℕ → ℕ → State → Db → Db
update_version order version s db = record db {
  orders = update_where (is_version order version) (move_to s) db.orders;
}

abbrev pub is_pending : State → Bool
is_pending pending_payment = true
is_pending _ = false

abbrev pub is_pending_order : ℕ → Order → Bool
is_pending_order order o = (o.id == order) && is_pending o.state

abbrev pub cancel_row : ℕ → Order → Order
cancel_row now o = record o { state = cancelled; cancelled_at = some now; version = o.version + 1 }

unfoldable pub cancel_and_release : ℕ → ℕ → ℕ → Actor → Db → Db
unfolding release_inventory release_pickup_capacity insert_event
cancel_and_release now order store actor db =
    insert_event
      (record {
        order_id = order;
        store_id = store;
        event_type = order_cancelled;
        from_state = none;
        to_state = cancelled;
        actor_type = actor;
        actor_id = none;
      })
      (release_pickup_capacity now order (
        release_inventory order (record db {
          orders = update_where (is_pending_order order) (cancel_row now) db.orders;
        })))

abbrev pub request_event : ℕ → ℕ → State → State → OrderEvent
request_event order store from to = record {
  order_id = order;
  store_id = store;
  event_type = cancel_request;
  from_state = some from;
  to_state = to;
  actor_type = customer;
  actor_id = none;
}

-- The `switch` on the order's state.
unfoldable pub cancel_in : State → ℕ → CancelInput → ℕ → Db → Traded (CancelResult × Db)
unfolding cancel_and_release update_version insert_event
cancel_in pending_payment now in_ version db = ok (
  record { new_state = cancelled; need_refund = false; refund_trigger_kind = no_trigger },
  cancel_and_release now in_.order_id in_.store_id customer db,
)
cancel_in paid now in_ version db = ok (
  record { new_state = refunding; need_refund = true; refund_trigger_kind = customer_auto },
  insert_event (request_event in_.order_id in_.store_id paid refunding)
      (update_version in_.order_id version refunding db),
)
cancel_in accepted now in_ version db = ok (
  record { new_state = cancel_requested; need_refund = false; refund_trigger_kind = no_trigger },
  insert_event (request_event in_.order_id in_.store_id accepted cancel_requested)
      (update_version in_.order_id version cancel_requested db),
)
cancel_in cancel_requested now in_ version db = ok (
  record { new_state = cancel_requested; need_refund = false; refund_trigger_kind = no_trigger },
  db,
)
cancel_in refunding now in_ version db =
    ok (record { new_state = refunding; need_refund = false; refund_trigger_kind = no_trigger }, db)
cancel_in _ now in_ version db = err invalid_transition

unfoldable pub cancel : ℕ → CancelInput → Db → Traded (CancelResult × Db)
unfolding load_order cancel_in
cancel now in_ db = do
  o ← load_order in_.store_id in_.order_id db
  fail_if (is_customer in_.actor && not (o.customer_id == in_.customer_id)) not_your_order
  cancel_in o.state now in_ o.version db

abbrev pub refund_row : Order → Order
refund_row o = record o {
  state = refunded;
  refunded_cents = o.payable_cents;
  version = o.version + 1;
}

-- The statements of `MarkRefunded` on an order that is being refunded.
unfoldable pub refund_order : ℕ → ℕ → ℕ → Db → Db
unfolding release_inventory release_pickup_capacity insert_event
refund_order now store order db =
    insert_event
      (record {
        order_id = order;
        store_id = store;
        event_type = order_refunded;
        from_state = some refunding;
        to_state = refunded;
        actor_type = system;
        actor_id = none;
      })
      (release_pickup_capacity now order (
        release_inventory order
          (record db { orders = update_where (has_id order) refund_row db.orders })))

unfoldable pub mark_refunded_in : State → ℕ → ℕ → ℕ → Db → Traded Db
unfolding refund_order
mark_refunded_in refunded now store order db = ok db
mark_refunded_in refunding now store order db = ok (refund_order now store order db)
mark_refunded_in _ now store order db = err invalid_transition

unfoldable pub mark_refunded : ℕ → ℕ → ℕ → Db → Traded Db
unfolding load_order mark_refunded_in
mark_refunded now store order db = do
  o ← load_order store order db
  mark_refunded_in o.state now store order db

unfoldable pub staff_refund_order : ℕ → ℕ → ℕ → Db → Traded Db
unfolding load_order can_transition update_version insert_event
staff_refund_order store order user db = do
  o ← load_order store order db
  fail_if (not (can_transition o.state refunding staff)) invalid_transition
  ok (
      insert_event
        (record {
          order_id = order;
          store_id = store;
          event_type = staff_refund;
          from_state = some o.state;
          to_state = refunding;
          actor_type = staff;
          actor_id = some user;
        })
        (update_version order o.version refunding db))

abbrev pub is_cancel_requested : State → Bool
is_cancel_requested cancel_requested = true
is_cancel_requested _ = false

unfoldable pub review_cancel_request : ℕ → ℕ → ℕ → Bool → Db → Traded Db
unfolding load_order update_version insert_event
review_cancel_request store order user approve db = do
  o ← load_order store order db
  fail_if (not (is_cancel_requested o.state)) invalid_transition
  let to = if approve then refunding else accepted
  ok (
      insert_event
        (record {
          order_id = order;
          store_id = store;
          event_type = cancel_review;
          from_state = some cancel_requested;
          to_state = to;
          actor_type = staff;
          actor_id = some user;
        })
        (update_version order o.version to db))
