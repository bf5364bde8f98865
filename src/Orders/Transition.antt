-- ===== src/Orders/Transition.antt =====
-- internal/orders/query.go: `Transition`, which moves an order on under an optimistic lock.
use dishflow_glm.Prelude.{
  ℕ, ◌==◌, if◌then◌else◌, not, some, ok, ◌>>=◌, ◌>>◌, fail_if, update_where, count,
}
use dishflow_glm.Store.{
  Db, Order, State, accepted, completed, Actor, invalid_transition, version_conflict, state_changed,
}
use dishflow_glm.Orders.StateMachine.{can_transition}
use dishflow_glm.Orders.Reserve.{Traded, null_int64}
use dishflow_glm.Orders.Create.{insert_event}
use dishflow_glm.Orders.Release.{has_id, is_none}
use dishflow_glm.Orders.Cancel.{load_order, is_version, update_version}

pub record TransitionInput : Type 0 where
  pub store_id : ℕ
  pub order_id : ℕ
  pub to : State
  pub actor : Actor
  pub actor_user_id : ℕ
  pub expected_version : ℕ

-- `RowsAffected` of the conditional UPDATE.
unfoldable pub affected : ℕ → ℕ → Db → ℕ
affected order version db = count (is_version order version) db.orders

-- The stamps of `accepted_at` and `completed_at`: only where there is none yet.
unfoldable pub stamp : State → ℕ → Order → Order
stamp accepted now o = if is_none o.accepted_at then record o { accepted_at = some now } else o
stamp completed now o = if is_none o.completed_at then record o { completed_at = some now } else o
stamp _ now o = o

-- The row is written, stamped and logged.
unfoldable pub move : ℕ → TransitionInput → State → Db → Db
unfolding update_version stamp insert_event null_int64
move now in_ from db =
    let moved = update_version in_.order_id in_.expected_version in_.to db in
    insert_event
      (record {
        order_id = in_.order_id;
        store_id = in_.store_id;
        event_type = state_changed in_.to;
        from_state = some from;
        to_state = in_.to;
        actor_type = in_.actor;
        actor_id = null_int64 in_.actor_user_id;
      })
      (record moved { orders = update_where (has_id in_.order_id) (stamp in_.to now) moved.orders })

unfoldable pub transition : ℕ → TransitionInput → Db → Traded (Order × Db)
unfolding load_order can_transition affected move
transition now in_ db = do
  o ← load_order in_.store_id in_.order_id db
  fail_if (not (o.version == in_.expected_version)) version_conflict
  fail_if (not (can_transition o.state in_.to in_.actor)) invalid_transition
  fail_if (affected in_.order_id in_.expected_version db == 0) version_conflict
  let db' = move now in_ o.state db
  o' ← load_order in_.store_id in_.order_id db'
  ok (o', db')
