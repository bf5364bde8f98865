-- ===== src/Capacity/Operations.antt =====
-- internal/orders and internal/worker: the operations that change a pickup slot keep to its capacity.
use dishflow_glm.Prelude.{
  ℕ, ◌==◌, ◌≡◌, subst, not, ◌&&◌, List, [], ◌∷◌, ok, err, >>=-eq-ok, fail_if, update_where,
}
use dishflow_glm.Store.{
  Db, State, Actor, customer, pending_payment, paid, accepted, cancel_requested, refunding,
  refunded, not_your_order,
}
use dishflow_glm.Orders.StateMachine.{is_customer}
use dishflow_glm.Orders.Reserve.{Traded}
use dishflow_glm.Orders.Create.{insert_event}
use dishflow_glm.Orders.Release.{has_id}
use dishflow_glm.Orders.Cancel.{
  CancelInput, CancelResult, load_order, cancel_in, cancel, cancel_and_release, refund_order,
  mark_refunded_in, mark_refunded, is_pending_order, cancel_row, refund_row,
}
use dishflow_glm.Worker.Expire.{
  expire_capacity, cancel_expired, expire_with, expire_order, expire_reserved, expire_all,
  select_expired, release_expired_orders,
}
use dishflow_glm.Capacity.Updates.{Bounded, released-Bounded, expire_slot-AllFit}

ok-snd :
    {A B : Type 0} (a b : A) (x y : B) → ◌≡◌ {A = Traded (A × B)} (ok (a, x)) (ok (b, y)) → x ≡ y
ok-snd a b x y h = cc

cancel_and_release-Bounded :
    (now order store : ℕ) (actor : Actor) (db : Db)
    → Bounded db
    → Bounded (cancel_and_release now order store actor db)
unfolding cancel_and_release insert_event
cancel_and_release-Bounded now order store actor db b =
    let moved = record db {
      orders = update_where (is_pending_order order) (cancel_row now) db.orders;
    } in
    let done = released-Bounded now order moved (record { fit = b.fit }) in
    record { fit = done.fit }

cancel_in-Bounded :
    (s : State) (now : ℕ) (in_ : CancelInput) (version : ℕ) (db : Db) {r : CancelResult} {db' : Db}
    → Bounded db
    → cancel_in s now in_ version db ≡ ok (r, db')
    → Bounded db'
unfolding cancel_in
cancel_in-Bounded pending_payment now in_ version db b h =
    subst Bounded (ok-snd _ _ _ _ h)
      (cancel_and_release-Bounded now in_.order_id in_.store_id customer db b)
cancel_in-Bounded paid now in_ version db b h =
    subst Bounded (ok-snd _ _ _ _ h) (record { fit = b.fit })
cancel_in-Bounded accepted now in_ version db b h =
    subst Bounded (ok-snd _ _ _ _ h) (record { fit = b.fit })
cancel_in-Bounded refunding now in_ version db b h = subst Bounded (ok-snd _ _ _ _ h) b
cancel_in-Bounded cancel_requested now in_ version db b h = subst Bounded (ok-snd _ _ _ _ h) b
cancel_in-Bounded _ now in_ version db b h = cc

pub cancel-Bounded :
    (now : ℕ) (in_ : CancelInput) (db : Db) {r : CancelResult} {db' : Db}
    → Bounded db
    → cancel now in_ db ≡ ok (r, db')
    → Bounded db'
unfolding cancel
cancel-Bounded now in_ db b h =
    let (o, _, h₁) = >>=-eq-ok (load_order in_.store_id in_.order_id db) _ h in
    let (_, _, h₂) =
      >>=-eq-ok
        (fail_if (is_customer in_.actor && not (o.customer_id == in_.customer_id)) not_your_order) _
        h₁ in
    cancel_in-Bounded o.state now in_ o.version db b h₂

refund_order-Bounded :
    (now store order : ℕ) (db : Db) → Bounded db → Bounded (refund_order now store order db)
unfolding refund_order insert_event
refund_order-Bounded now store order db b =
    let moved = record db { orders = update_where (has_id order) refund_row db.orders } in
    let done = released-Bounded now order moved (record { fit = b.fit }) in
    record { fit = done.fit }

mark_refunded_in-Bounded :
    (s : State) (now store order : ℕ) (db : Db) {db' : Db}
    → Bounded db
    → mark_refunded_in s now store order db ≡ ok db'
    → Bounded db'
unfolding mark_refunded_in
mark_refunded_in-Bounded refunded now store order db {db'} b h =
    let same : db ≡ db' = cc in subst Bounded same b
mark_refunded_in-Bounded refunding now store order db {db'} b h =
    let same : refund_order now store order db ≡ db' = cc in
    subst Bounded same (refund_order-Bounded now store order db b)
mark_refunded_in-Bounded _ now store order db b h = cc

pub mark_refunded-Bounded :
    (now store order : ℕ) (db : Db) {db' : Db}
    → Bounded db
    → mark_refunded now store order db ≡ ok db'
    → Bounded db'
unfolding mark_refunded
mark_refunded-Bounded now store order db b h =
    let (o, _, h₁) = >>=-eq-ok (load_order store order db) _ h in
    mark_refunded_in-Bounded o.state now store order db b h₁

expire_order-Bounded :
    (now order store : ℕ) (db : Db) → Bounded db → Bounded (expire_order now order store db)
unfolding expire_order expire_with expire_capacity cancel_expired
expire_order-Bounded now order store db b =
    elim (expire_reserved order db.reservations db.daily)
      as (λ r. Bounded (elim r [ err e ↦ db | ok daily ↦ expire_with now order store daily db ])) [
        | err e ↦ b
        | ok daily ↦ record { fit = expire_slot-AllFit _ db.slots b.fit }
      ]

expire_all-Bounded :
    (now : ℕ) (found : List (ℕ × ℕ)) (db : Db) → Bounded db → Bounded (expire_all now found db)
unfolding expire_all
expire_all-Bounded now [] db b = b
expire_all-Bounded now ((order, store) ∷ found) db b =
    expire_all-Bounded now found (expire_order now order store db)
      (expire_order-Bounded now order store db b)

pub release_expired_orders-Bounded :
    (now : ℕ) (db : Db) → Bounded db → Bounded (release_expired_orders now db)
unfolding release_expired_orders
release_expired_orders-Bounded now db b =
    expire_all-Bounded now (select_expired now 100 db.orders) db b
