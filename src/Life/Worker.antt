-- ===== src/Life/Worker.antt =====
-- internal/worker: payment and expiry, and how the orders evolve.
use dishflow_glm.Prelude.{
  ℕ, ◌≡◌, refl, arith, ◌&&◌, some, List, [], ◌∷◌, ok, err, >>=-eq-ok, update_where,
}
use dishflow_glm.Store.{
  Db, Order, State, pending_payment, paid, accepted, preparing, ready, completed, cancelled,
  refunding, refunded, cancel_requested, Actor, customer, staff, system, TradeError, not_your_order,
  invalid_transition, version_conflict, Stock, Slots,
}
use dishflow_glm.Orders.Release.{
  has_id, find_order, holds_slot, release_inventory, release_capacity_of, release_pickup_capacity,
}
use dishflow_glm.Worker.Payment.{is_payable, pay_row, on_payment_success, sell_reserved}
use dishflow_glm.Worker.Expire.{
  expire_capacity, cancel_expired, expire_with, expire_order, expire_reserved, expire_all,
  select_expired, release_expired_orders,
}
use dishflow_glm.Life.Moves.{stay, pay}
use dishflow_glm.Life.Rows.{evolve, Keeps, Keeps-same, Keeps-trans, update_where-Keeps}
use dishflow_glm.Worker.Payment.{log_paid, redeem_coupon}
use dishflow_glm.Life.Updates.{one, pending_state, cancelled-Keeps}

paid-Keeps :
    (now store order : ℕ) (db db' : Db)
    → db'.orders ≡ update_where (is_payable store order) (pay_row now) db.orders
    → db'.next_id ≡ db.next_id
    → Keeps db db'
paid-Keeps now store order db db' e n =
    update_where-Keeps (is_payable store order) (pay_row now) db db' e n (λ o. refl)
      (λ o _ t.
        let state = pending_state o (ground arith) in
        evolve o (pay_row now o) (rw state (one pay)) (omega arith) (refl, refl, refl, refl, refl))

pub on_payment_success-Keeps :
    (now store order : ℕ) (db : Db) {db' : Db}
    → on_payment_success now store order db ≡ ok db'
    → Keeps db db'
unfolding on_payment_success redeem_coupon log_paid
on_payment_success-Keeps now store order db {db'} h =
    let (daily, _, h₁) = >>=-eq-ok (sell_reserved order db.reservations db.daily) _ h in
    paid-Keeps now store order db db' (ground arith) (ground arith)

expire_capacity-Keeps : (now order : ℕ) (db : Db) → Keeps db (expire_capacity now order db)
unfolding expire_capacity
expire_capacity-Keeps now order db =
    update_where-Keeps (λ o. has_id order o && holds_slot o)
      (λ o. record o { released_at = some now }) db _ refl refl (λ o. refl)
      (λ o _ _. evolve o _ stay (omega arith) (refl, refl, refl, refl, refl))

cancel_expired-Keeps :
    (now order store : ℕ) (db : Db) → Keeps db (cancel_expired now order store db)
unfolding cancel_expired
cancel_expired-Keeps now order store db = cancelled-Keeps now order db _ refl refl

expire_order-Keeps : (now order store : ℕ) (db : Db) → Keeps db (expire_order now order store db)
unfolding expire_order expire_with
expire_order-Keeps now order store db =
    elim (expire_reserved order db.reservations db.daily)
      as (λ r. Keeps db (elim r [ err e ↦ db | ok daily ↦ expire_with now order store daily db ])) [
        | err e ↦ Keeps-same db db refl refl
        | ok daily ↦
            let back = record db {
              daily = daily;
              reservations =
                  update_where (dishflow_glm.Orders.Release.is_reserved_by order)
                    (dishflow_glm.Orders.Release.set_hold dishflow_glm.Store.Hold.released)
                    db.reservations;
            } in
            Keeps-trans (Keeps-same db back refl refl) (
              Keeps-trans (expire_capacity-Keeps now order back)
                (cancel_expired-Keeps now order store (expire_capacity now order back)))
      ]

expire_all-Keeps : (now : ℕ) (found : List (ℕ × ℕ)) (db : Db) → Keeps db (expire_all now found db)
unfolding expire_all
expire_all-Keeps now [] db = Keeps-same db db refl refl
expire_all-Keeps now ((order, store) ∷ found) db =
    Keeps-trans (expire_order-Keeps now order store db)
      (expire_all-Keeps now found (expire_order now order store db))

pub release_expired_orders-Keeps : (now : ℕ) (db : Db) → Keeps db (release_expired_orders now db)
unfolding release_expired_orders
release_expired_orders-Keeps now db = expire_all-Keeps now (select_expired now 100 db.orders) db
