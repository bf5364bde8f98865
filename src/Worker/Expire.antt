-- ===== src/Worker/Expire.antt =====
-- internal/worker/worker.go: `releaseExpiredOrders`.
use dishflow_glm.Prelude.{
  ℕ, zero, suc, ◌-◌, ltb, if◌then◌else◌, Bool, true, false, ◌&&◌, Option, none, some, List, [], ◌∷◌,
  ok, err, ◌>>=◌, ◌>>◌, fail_if, update_where,
}
use dishflow_glm.Store.{
  Db, Order, Daily, Reservation, released, Slot, Stock, Slots, set_daily, set_slot, cancelled,
  system, order_expired, check_violation,
}
use dishflow_glm.Orders.Reserve.{Traded}
use dishflow_glm.Orders.Create.{insert_event}
use dishflow_glm.Orders.Release.{is_reserved_by, set_hold, has_id, find_order, holds_slot, is_none}
use dishflow_glm.Orders.Cancel.{is_pending, is_pending_order, cancel_row}

-- `reserved_qty - quantity`, this time without GREATEST.
abbrev pub unreserve_row : Reservation → Option Daily → Stock → Traded Stock
unreserve_row r none daily = ok daily
unreserve_row r (some d) daily = do
  fail_if (ltb d.reserved_qty r.quantity) check_violation
  ok (
      set_daily r.store_id r.sku_id r.business_date
        (record d { reserved_qty = d.reserved_qty - r.quantity }) daily)

unfoldable pub unreserve_checked : Reservation → Stock → Traded Stock
unreserve_checked r daily = unreserve_row r (daily r.store_id r.sku_id r.business_date) daily

unfoldable pub expire_reserved : ℕ → List Reservation → Stock → Traded Stock
unfolding unreserve_checked
expire_reserved order [] daily = ok daily
expire_reserved order (r ∷ rs) daily = do
  daily' ← if is_reserved_by order r then unreserve_checked r daily else ok daily
  expire_reserved order rs daily'

-- `psc.reserved_orders - 1 ... AND psc.reserved_orders > 0`
abbrev pub expire_row : ℕ → ℕ → Option Slot → Slots → Slots
expire_row store time none slots = slots
expire_row store time (some s) slots =
    if ltb 0 s.reserved_orders
    then set_slot store time (record s { reserved_orders = s.reserved_orders - 1 }) slots
    else slots

abbrev pub expire_slot : Option Order → Slots → Slots
expire_slot none slots = slots
expire_slot (some o) slots = elim o.scheduled_for [
  | none ↦ slots
  | some time ↦
      if is_none o.released_at
      then slots
      else expire_row o.store_id time (slots o.store_id time) slots
]

-- The two UPDATEs on the capacity: the mark, and then the slot of an order that bears one.
unfoldable pub expire_capacity : ℕ → ℕ → Db → Db
unfolding find_order
expire_capacity now order db =
    let marked =
      update_where (λ o. has_id order o && holds_slot o) (λ o. record o { released_at = some now })
        db.orders in
    record db { orders = marked; slots = expire_slot (find_order order marked) db.slots }

unfoldable pub cancel_expired : ℕ → ℕ → ℕ → Db → Db
unfolding insert_event
cancel_expired now order store db =
    insert_event
      (record {
        order_id = order;
        store_id = store;
        event_type = order_expired;
        from_state = none;
        to_state = cancelled;
        actor_type = system;
        actor_id = none;
      })
      (record db { orders = update_where (is_pending_order order) (cancel_row now) db.orders })

-- The statements for one order once its stock is back.
unfoldable pub expire_with : ℕ → ℕ → ℕ → Stock → Db → Db
unfolding expire_capacity cancel_expired
expire_with now order store daily db = cancel_expired now order store (
    expire_capacity now order (record db {
      daily = daily;
      reservations = update_where (is_reserved_by order) (set_hold released) db.reservations;
    }))

-- One round of the loop: `continue` leaves the state as it was.
unfoldable pub expire_order : ℕ → ℕ → ℕ → Db → Db
unfolding expire_reserved expire_with
expire_order now order store db = elim (expire_reserved order db.reservations db.daily) [
  | err e ↦ db
  | ok daily ↦ expire_with now order store daily db
]

-- `SELECT ... expires_at < now LIMIT 100`
abbrev pub is_expired : ℕ → Order → Bool
is_expired now o = is_pending o.state && ltb o.expires_at now

unfoldable pub select_expired : ℕ → ℕ → List Order → List (ℕ × ℕ)
select_expired now zero os = []
select_expired now (suc limit) [] = []
select_expired now (suc limit) (o ∷ os) = elim (is_expired now o) [
  | true ↦ (o.id, o.store_id) ∷ select_expired now limit os
  | false ↦ select_expired now (suc limit) os
]

unfoldable pub expire_all : ℕ → List (ℕ × ℕ) → Db → Db
unfolding expire_order
expire_all now [] db = db
expire_all now ((order, store) ∷ ids) db = expire_all now ids (expire_order now order store db)

unfoldable pub release_expired_orders : ℕ → Db → Db
unfolding select_expired expire_all
release_expired_orders now db = expire_all now (select_expired now 100 db.orders) db
