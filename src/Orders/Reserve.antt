-- ===== src/Orders/Reserve.antt =====
-- internal/orders/create.go: `allocatePickupNo`, `reserveInventory` and `reservePickupSlot`.
use dishflow_glm.Prelude.{
  ℕ, ℤ, pos, negsuc, zero, suc, ◌+◌, max, ltb, ◌==◌, if◌then◌else◌, Bool, false, ◌&&◌, ◌||◌, Option,
  none, some, List, [], ◌∷◌, Result, ok, err, ◌>>◌, fail_if,
}
use dishflow_glm.Store.{
  Db, Order, Daily, Reservation, Hold, reserved, Movement, Slot, set_daily, set_slot, TradeError,
  no_daily_inventory, insufficient_stock, pickup_slot_full, invalid_scheduled_for, duplicate_key,
  check_violation,
}

abbrev pub Traded : Type 0 → Type 0
Traded A = Result TradeError A

-- `SELECT MAX(pickup_no)`, or 0 where there is no row.
unfoldable pub max_pickup_no : ℕ → ℕ → List Order → ℕ
max_pickup_no store date [] = 0
max_pickup_no store date (o ∷ os) =
    if (o.store_id == store) && (o.business_date == date)
    then max o.pickup_no (max_pickup_no store date os)
    else max_pickup_no store date os

unfoldable pub allocate_pickup_no : ℕ → ℕ → Db → ℕ
unfolding max_pickup_no
allocate_pickup_no store date db = max_pickup_no store date db.orders + 1

-- The unique key of `inventory_reservations`: order, SKU and day.
abbrev pub is_reservation_of : ℕ → ℕ → ℕ → Reservation → Bool
is_reservation_of order sku date r =
    (r.order_id == order) && (r.sku_id == sku) && (r.business_date == date)

unfoldable pub has_reservation : ℕ → ℕ → ℕ → List Reservation → Bool
has_reservation order sku date [] = false
has_reservation order sku date (r ∷ rs) =
    is_reservation_of order sku date r || has_reservation order sku date rs

-- The statements after the stock test, for a positive quantity.
unfoldable pub take_stock : ℕ → ℕ → ℕ → ℕ → ℕ → Daily → Db → Traded Db
unfolding has_reservation
take_stock store sku date qty order d db = do
  fail_if (has_reservation order sku date db.reservations) duplicate_key
  ok (record db {
    daily = set_daily store sku date (record d { reserved_qty = d.reserved_qty + qty }) db.daily;
    reservations =
        record {
          store_id = store;
          order_id = order;
          sku_id = sku;
          business_date = date;
          quantity = qty;
          state = reserved;
        }
        ∷ db.reservations;
    movements =
        record {
          store_id = store;
          sku_id = sku;
          business_date = date;
          movement_type = dishflow_glm.Store.reserve;
          delta_reserved = pos qty;
          delta_sold = pos 0;
          order_id = some order;
          reason = 1;
          operator_id = none;
        }
        ∷ db.movements;
  })

-- A quantity of zero or less passes the stock test, and then breaks `chk_ir_qty`.
unfoldable pub reserve_row : ℕ → ℕ → ℕ → ℤ → ℕ → Daily → Db → Traded Db
unfolding take_stock
reserve_row store sku date (pos zero) order d db = do
  fail_if (ltb d.target_qty (d.reserved_qty + d.sold_qty)) insufficient_stock
  err check_violation
reserve_row store sku date (pos (suc q)) order d db = do
  fail_if (ltb d.target_qty (d.reserved_qty + d.sold_qty + suc q)) insufficient_stock
  take_stock store sku date (suc q) order d db
reserve_row store sku date (negsuc q) order d db = do
  fail_if (ltb (d.target_qty + suc q) (d.reserved_qty + d.sold_qty)) insufficient_stock
  err check_violation

unfoldable pub reserve_found : ℕ → ℕ → ℕ → ℤ → ℕ → Option Daily → Db → Traded Db
unfolding reserve_row
reserve_found store sku date qty order none db = err no_daily_inventory
reserve_found store sku date qty order (some d) db = reserve_row store sku date qty order d db

unfoldable pub reserve_inventory : ℕ → ℕ → ℕ → ℤ → ℕ → Db → Traded Db
unfolding reserve_found
reserve_inventory store sku date qty order db =
    reserve_found store sku date qty order (db.daily store sku date) db

-- `INSERT ... WHERE NOT EXISTS`: a new slot takes one order.
unfoldable pub slot_or_new : Option Slot → Slot
slot_or_new none = record { capacity_snapshot = 1; reserved_orders = 0 }
slot_or_new (some s) = s

-- The conditional `UPDATE`, and the test of the rows that it affected.
unfoldable pub reserve_slot_at : ℕ → ℕ → Db → Traded Db
unfolding slot_or_new
reserve_slot_at store time db =
    let s = slot_or_new (db.slots store time) in
    if ltb s.reserved_orders s.capacity_snapshot
    then ok (record db {
      slots = set_slot store time (record s { reserved_orders = s.reserved_orders + 1 }) db.slots;
    })
    else err pickup_slot_full

-- Go's two time layouts, read by functions that return the instant.
pub record Clock : Type 0 where
  pub parse_rfc3339 : ℕ → Option ℕ
  pub parse_local : ℕ → Option ℕ

abbrev pub or_else : Option ℕ → Option ℕ → Option ℕ
or_else none b = b
or_else (some a) b = some a

unfoldable pub parse_scheduled : Clock → ℕ → Option ℕ
parse_scheduled clock text = or_else (clock.parse_rfc3339 text) (clock.parse_local text)

unfoldable pub reserve_parsed : ℕ → Option ℕ → Db → Traded Db
unfolding reserve_slot_at
reserve_parsed store none db = err invalid_scheduled_for
reserve_parsed store (some time) db = reserve_slot_at store time db

unfoldable pub reserve_pickup_slot : Clock → ℕ → ℕ → Db → Traded Db
unfolding parse_scheduled reserve_parsed
reserve_pickup_slot clock store text db = reserve_parsed store (parse_scheduled clock text) db

-- `scheduledForTime`
unfoldable pub scheduled_for_time : Clock → ℕ → Option ℕ
unfolding parse_scheduled
scheduled_for_time clock text = if text == 0 then none else parse_scheduled clock text

-- `nullInt64`
unfoldable pub null_int64 : ℕ → Option ℕ
null_int64 v = if v == 0 then none else some v
