-- ===== src/Orders/Release.antt =====
-- internal/orders/cancel.go: `releaseInventory` and `releasePickupCapacity`. A joined UPDATE visits the
-- order's reservations one by one; the unique key of the reservations lets no two of them meet in a row.
use dishflow_glm.Prelude.{
  ℕ, ◌-◌, ◌==◌, if◌then◌else◌, Bool, true, false, ◌&&◌, Option, none, some, List, [], ◌∷◌,
  update_where, find?,
}
use dishflow_glm.Store.{
  Db, Order, Daily, Reservation, Hold, reserved, fulfilled, released, Slot, Stock, Slots, set_daily,
  set_slot,
}

abbrev pub is_reserved : Hold → Bool
is_reserved reserved = true
is_reserved _ = false

abbrev pub is_fulfilled : Hold → Bool
is_fulfilled fulfilled = true
is_fulfilled _ = false

-- `ir.order_id=? AND ir.state='RESERVED'`, and the same for FULFILLED.
abbrev pub is_reserved_by : ℕ → Reservation → Bool
is_reserved_by order r = (r.order_id == order) && is_reserved r.state

abbrev pub is_fulfilled_by : ℕ → Reservation → Bool
is_fulfilled_by order r = (r.order_id == order) && is_fulfilled r.state

abbrev pub update_row : Reservation → (Daily → Daily) → Option Daily → Stock → Stock
update_row r f none daily = daily
update_row r f (some d) daily = set_daily r.store_id r.sku_id r.business_date (f d) daily

-- One visited reservation of a joined UPDATE.
unfoldable pub update_daily : Reservation → (Daily → Daily) → Stock → Stock
update_daily r f daily = update_row r f (daily r.store_id r.sku_id r.business_date) daily

-- `GREATEST(0, reserved_qty - quantity)`
abbrev pub unreserve : ℕ → Daily → Daily
unreserve qty d = record d { reserved_qty = d.reserved_qty - qty }

abbrev pub unsell : ℕ → Daily → Daily
unsell qty d = record d { sold_qty = d.sold_qty - qty }

unfoldable pub release_reserved : ℕ → List Reservation → Stock → Stock
unfolding update_daily
release_reserved order [] daily = daily
release_reserved order (r ∷ rs) daily =
    release_reserved order rs
      (if is_reserved_by order r then update_daily r (unreserve r.quantity) daily else daily)

unfoldable pub release_sold : ℕ → List Reservation → Stock → Stock
unfolding update_daily
release_sold order [] daily = daily
release_sold order (r ∷ rs) daily =
    release_sold order rs
      (if is_fulfilled_by order r then update_daily r (unsell r.quantity) daily else daily)

abbrev pub set_hold : Hold → Reservation → Reservation
set_hold h r = record r { state = h }

unfoldable pub mark_released : ℕ → List Reservation → List Reservation
mark_released order rs =
    update_where (is_fulfilled_by order) (set_hold released)
      (update_where (is_reserved_by order) (set_hold released) rs)

-- The four statements of `releaseInventory`.
unfoldable pub release_inventory : ℕ → Db → Db
unfolding release_reserved release_sold mark_released
release_inventory order db = record db {
  daily = release_sold order db.reservations (release_reserved order db.reservations db.daily);
  reservations = mark_released order db.reservations;
}

abbrev pub has_id : ℕ → Order → Bool
has_id order o = o.id == order

unfoldable pub find_order : ℕ → List Order → Option Order
find_order order os = find? (has_id order) os

abbrev pub is_none {ℓ} : {A : Type ℓ} → Option A → Bool
is_none none = true
is_none (some a) = false

-- `pickup_capacity_released_at IS NULL AND scheduled_for IS NOT NULL`
abbrev pub holds_slot : Order → Bool
holds_slot o = is_none o.released_at && (elim o.scheduled_for [ none ↦ false | some t ↦ true ])

abbrev pub free_row : ℕ → ℕ → Option Slot → Slots → Slots
free_row store time none slots = slots
free_row store time (some s) slots =
    set_slot store time (record s { reserved_orders = s.reserved_orders - 1 }) slots

-- `GREATEST(0, reserved_orders - 1)` in the slot of an order.
abbrev pub free_slot : ℕ → Option ℕ → Slots → Slots
free_slot store none slots = slots
free_slot store (some time) slots = free_row store time (slots store time) slots

unfoldable pub release_capacity_of : ℕ → Option Order → Db → Db
release_capacity_of now none db = db
release_capacity_of now (some o) db =
    if holds_slot o
    then record db {
      orders = update_where (has_id o.id) (λ p. record p { released_at = some now }) db.orders;
      slots = free_slot o.store_id o.scheduled_for db.slots;
    }
    else db

unfoldable pub release_pickup_capacity : ℕ → ℕ → Db → Db
unfolding find_order release_capacity_of
release_pickup_capacity now order db = release_capacity_of now (find_order order db.orders) db
