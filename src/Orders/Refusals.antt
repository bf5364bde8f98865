-- ===== src/Orders/Refusals.antt =====
-- internal/orders/create.go: requests that `Create` refuses because of the tables' keys and capacities.
use dishflow_glm.Prelude.{
  ℕ, ℤ, pos, negsuc, zero, suc, ◌≡◌, ◌≢◌, refl, arith, true, false, none, List, [], ◌∷◌, ◌++◌, ok,
  err, >>=-eq-ok, Option-cases, inl, inr,
}
use dishflow_glm.Store.{Db, Daily, Slot, set_slot, pickup_slot_full}
use dishflow_glm.Orders.Reserve.{
  Clock, has_reservation, take_stock, reserve_row, reserve_found, reserve_inventory,
  reserve_slot_at, slot_or_new,
}
use dishflow_glm.Orders.Create.{
  CreateInput, LineItemSnapshot, insert_order, fill_order, reserve_cart, create_new, new_order,
}
use dishflow_glm.Orders.Reserve.{allocate_pickup_no}

-- A reservation is there after it has been made, and then refuses another one of its key.
take_stock_has :
    (store sku date qty order : ℕ) (d : Daily) (db : Db) {db' : Db}
    → take_stock store sku date qty order d db ≡ ok db'
    → (has_reservation order sku date db.reservations ≡ false)
      × (has_reservation order sku date db'.reservations ≡ true)
      × ((k : ℕ)
          → has_reservation order k date db.reservations ≡ true
          → has_reservation order k date db'.reservations ≡ true)
unfolding take_stock has_reservation
take_stock_has store sku date qty order d db h = ground arith

-- The reservation of an order for a SKU is new, is there afterwards, and stays.
Reserves : ℕ → ℕ → ℕ → Db → Db → Type 0
Reserves order sku date db db' =
    (has_reservation order sku date db.reservations ≡ false)
    × (has_reservation order sku date db'.reservations ≡ true)
    × ((k : ℕ)
        → has_reservation order k date db.reservations ≡ true
        → has_reservation order k date db'.reservations ≡ true)

reserve_inventory-Reserves :
    (store sku date : ℕ) (qty : ℤ) (order : ℕ) (db : Db) {db' : Db}
    → reserve_inventory store sku date qty order db ≡ ok db'
    → Reserves order sku date db db'
unfolding reserve_inventory reserve_found reserve_row Reserves
reserve_inventory-Reserves store sku date (pos zero) order db h =
    elim (Option-cases (db.daily store sku date)) [
      | inl e ↦ absurd (ground arith)
      | inr (d, e) ↦ absurd (ground arith)
    ]
reserve_inventory-Reserves store sku date (pos (suc q)) order db {db'} h =
    elim (Option-cases (db.daily store sku date)) [
      | inl e ↦ absurd (ground arith)
      | inr (d, e) ↦
          let taken : take_stock store sku date (suc q) order d db ≡ ok db' = ground arith in
          take_stock_has store sku date (suc q) order d db taken
    ]
reserve_inventory-Reserves store sku date (negsuc q) order db h =
    elim (Option-cases (db.daily store sku date)) [
      | inl e ↦ absurd (ground arith)
      | inr (d, e) ↦ absurd (ground arith)
    ]

-- A SKU that the order has reserved already stops the loop.
reserve_cart_again :
    (store date order : ℕ) (ys : List LineItemSnapshot) (b : LineItemSnapshot)
    (zs : List LineItemSnapshot) (db : Db) {db' : Db}
    → has_reservation order b.sku_id date db.reservations ≡ true
    → reserve_cart store date order (ys ++ b ∷ zs) db ≢ ok db'
unfolding reserve_cart Reserves
reserve_cart_again store date order [] b zs db has h =
    let (mid, first, rest) =
      >>=-eq-ok (reserve_inventory store b.sku_id date b.quantity order db) _ h in
    let (fresh, _, _) = reserve_inventory-Reserves store b.sku_id date b.quantity order db first in
    absurd (cc)
reserve_cart_again store date order (y ∷ ys) b zs db has h =
    let (mid, first, rest) =
      >>=-eq-ok (reserve_inventory store y.sku_id date y.quantity order db) _ h in
    let (_, _, keeps) = reserve_inventory-Reserves store y.sku_id date y.quantity order db first in
    reserve_cart_again store date order ys b zs mid (keeps b.sku_id has) rest

reserve_cart_duplicate :
    (store date order : ℕ) (xs : List LineItemSnapshot) (a : LineItemSnapshot)
    (ys : List LineItemSnapshot) (b : LineItemSnapshot) (zs : List LineItemSnapshot) (db : Db)
    {db' : Db}
    → a.sku_id ≡ b.sku_id
    → reserve_cart store date order (xs ++ a ∷ ys ++ b ∷ zs) db ≢ ok db'
unfolding reserve_cart Reserves
reserve_cart_duplicate store date order [] a ys b zs db same h =
    let (mid, first, rest) =
      >>=-eq-ok (reserve_inventory store a.sku_id date a.quantity order db) _ h in
    let (_, now, _) = reserve_inventory-Reserves store a.sku_id date a.quantity order db first in
    reserve_cart_again store date order ys b zs mid (rw same at now) rest
reserve_cart_duplicate store date order (x ∷ xs) a ys b zs db same h =
    let (mid, first, rest) =
      >>=-eq-ok (reserve_inventory store x.sku_id date x.quantity order db) _ h in
    reserve_cart_duplicate store date order xs a ys b zs mid same rest

-- No new order can be created from a cart that has one SKU in two lines, whatever their options: the
-- reservations of an order are unique by SKU and day.
pub create_new_duplicate :
    (clock : Clock) (order_no : ℕ) (in_ : CreateInput) (db : Db) (xs : List LineItemSnapshot)
    (a : LineItemSnapshot) (ys : List LineItemSnapshot) (b : LineItemSnapshot)
    (zs : List LineItemSnapshot) (id : ℕ) (db' : Db)
    → in_.cart ≡ xs ++ a ∷ ys ++ b ∷ zs
    → a.sku_id ≡ b.sku_id
    → create_new clock order_no in_ db ≢ ok (id, db')
unfolding create_new fill_order
create_new_duplicate clock order_no in_ db xs a ys b zs id db' cart same h =
    let pickup_no = allocate_pickup_no in_.store_id in_.business_date db in
    let row = new_order clock in_ order_no pickup_no db.next_id in
    let (db₁, inserted, h₁) = >>=-eq-ok (insert_order row db) _ h in
    let (db₂, filled, h₂) = >>=-eq-ok (fill_order clock in_ db.next_id db₁) _ h₁ in
    let (db₃, stock, f₁) =
      >>=-eq-ok (reserve_cart in_.store_id in_.business_date db.next_id in_.cart db₁) _ filled in
    reserve_cart_duplicate in_.store_id in_.business_date db.next_id xs a ys b zs db₁ same
      (rw cart at stock)

-- A pickup time that has no row yet takes one order, and refuses the next: the row that is made for it
-- has a capacity of one.
pub reserve_slot_at_once :
    (store time : ℕ) (db : Db)
    → db.slots store time ≡ none
    → (db' : Db) × (reserve_slot_at store time db ≡ ok db')
      × (reserve_slot_at store time db' ≡ err pickup_slot_full)
unfolding reserve_slot_at slot_or_new
reserve_slot_at_once store time db h =
    let taken : Slot = record { capacity_snapshot = 1; reserved_orders = 1 } in
    let db' : Db = record db { slots = set_slot store time taken db.slots } in
    (db', rw h refl, ground (arith))
