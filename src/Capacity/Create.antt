-- ===== src/Capacity/Create.antt =====
-- internal/orders/create.go: a created order takes a place in a pickup slot only where one is left.
use dishflow_glm.Prelude.{
  ℕ, ℤ, pos, negsuc, zero, suc, ◌==◌, ltb, ◌≡◌, subst, arith, not, ◌&&◌, Option, none, some, List,
  [], ◌∷◌, ok, >>=-eq-ok, fail_if, Bool-cases, Option-cases, inl, inr,
}
use dishflow_glm.Store.{Db, Order, IdemKey, order_create, idempotency_key_required, quote_expired}
use dishflow_glm.Orders.Reserve.{
  Clock, Traded, reserve_slot_at, reserve_parsed, reserve_pickup_slot, parse_scheduled,
  allocate_pickup_no, reserve_inventory, reserve_found, reserve_row, take_stock,
}
use dishflow_glm.Orders.Create.{
  CreateInput, LineItemSnapshot, create, create_once, create_stored, create_new, new_order,
  insert_order, fill_order, reserve_cart, reserve_slot, insert_item, insert_items, finish_order,
  find_idem, insert_event,
}
use dishflow_glm.Capacity.Updates.{Bounded, Bounded-same, reserve_slot_at-Bounded}

reserve_slot-Bounded :
    (clock : Clock) (in_ : CreateInput) (db : Db) {db' : Db}
    → Bounded db
    → reserve_slot clock in_ db ≡ ok db'
    → Bounded db'
unfolding reserve_slot reserve_pickup_slot reserve_parsed
reserve_slot-Bounded clock in_ db {db'} b h =
    elim (Bool-cases (
      dishflow_glm.Orders.Create.is_pickup in_.quote.scenario
      && not (in_.quote.scheduled_for == 0))) [
        | inl e ↦ elim (Option-cases (parse_scheduled clock in_.quote.scheduled_for)) [
          | inl f ↦ absurd (ground arith)
          | inr (time, f) ↦
              let taken : reserve_slot_at in_.store_id time db ≡ ok db' = ground arith in
              reserve_slot_at-Bounded in_.store_id time db b taken
        ]
        | inr e ↦ let same : db ≡ db' = ground arith in subst Bounded same b
      ]

reserve_inventory-slots :
    (store sku date : ℕ) (qty : ℤ) (order : ℕ) (db : Db) {db' : Db}
    → reserve_inventory store sku date qty order db ≡ ok db'
    → db'.slots ≡ db.slots
unfolding reserve_inventory reserve_found reserve_row take_stock
reserve_inventory-slots store sku date (pos zero) order db h =
    elim (Option-cases (db.daily store sku date)) [
      | inl e ↦ absurd (ground arith)
      | inr (d, e) ↦ absurd (ground arith)
    ]
reserve_inventory-slots store sku date (pos (suc q)) order db h =
    elim (Option-cases (db.daily store sku date)) [
      | inl e ↦ absurd (ground arith)
      | inr (d, e) ↦ ground arith
    ]
reserve_inventory-slots store sku date (negsuc q) order db h =
    elim (Option-cases (db.daily store sku date)) [
      | inl e ↦ absurd (ground arith)
      | inr (d, e) ↦ absurd (ground arith)
    ]

reserve_cart-Bounded :
    (store date order : ℕ) (cart : List LineItemSnapshot) (db : Db) {db' : Db}
    → Bounded db
    → reserve_cart store date order cart db ≡ ok db'
    → Bounded db'
unfolding reserve_cart
reserve_cart-Bounded store date order [] db {db'} b h =
    let same : db ≡ db' = cc in subst Bounded same b
reserve_cart-Bounded store date order (li ∷ cart) db b h =
    let (mid, first, rest) =
      >>=-eq-ok (reserve_inventory store li.sku_id date li.quantity order db) _ h in
    reserve_cart-Bounded store date order cart mid
      (Bounded-same db mid (reserve_inventory-slots store li.sku_id date li.quantity order db first)
        b)
      rest

insert_items-slots :
    (store order : ℕ) (cart : List LineItemSnapshot) (db : Db) {db' : Db}
    → insert_items store order cart db ≡ ok db'
    → db'.slots ≡ db.slots
unfolding insert_items
insert_items-slots store order [] db h = ground arith
insert_items-slots store order (li ∷ cart) db {db'} h =
    ground (arith, insert_items-slots store order cart (insert_item store order li db) {db' = db'})

finish_order-slots :
    (in_ : CreateInput) (order : ℕ) (db : Db) {db' : Db}
    → finish_order in_ order db ≡ ok db'
    → db'.slots ≡ db.slots
unfolding finish_order
finish_order-slots in_ order db h = ground arith

insert_order-slots :
    (new : Order) (db : Db) {db' : Db} → insert_order new db ≡ ok db' → db'.slots ≡ db.slots
unfolding insert_order
insert_order-slots new db h = ground arith

create_new-Bounded :
    (clock : Clock) (order_no : ℕ) (in_ : CreateInput) (db : Db) {id : ℕ} {db' : Db}
    → Bounded db
    → create_new clock order_no in_ db ≡ ok (id, db')
    → Bounded db'
unfolding create_new fill_order
create_new-Bounded clock order_no in_ db {id} {db'} b h =
    let pickup_no = allocate_pickup_no in_.store_id in_.business_date db in
    let row = new_order clock in_ order_no pickup_no db.next_id in
    let (db₁, inserted, h₁) = >>=-eq-ok (insert_order row db) _ h in
    let (db₂, filled, h₂) = >>=-eq-ok (fill_order clock in_ db.next_id db₁) _ h₁ in
    let state : db₂ ≡ db' = cc in
    let (m, stock, f₁) =
      >>=-eq-ok (reserve_cart in_.store_id in_.business_date db.next_id in_.cart db₁) _ filled in
    let (n, slot, f₂) = >>=-eq-ok (reserve_slot clock in_ m) _ f₁ in
    let (p, items, f₃) = >>=-eq-ok (insert_items in_.store_id db.next_id in_.cart n) _ f₂ in
    let b₁ = Bounded-same db db₁ (insert_order-slots row db inserted) b in
    let b₂ = reserve_cart-Bounded in_.store_id in_.business_date db.next_id in_.cart db₁ b₁ stock in
    let b₃ = reserve_slot-Bounded clock in_ m b₂ slot in
    let b₄ = Bounded-same n p (insert_items-slots in_.store_id db.next_id in_.cart n items) b₃ in
    subst Bounded state (Bounded-same p db₂ (finish_order-slots in_ db.next_id p f₃) b₄)

create_once-Bounded :
    (clock : Clock) (order_no : ℕ) (in_ : CreateInput) (row : Option IdemKey) (db : Db) {id : ℕ}
    {db' : Db}
    → Bounded db
    → create_once clock order_no in_ row db ≡ ok (id, db')
    → Bounded db'
unfolding create_once create_stored
create_once-Bounded clock order_no in_ none db b h = create_new-Bounded clock order_no in_ db b h
create_once-Bounded clock order_no in_ (some row) db {id} {db'} b h =
    elim (Option-cases row.response) [
      | inl f ↦ absurd (cc (rw f at h))
      | inr (existing, f) ↦ elim (Bool-cases (ltb 0 existing)) [
        | inl old ↦
            let same : ◌≡◌ {A = Traded (ℕ × Db)} (ok (existing, db)) (ok (id, db')) =
              rw old at (rw f at h) in
            let state : db ≡ db' = cc in subst Bounded state b
        | inr new ↦ create_new-Bounded clock order_no in_ db b (rw new at (rw f at h))
      ]
    ]

pub create-Bounded :
    (clock : Clock) (now order_no : ℕ) (in_ : CreateInput) (db : Db) {id : ℕ} {db' : Db}
    → Bounded db
    → create clock now order_no in_ db ≡ ok (id, db')
    → Bounded db'
unfolding create
create-Bounded clock now order_no in_ db b h =
    let (_, _, h₁) = >>=-eq-ok (fail_if (in_.idempotency_key == 0) idempotency_key_required) _ h in
    let (_, _, h₂) = >>=-eq-ok (fail_if (ltb in_.quote.expires_at now) quote_expired) _ h₁ in
    create_once-Bounded clock order_no in_
      (find_idem (order_create in_.store_id) in_.idempotency_key db.idem_keys) db b h₂
