-- ===== src/Life/Create.antt =====
-- internal/orders/create.go: a creation adds one order under a new number, and leaves the others alone.
use dishflow_glm.Prelude.{
  find?_holds, ℕ, ℤ, pos, negsuc, zero, suc, ◌+◌, ◌≤◌, ◌<◌, ◌==◌, ltb, ◌≡◌, refl, subst, arith,
  false, Option, none, some, List, [], ◌∷◌, ok, All-map, >>=-eq-ok, fail_if, Bool-cases,
  Option-cases, inl, inr,
}
use dishflow_glm.Store.{Db, Order, IdemKey, order_create, idempotency_key_required, quote_expired}
use dishflow_glm.Orders.Reserve.{
  Clock, Traded, allocate_pickup_no, reserve_inventory, reserve_found, reserve_row, take_stock,
}
use dishflow_glm.Orders.Create.{
  CreateInput, LineItemSnapshot, create, create_once, create_stored, create_new, new_order,
  insert_order, fill_order, reserve_cart, reserve_slot, insert_item, insert_items, finish_order,
  find_idem,
}
use dishflow_glm.Orders.Release.{has_id, find_order}
use dishflow_glm.Life.Rows.{
  All-find?, Evolves-refl, Tracks, ids, Keeps, Keeps-same, Keyed, Keyed-Keeps,
}

-- The orders are the same, and no number is given back.
abbrev SameOrders : Db → Db → Type 0
SameOrders db db' = (db'.orders ≡ db.orders) × (db.next_id ≤ db'.next_id)

reserve_inventory-SameOrders :
    (store sku date : ℕ) (qty : ℤ) (order : ℕ) (db : Db) {db' : Db}
    → reserve_inventory store sku date qty order db ≡ ok db'
    → SameOrders db db'
unfolding reserve_inventory reserve_found reserve_row take_stock
reserve_inventory-SameOrders store sku date (pos zero) order db h =
    elim (Option-cases (db.daily store sku date)) [
      | inl e ↦ absurd (ground arith)
      | inr (d, e) ↦ absurd (ground arith)
    ]
reserve_inventory-SameOrders store sku date (pos (suc q)) order db h =
    elim (Option-cases (db.daily store sku date)) [
      | inl e ↦ absurd (ground arith)
      | inr (d, e) ↦ ground arith
    ]
reserve_inventory-SameOrders store sku date (negsuc q) order db h =
    elim (Option-cases (db.daily store sku date)) [
      | inl e ↦ absurd (ground arith)
      | inr (d, e) ↦ absurd (ground arith)
    ]

SameOrders-trans : (a b c : Db) → SameOrders a b → SameOrders b c → SameOrders a c
SameOrders-trans a b c p q = (rw q.0 p.0, omega arith)

reserve_cart-SameOrders :
    (store date order : ℕ) (cart : List LineItemSnapshot) (db : Db) {db' : Db}
    → reserve_cart store date order cart db ≡ ok db'
    → SameOrders db db'
unfolding reserve_cart
reserve_cart-SameOrders store date order [] db h = ground arith
reserve_cart-SameOrders store date order (li ∷ cart) db {db'} h =
    let (mid, first, rest) =
      >>=-eq-ok (reserve_inventory store li.sku_id date li.quantity order db) _ h in
    SameOrders-trans db mid db'
      (reserve_inventory-SameOrders store li.sku_id date li.quantity order db first)
      (reserve_cart-SameOrders store date order cart mid rest)

reserve_slot-SameOrders :
    (clock : Clock) (in_ : CreateInput) (db : Db) {db' : Db}
    → reserve_slot clock in_ db ≡ ok db'
    → SameOrders db db'
unfolding reserve_slot
reserve_slot-SameOrders clock in_ db h = ground arith

insert_items-SameOrders :
    (store order : ℕ) (cart : List LineItemSnapshot) (db : Db) {db' : Db}
    → insert_items store order cart db ≡ ok db'
    → SameOrders db db'
unfolding insert_items
insert_items-SameOrders store order [] db h = ground arith
insert_items-SameOrders store order (li ∷ cart) db {db'} h =
    ground
      (arith, insert_items-SameOrders store order cart (insert_item store order li db) {db' = db'})

finish_order-SameOrders :
    (in_ : CreateInput) (order : ℕ) (db : Db) {db' : Db}
    → finish_order in_ order db ≡ ok db'
    → SameOrders db db'
unfolding finish_order
finish_order-SameOrders in_ order db h = ground arith

fill_order-SameOrders :
    (clock : Clock) (in_ : CreateInput) (order : ℕ) (db : Db) {db' : Db}
    → fill_order clock in_ order db ≡ ok db'
    → SameOrders db db'
unfolding fill_order
fill_order-SameOrders clock in_ order db {db'} h =
    let (db₁, stock, h₁) =
      >>=-eq-ok (reserve_cart in_.store_id in_.business_date order in_.cart db) _ h in
    let (db₂, slot, h₂) = >>=-eq-ok (reserve_slot clock in_ db₁) _ h₁ in
    let (db₃, items, h₃) = >>=-eq-ok (insert_items in_.store_id order in_.cart db₂) _ h₂ in
    SameOrders-trans db db₁ db'
      (reserve_cart-SameOrders in_.store_id in_.business_date order in_.cart db stock)
      (SameOrders-trans db₁ db₂ db' (reserve_slot-SameOrders clock in_ db₁ slot) (
        SameOrders-trans db₂ db₃ db' (insert_items-SameOrders in_.store_id order in_.cart db₂ items)
          (finish_order-SameOrders in_ order db₃ h₃)))

-- The orders have evolved, and their key is still one.
pub record Lives (db : Db) (db' : Db) : Type 0 where
  pub tracks : Tracks db.orders db'.orders
  pub keyed : Keyed db'

pub Lives-Keeps : (db db' : Db) → Keyed db → Keeps db db' → Lives db db'
Lives-Keeps db db' key k = record { tracks = k.tracks; keyed = Keyed-Keeps k key }

Lives-SameOrders : (a b c : Db) → Lives a b → SameOrders b c → Lives a c
Lives-SameOrders a b c l s = record {
  tracks = λ i o h. let (o', found, e) = l.tracks i o h in (o', rw s.0 found, e);
  keyed = record {
    distinct = rw s.0 l.keyed.distinct;
    fresh = rw s.0 (All-map (ids b.orders) (λ i less. omega arith) l.keyed.fresh);
  };
}

insert_order-Lives :
    (new : Order) (db : Db) {db' : Db}
    → Keyed db
    → new.id ≡ db.next_id
    → insert_order new db ≡ ok db'
    → Lives db db'
unfolding insert_order find_order
insert_order-Lives new db {db'} key e h =
    let rows : db'.orders ≡ new ∷ db.orders = ground arith in
    let next : db'.next_id ≡ db.next_id + 1 = ground arith in
    record {
      tracks = λ i o found.
          let less = All-find? (λ j. j < db.next_id) (has_id i) db.orders found key.fresh in
          let test = find?_holds (has_id i) db.orders found in
          let other : has_id i new ≡ false = ground arith in
          (o, rw (rows, other) found, Evolves-refl o);
      keyed = record {
        distinct =
            rw rows (All-map (ids db.orders) (λ j less. omega arith) key.fresh, key.distinct);
        fresh =
            rw (rows, next)
              (omega arith, All-map (ids db.orders) (λ j less. omega arith) key.fresh);
      };
    }

create_new-Lives :
    (clock : Clock) (order_no : ℕ) (in_ : CreateInput) (db : Db) {id : ℕ} {db' : Db}
    → Keyed db
    → create_new clock order_no in_ db ≡ ok (id, db')
    → Lives db db'
unfolding create_new new_order
create_new-Lives clock order_no in_ db {id} {db'} key h =
    let pickup_no = allocate_pickup_no in_.store_id in_.business_date db in
    let row = new_order clock in_ order_no pickup_no db.next_id in
    let (db₁, inserted, h₁) = >>=-eq-ok (insert_order row db) _ h in
    let (db₂, filled, h₂) = >>=-eq-ok (fill_order clock in_ db.next_id db₁) _ h₁ in
    let state : db₂ ≡ db' = cc in
    subst (Lives db) state (
      Lives-SameOrders db db₁ db₂ (insert_order-Lives row db key refl inserted)
        (fill_order-SameOrders clock in_ db.next_id db₁ filled))

create_once-Lives :
    (clock : Clock) (order_no : ℕ) (in_ : CreateInput) (row : Option IdemKey) (db : Db) {id : ℕ}
    {db' : Db}
    → Keyed db
    → create_once clock order_no in_ row db ≡ ok (id, db')
    → Lives db db'
unfolding create_once create_stored
create_once-Lives clock order_no in_ none db key h = create_new-Lives clock order_no in_ db key h
create_once-Lives clock order_no in_ (some row) db {id} {db'} key h =
    elim (Option-cases row.response) [
      | inl f ↦ absurd (cc (rw f at h))
      | inr (existing, f) ↦ elim (Bool-cases (ltb 0 existing)) [
        | inl old ↦
            let same : ◌≡◌ {A = Traded (ℕ × Db)} (ok (existing, db)) (ok (id, db')) =
              rw old at (rw f at h) in
            let state : db ≡ db' = cc in
            subst (Lives db) state (Lives-Keeps db db key (Keeps-same db db refl refl))
        | inr new ↦ create_new-Lives clock order_no in_ db key (rw new at (rw f at h))
      ]
    ]

pub create-Lives :
    (clock : Clock) (now order_no : ℕ) (in_ : CreateInput) (db : Db) {id : ℕ} {db' : Db}
    → Keyed db
    → create clock now order_no in_ db ≡ ok (id, db')
    → Lives db db'
unfolding create
create-Lives clock now order_no in_ db key h =
    let (_, _, h₁) = >>=-eq-ok (fail_if (in_.idempotency_key == 0) idempotency_key_required) _ h in
    let (_, _, h₂) = >>=-eq-ok (fail_if (ltb in_.quote.expires_at now) quote_expired) _ h₁ in
    create_once-Lives clock order_no in_
      (find_idem (order_create in_.store_id) in_.idempotency_key db.idem_keys) db key h₂
