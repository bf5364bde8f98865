-- ===== src/Stock/Reserve.antt =====
-- internal/orders/create.go: a created order reserves its stock, and never more than the target.
use dishflow_glm.Prelude.{
  ℕ, ℤ, pos, negsuc, zero, suc, ◌+◌, ◌≤◌, ltb, ◌==◌, ◌≡◌, subst, arith, Option, none, some, List,
  [], ◌∷◌, ok, fail_if, >>=-eq-ok, Bool-cases, Option-cases, inl, inr,
}
use dishflow_glm.Store.{
  Db, Daily, Reservation, Stock, set_daily, is_key, IdemKey, order_create, idempotency_key_required,
  quote_expired,
}
use dishflow_glm.Orders.Reserve.{
  take_stock, reserve_row, reserve_found, reserve_inventory, Clock, allocate_pickup_no,
}
use dishflow_glm.Orders.Create.{
  CreateInput, LineItemSnapshot, create_stored, reserve_cart, reserve_slot, insert_item,
  insert_items, finish_order, insert_order, fill_order, create_new, create_once, create, find_idem,
  new_order,
}
use dishflow_glm.Stock.Books.{Books}

-- The stock tables are as before.
abbrev pub SameStock : Db → Db → Type 0
SameStock db db' = (db'.daily ≡ db.daily) × (db'.reservations ≡ db.reservations)

pub Books-SameStock : (db db' : Db) → SameStock db db' → Books db → Books db'
Books-SameStock db db' same b = record { agree = λ s k t. rw (same.0, same.1) (b.agree s k t) }

module _ (store sku date qty order : ℕ) (d : Daily) (db : Db) where
  take_stock-Books :
      {db' : Db}
      → Books db
      → db.daily store sku date ≡ some d
      → d.reserved_qty + d.sold_qty + qty ≤ d.target_qty
      → take_stock store sku date qty order d db ≡ ok db'
      → Books db'
  unfolding take_stock
  take_stock-Books b e fits h = record { agree = λ s k t. ground (arith, b.agree s k t) }

reserve_inventory-Books :
    (store sku date : ℕ) (qty : ℤ) (order : ℕ) (db : Db) {db' : Db}
    → Books db
    → reserve_inventory store sku date qty order db ≡ ok db'
    → Books db'
unfolding reserve_inventory reserve_found reserve_row
reserve_inventory-Books store sku date (pos zero) order db b h =
    elim (Option-cases (db.daily store sku date)) [
      | inl e ↦ absurd (ground arith)
      | inr (d, e) ↦ absurd (ground arith)
    ]
reserve_inventory-Books store sku date (pos (suc q)) order db {db'} b h =
    elim (Option-cases (db.daily store sku date)) [
      | inl e ↦ absurd (ground arith)
      | inr (d, e) ↦
          let fits : d.reserved_qty + d.sold_qty + suc q ≤ d.target_qty = ground arith in
          let taken : take_stock store sku date (suc q) order d db ≡ ok db' = ground arith in
          take_stock-Books store sku date (suc q) order d db b e fits taken
    ]
reserve_inventory-Books store sku date (negsuc q) order db b h =
    elim (Option-cases (db.daily store sku date)) [
      | inl e ↦ absurd (ground arith)
      | inr (d, e) ↦ absurd (ground arith)
    ]

reserve_cart-Books :
    (store date order : ℕ) (cart : List LineItemSnapshot) (db : Db) {db' : Db}
    → Books db
    → reserve_cart store date order cart db ≡ ok db'
    → Books db'
unfolding reserve_cart
reserve_cart-Books store date order [] db {db'} b h = ground arith
reserve_cart-Books store date order (li ∷ cart) db b h =
    let (mid, first, rest) =
      >>=-eq-ok (reserve_inventory store li.sku_id date li.quantity order db)
        (λ d. reserve_cart store date order cart d) h in
    reserve_cart-Books store date order cart mid
      (reserve_inventory-Books store li.sku_id date li.quantity order db b first) rest

reserve_slot-SameStock :
    (clock : Clock) (in_ : CreateInput) (db : Db) {db' : Db}
    → reserve_slot clock in_ db ≡ ok db'
    → SameStock db db'
unfolding reserve_slot
reserve_slot-SameStock clock in_ db h = ground arith

insert_items-SameStock :
    (store order : ℕ) (cart : List LineItemSnapshot) (db : Db) {db' : Db}
    → insert_items store order cart db ≡ ok db'
    → SameStock db db'
unfolding insert_items
insert_items-SameStock store order [] db h = ground arith
insert_items-SameStock store order (li ∷ cart) db {db'} h =
    ground
      (arith, insert_items-SameStock store order cart (insert_item store order li db) {db' = db'})

finish_order-SameStock :
    (in_ : CreateInput) (order : ℕ) (db : Db) {db' : Db}
    → finish_order in_ order db ≡ ok db'
    → SameStock db db'
unfolding finish_order
finish_order-SameStock in_ order db h = ground arith

insert_order-SameStock :
    (o : dishflow_glm.Store.Order) (db : Db) {db' : Db}
    → insert_order o db ≡ ok db'
    → SameStock db db'
unfolding insert_order
insert_order-SameStock o db h = ground arith

fill_order-Books :
    (clock : Clock) (in_ : CreateInput) (order : ℕ) (db : Db) {db' : Db}
    → Books db
    → fill_order clock in_ order db ≡ ok db'
    → Books db'
unfolding fill_order
fill_order-Books clock in_ order db {db'} b h =
    let (db₁, stock, h₁) =
      >>=-eq-ok (reserve_cart in_.store_id in_.business_date order in_.cart db) _ h in
    let (db₂, slot, h₂) = >>=-eq-ok (reserve_slot clock in_ db₁) _ h₁ in
    let (db₃, items, h₃) = >>=-eq-ok (insert_items in_.store_id order in_.cart db₂) _ h₂ in
    let b₁ = reserve_cart-Books in_.store_id in_.business_date order in_.cart db b stock in
    let b₂ = Books-SameStock db₁ db₂ (reserve_slot-SameStock clock in_ db₁ slot) b₁ in
    let b₃ =
      Books-SameStock db₂ db₃ (insert_items-SameStock in_.store_id order in_.cart db₂ items) b₂ in
    Books-SameStock db₃ db' (finish_order-SameStock in_ order db₃ h₃) b₃

create_new-Books :
    (clock : Clock) (order_no : ℕ) (in_ : CreateInput) (db : Db) {id : ℕ} {db' : Db}
    → Books db
    → create_new clock order_no in_ db ≡ ok (id, db')
    → Books db'
unfolding create_new
create_new-Books clock order_no in_ db {id} {db'} b h =
    let pickup_no = allocate_pickup_no in_.store_id in_.business_date db in
    let row = new_order clock in_ order_no pickup_no db.next_id in
    let (db₁, inserted, h₁) = >>=-eq-ok (insert_order row db) _ h in
    let (db₂, filled, h₂) = >>=-eq-ok (fill_order clock in_ db.next_id db₁) _ h₁ in
    let b₁ = Books-SameStock db db₁ (insert_order-SameStock row db inserted) b in
    let b₂ = fill_order-Books clock in_ db.next_id db₁ b₁ filled in
    let same : db₂ ≡ db' = cc in subst Books same b₂

create_once-Books :
    (clock : Clock) (order_no : ℕ) (in_ : CreateInput) (row : Option IdemKey) (db : Db) {id : ℕ}
    {db' : Db}
    → Books db
    → create_once clock order_no in_ row db ≡ ok (id, db')
    → Books db'
unfolding create_once create_stored
create_once-Books clock order_no in_ none db b h = create_new-Books clock order_no in_ db b h
create_once-Books clock order_no in_ (some row) db {id} {db'} b h =
    elim (Option-cases row.response) [
      | inl e ↦ absurd (cc (rw e at h))
      | inr (existing, e) ↦ elim (Bool-cases (ltb 0 existing)) [
        | inl old ↦
            let same : ok (existing, db) ≡ ok (id, db') = rw old at (rw e at h) in
            let same' : db ≡ db' = cc in subst Books same' b
        | inr new ↦ create_new-Books clock order_no in_ db b (rw new at (rw e at h))
      ]
    ]

-- Creating an order leaves the books in order: on every row what is reserved and sold is what the
-- reservations say, and stays within the target.
pub create-Books :
    (clock : Clock) (now order_no : ℕ) (in_ : CreateInput) (db : Db) {id : ℕ} {db' : Db}
    → Books db
    → create clock now order_no in_ db ≡ ok (id, db')
    → Books db'
unfolding create
create-Books clock now order_no in_ db {id} {db'} b h =
    let row = find_idem (order_create in_.store_id) in_.idempotency_key db.idem_keys in
    let (key, _, h₁) =
      >>=-eq-ok (fail_if (in_.idempotency_key == 0) idempotency_key_required) _ h in
    let (fresh, _, h₂) = >>=-eq-ok (fail_if (ltb in_.quote.expires_at now) quote_expired) _ h₁ in
    create_once-Books clock order_no in_ row db b h₂
