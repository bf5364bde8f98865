-- ===== src/Orders/Replay.antt =====
-- internal/orders/create.go: a repeated request with the same idempotency key gets the order of the first.
use dishflow_glm.Prelude.{
  ℕ, ◌≤◌, ◌<◌, ltb, ◌==◌, ◌≡◌, refl, sym, subst, arith, true, Option, none, some, ok, fail_if,
  >>=-eq-ok, Bool-cases, Option-cases, inl, inr,
}
use dishflow_glm.Store.{Db, IdemKey, order_create, idempotency_key_required, quote_expired}
use dishflow_glm.Orders.Reserve.{Clock, Traded, allocate_pickup_no}
use dishflow_glm.Orders.Create.{
  CreateInput, create, create_once, create_stored, create_new, find_idem, insert_order, new_order,
  fill_order, finish_order, reserve_cart, reserve_slot, insert_items,
}

-- The key's row that `find_idem` gets to see, if it names the order.
abbrev Stores : CreateInput → ℕ → Db → Type 0
Stores in_ id db =
    (row : IdemKey) × (find_idem (order_create in_.store_id) in_.idempotency_key db.idem_keys
      ≡ some row)
    × (row.response ≡ some id)

finish_order-Stores :
    (in_ : CreateInput) (order : ℕ) (db : Db) {db' : Db}
    → finish_order in_ order db ≡ ok db'
    → Stores in_ order db'
unfolding finish_order find_idem
finish_order-Stores in_ order db h = (
  record {
    subject = order_create in_.store_id;
    idem_key = in_.idempotency_key;
    response = some order;
  },
  ground arith,
  refl,
)

create_new-Stores :
    (clock : Clock) (order_no : ℕ) (in_ : CreateInput) (db : Db) {id : ℕ} {db' : Db}
    → create_new clock order_no in_ db ≡ ok (id, db')
    → (id ≡ db.next_id) × Stores in_ id db'
unfolding create_new fill_order
create_new-Stores clock order_no in_ db {id} {db'} h =
    let pickup_no = allocate_pickup_no in_.store_id in_.business_date db in
    let row = new_order clock in_ order_no pickup_no db.next_id in
    let (db₁, inserted, h₁) = >>=-eq-ok (insert_order row db) _ h in
    let (db₂, filled, h₂) = >>=-eq-ok (fill_order clock in_ db.next_id db₁) _ h₁ in
    let (a, stock, f₁) =
      >>=-eq-ok (reserve_cart in_.store_id in_.business_date db.next_id in_.cart db₁) _ filled in
    let (b, slot, f₂) = >>=-eq-ok (reserve_slot clock in_ a) _ f₁ in
    let (c, items, f₃) = >>=-eq-ok (insert_items in_.store_id db.next_id in_.cart b) _ f₂ in
    let number : db.next_id ≡ id = cc in
    let state : db₂ ≡ db' = cc in
    (
      sym number,
      subst (λ n. Stores in_ n db') number
          (subst (Stores in_ db.next_id) state (finish_order-Stores in_ db.next_id c f₃)),
    )

create_once-Stores :
    (clock : Clock) (order_no : ℕ) (in_ : CreateInput) (row : Option IdemKey) (db : Db) {id : ℕ}
    {db' : Db}
    → 0 < db.next_id
    → find_idem (order_create in_.store_id) in_.idempotency_key db.idem_keys ≡ row
    → create_once clock order_no in_ row db ≡ ok (id, db')
    → (0 < id) × Stores in_ id db'
unfolding create_once create_stored
create_once-Stores clock order_no in_ none db pos_id e h =
    let (number, stored) = create_new-Stores clock order_no in_ db h in (rw number pos_id, stored)
create_once-Stores clock order_no in_ (some row) db {id} {db'} pos_id e h =
    elim (Option-cases row.response) [
      | inl f ↦ absurd (cc (rw f at h))
      | inr (existing, f) ↦ elim (Bool-cases (ltb 0 existing)) [
        | inl old ↦
            let same : ◌≡◌ {A = Traded (ℕ × Db)} (ok (existing, db)) (ok (id, db')) =
              rw old at (rw f at h) in
            let number : existing ≡ id = cc in
            let state : db ≡ db' = cc in
            (
              rw (← number) (ground arith),
              subst (λ n. Stores in_ n db') number (subst (Stores in_ existing) state (row, e, f)),
            )
        | inr new ↦
            let (number, stored) =
              create_new-Stores clock order_no in_ db (rw new at (rw f at h)) in
            (rw number pos_id, stored)
      ]
    ]

-- Once `Create` has returned an order, the same request with the same idempotency key, sent again while the
-- quote is valid, returns the same order and changes nothing.
pub create_replay :
    (clock : Clock) (now later order_no other_no : ℕ) (in_ : CreateInput) (db : Db) {id : ℕ}
    {db' : Db}
    → 0 < db.next_id
    → create clock now order_no in_ db ≡ ok (id, db')
    → later ≤ in_.quote.expires_at
    → create clock later other_no in_ db' ≡ ok (id, db')
unfolding create create_once create_stored
create_replay clock now later order_no other_no in_ db {id} {db'} pos_id h valid =
    let (key, keyed, h₁) =
      >>=-eq-ok (fail_if (in_.idempotency_key == 0) idempotency_key_required) _ h in
    let (fresh, _, h₂) = >>=-eq-ok (fail_if (ltb in_.quote.expires_at now) quote_expired) _ h₁ in
    let found = find_idem (order_create in_.store_id) in_.idempotency_key db.idem_keys in
    let (known, stored) = create_once-Stores clock order_no in_ found db pos_id refl h₂ in
    let again : fail_if (ltb in_.quote.expires_at later) quote_expired ≡ ok tt = ground arith in
    let good : ltb 0 id ≡ true = ground arith in rw (keyed, again, stored.1, stored.2, good)
