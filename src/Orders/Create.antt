-- ===== src/Orders/Create.antt =====
-- internal/orders/create.go: `Store.Create`, one transaction. An error is a rollback: the state that the
-- caller holds is the one before.
use dishflow_glm.Prelude.{
  ℕ, ℤ, pos, ◌+◌, ltb, leb_ℤ, ◌==◌, if◌then◌else◌, Bool, true, false, not, ◌&&◌, ◌||◌, Option, none,
  some, List, [], ◌∷◌, ok, err, ◌>>=◌, ◌>>◌, fail_if,
}
use dishflow_glm.Pricing.Types.{Scenario, dine_in, pickup, unknown_scenario}
use dishflow_glm.Store.{
  Db, Order, OrderItem, OrderEvent, OutboxRow, IdemKey, Subject, order_create, stock_adjust, State,
  pending_payment, system, TradeError, idempotency_key_required, quote_expired, duplicate_key,
  check_violation, scan_error,
}
use dishflow_glm.Orders.Reserve.{
  Traded, allocate_pickup_no, reserve_inventory, Clock, reserve_pickup_slot, scheduled_for_time,
  null_int64,
}

-- `pricing.QuoteSummary`, the fields that `Create` reads.
pub record Quote : Type 0 where
  pub token : ℕ
  pub scenario : Scenario
  pub scheduled_for : ℕ
  pub item_amount_cents : ℤ
  pub packaging_fee_cents : ℤ
  pub discount_cents : ℤ
  pub payable_cents : ℤ
  pub promotion_id : ℕ
  pub customer_coupon_id : ℕ
  pub expires_at : ℕ

pub record LineItemSnapshot : Type 0 where
  pub sku_id : ℕ
  pub product_id : ℕ
  pub unit_price_cents : ℤ
  pub quantity : ℤ
  pub packaging_fee_cents : ℤ
  pub line_amount_cents : ℤ

pub record CreateInput : Type 0 where
  pub store_id : ℕ
  pub customer_id : ℕ
  pub quote : Quote
  pub cart : List LineItemSnapshot
  pub remark : ℕ
  pub table_id : ℕ
  pub table_label : ℕ
  pub idempotency_key : ℕ
  pub business_date : ℕ

abbrev pub same_subject : Subject → Subject → Bool
same_subject (order_create s) (order_create t) = s == t
same_subject (stock_adjust s k d) (stock_adjust t l e) = (s == t) && (k == l) && (d == e)
same_subject _ _ = false

abbrev pub is_idem_key : Subject → ℕ → IdemKey → Bool
is_idem_key subject key row = same_subject row.subject subject && (row.idem_key == key)

unfoldable pub find_idem : Subject → ℕ → List IdemKey → Option IdemKey
find_idem subject key [] = none
find_idem subject key (row ∷ rows) =
    if is_idem_key subject key row then some row else find_idem subject key rows

-- `INSERT INTO idempotency_keys`, with its unique key.
abbrev pub is_some {ℓ} : {A : Type ℓ} → Option A → Bool
is_some none = false
is_some (some a) = true

unfoldable pub insert_idem : Subject → ℕ → Option ℕ → Db → Traded Db
unfolding find_idem
insert_idem subject key response db = do
  fail_if (is_some (find_idem subject key db.idem_keys)) duplicate_key
  ok (record db {
    idem_keys = record { subject = subject; idem_key = key; response = response } ∷ db.idem_keys;
  })

-- The unique keys of `orders` besides its number: `order_no`, the store's quote, and the store's pickup
-- number of the day.
abbrev pub clashes : Order → Order → Bool
clashes a b =
    (a.order_no == b.order_no)
    || (a.store_id == b.store_id) && (a.quote_token == b.quote_token)
    || (a.store_id == b.store_id)
      && (a.business_date == b.business_date)
      && (a.pickup_no == b.pickup_no)

unfoldable pub any_clash : Order → List Order → Bool
any_clash a [] = false
any_clash a (b ∷ bs) = clashes a b || any_clash a bs

abbrev pub is_dine_in : Scenario → Bool
is_dine_in dine_in = true
is_dine_in _ = false

abbrev pub is_known : Scenario → Bool
is_known (unknown_scenario _) = false
is_known _ = true

-- The CHECKs of `orders` on a new row.
unfoldable pub check_order : Order → Bool
check_order o =
    is_known o.scenario
    && leb_ℤ (pos 0) o.item_amount_cents
    && leb_ℤ (pos 0) o.packaging_fee_cents
    && leb_ℤ (pos 0) o.discount_cents
    && leb_ℤ (pos 0) o.payable_cents
    && not (is_dine_in o.scenario && is_some o.scheduled_for)

unfoldable pub insert_order : Order → Db → Traded Db
unfolding any_clash check_order
insert_order o db = do
  fail_if (any_clash o db.orders) duplicate_key
  fail_if (not (check_order o)) check_violation
  ok (record db { orders = o ∷ db.orders; next_id = db.next_id + 1 })

-- The row that `Create` inserts.
unfoldable pub new_order : Clock → CreateInput → ℕ → ℕ → ℕ → Order
unfolding scheduled_for_time null_int64
new_order clock in_ order_no pickup_no id =
    let q = in_.quote in
    record {
      id = id;
      store_id = in_.store_id;
      customer_id = in_.customer_id;
      order_no = order_no;
      pickup_no = pickup_no;
      business_date = in_.business_date;
      scenario = q.scenario;
      dining_table_id = null_int64 in_.table_id;
      table_label = in_.table_label;
      is_scheduled = not (q.scheduled_for == 0);
      scheduled_for = scheduled_for_time clock q.scheduled_for;
      item_amount_cents = q.item_amount_cents;
      packaging_fee_cents = q.packaging_fee_cents;
      discount_cents = q.discount_cents;
      payable_cents = q.payable_cents;
      paid_cents = pos 0;
      refunded_cents = pos 0;
      promotion_id = null_int64 q.promotion_id;
      customer_coupon_id = null_int64 q.customer_coupon_id;
      remark = in_.remark;
      state = pending_payment;
      version = 1;
      quote_token = q.token;
      expires_at = q.expires_at;
      released_at = none;
      paid_at = none;
      accepted_at = none;
      completed_at = none;
      cancelled_at = none;
    }

unfoldable pub reserve_cart : ℕ → ℕ → ℕ → List LineItemSnapshot → Db → Traded Db
unfolding reserve_inventory
reserve_cart store date order [] db = ok db
reserve_cart store date order (li ∷ cart) db = do
  db' ← reserve_inventory store li.sku_id date li.quantity order db
  reserve_cart store date order cart db'

abbrev pub is_pickup : Scenario → Bool
is_pickup pickup = true
is_pickup _ = false

unfoldable pub reserve_slot : Clock → CreateInput → Db → Traded Db
unfolding reserve_pickup_slot
reserve_slot clock in_ db =
    if is_pickup in_.quote.scenario && not (in_.quote.scheduled_for == 0)
    then reserve_pickup_slot clock in_.store_id in_.quote.scheduled_for db
    else ok db

-- `chk_oitem_qty` and `chk_oitem_price`.
unfoldable pub check_item : LineItemSnapshot → Bool
check_item li =
    leb_ℤ (pos 1) li.quantity
    && leb_ℤ li.quantity (pos 99)
    && leb_ℤ (pos 0) li.unit_price_cents
    && leb_ℤ (pos 0) li.line_amount_cents

abbrev pub insert_item : ℕ → ℕ → LineItemSnapshot → Db → Db
insert_item store order li db = record db {
  items =
      record {
        order_id = order;
        store_id = store;
        sku_id = li.sku_id;
        product_id = li.product_id;
        unit_price_cents = li.unit_price_cents;
        quantity = li.quantity;
        packaging_fee_cents = li.packaging_fee_cents;
        line_amount_cents = li.line_amount_cents;
      }
      ∷ db.items;
}

unfoldable pub insert_items : ℕ → ℕ → List LineItemSnapshot → Db → Traded Db
unfolding check_item
insert_items store order [] db = ok db
insert_items store order (li ∷ cart) db = do
  fail_if (not (check_item li)) check_violation
  insert_items store order cart (insert_item store order li db)

unfoldable pub insert_event : OrderEvent → Db → Db
insert_event e db = record db { events = e ∷ db.events }

unfoldable pub insert_outbox : ℕ → dishflow_glm.Store.OutboxEvent → ℕ → Db → Db
insert_outbox store event aggregate db = record db {
  outbox =
      record {
        id = db.next_id;
        store_id = store;
        event = event;
        aggregate_id = aggregate;
        status = dishflow_glm.Store.OutboxStatus.pending;
        attempts = 0;
        next_attempt_at = none;
      }
      ∷ db.outbox;
  next_id = db.next_id + 1;
}

-- The event and the outbox row of a created order.
unfoldable pub log_created : ℕ → ℕ → Db → Db
unfolding insert_event insert_outbox
log_created store order db =
    insert_outbox store dishflow_glm.Store.OutboxEvent.order_created order (
      insert_event
        (record {
          order_id = order;
          store_id = store;
          event_type = dishflow_glm.Store.EventType.order_created;
          from_state = none;
          to_state = pending_payment;
          actor_type = system;
          actor_id = none;
        })
        db)

unfoldable pub finish_order : CreateInput → ℕ → Db → Traded Db
unfolding log_created insert_idem
finish_order in_ order db =
    insert_idem (order_create in_.store_id) in_.idempotency_key (some order)
      (log_created in_.store_id order db)

-- Everything after the order's row: stock, slot, items, event, outbox and idempotency key.
unfoldable pub fill_order : Clock → CreateInput → ℕ → Db → Traded Db
unfolding reserve_cart reserve_slot insert_items finish_order
fill_order clock in_ order db = do
  db₁ ← reserve_cart in_.store_id in_.business_date order in_.cart db
  db₂ ← reserve_slot clock in_ db₁
  db₃ ← insert_items in_.store_id order in_.cart db₂
  finish_order in_ order db₃

unfoldable pub create_new : Clock → ℕ → CreateInput → Db → Traded (ℕ × Db)
unfolding allocate_pickup_no new_order insert_order fill_order
create_new clock order_no in_ db = do
  let pickup_no = allocate_pickup_no in_.store_id in_.business_date db
  let order = db.next_id
  db₁ ← insert_order (new_order clock in_ order_no pickup_no order) db
  db₂ ← fill_order clock in_ order db₁
  ok (order, db₂)

-- What is stored under the idempotency key: NULL cannot be scanned, a number is the order to return,
-- and 0 counts as none.
unfoldable pub create_stored : Clock → ℕ → CreateInput → Option ℕ → Db → Traded (ℕ × Db)
unfolding create_new
create_stored clock order_no in_ none db = err scan_error
create_stored clock order_no in_ (some existing) db =
    if ltb 0 existing then ok (existing, db) else create_new clock order_no in_ db

unfoldable pub create_once : Clock → ℕ → CreateInput → Option IdemKey → Db → Traded (ℕ × Db)
unfolding create_stored
create_once clock order_no in_ none db = create_new clock order_no in_ db
create_once clock order_no in_ (some row) db = create_stored clock order_no in_ row.response db

-- `now` is the clock's reading and `order_no` the random number that the order gets.
unfoldable pub create : Clock → ℕ → ℕ → CreateInput → Db → Traded (ℕ × Db)
unfolding create_once find_idem
create clock now order_no in_ db = do
  fail_if (in_.idempotency_key == 0) idempotency_key_required
  fail_if (ltb in_.quote.expires_at now) quote_expired
  create_once clock order_no in_
      (find_idem (order_create in_.store_id) in_.idempotency_key db.idem_keys) db
