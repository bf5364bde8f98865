-- ===== src/Store.antt =====
-- The tables of the migrations that the trading code reads and writes, as one state. A table with a
-- unique key is a map from that key, or a list that is searched by it.
-- Columns: identifiers, instants and texts that are only compared are numbers (0 is the empty text),
-- amounts are signed, and stock quantities, which the schema's CHECKs keep from going below zero, are
-- natural numbers; a statement that would break a CHECK is an error.
use dishflow_glm.Prelude.{ℕ, ℤ, Bool, Option, List, ◌==◌, ◌&&◌, if◌then◌else◌}
use dishflow_glm.Pricing.Types.{Scenario}

-- internal/orders/statemachine.go: `State`.
pub data State : Type 0 where
  pending_payment paid accepted preparing ready completed : State
  cancelled refunding refunded cancel_requested : State

pub record Order : Type 0 where
  pub id : ℕ
  pub store_id : ℕ
  pub customer_id : ℕ
  pub order_no : ℕ
  pub pickup_no : ℕ
  pub business_date : ℕ
  pub scenario : Scenario
  pub dining_table_id : Option ℕ
  pub table_label : ℕ
  pub is_scheduled : Bool
  pub scheduled_for : Option ℕ
  pub item_amount_cents : ℤ
  pub packaging_fee_cents : ℤ
  pub discount_cents : ℤ
  pub payable_cents : ℤ
  pub paid_cents : ℤ
  pub refunded_cents : ℤ
  pub promotion_id : Option ℕ
  pub customer_coupon_id : Option ℕ
  pub remark : ℕ
  pub state : State
  pub version : ℕ
  pub quote_token : ℕ
  pub expires_at : ℕ
  pub released_at : Option ℕ
  pub paid_at : Option ℕ
  pub accepted_at : Option ℕ
  pub completed_at : Option ℕ
  pub cancelled_at : Option ℕ

-- `daily_inventory`
pub record Daily : Type 0 where
  pub target_qty : ℕ
  pub reserved_qty : ℕ
  pub sold_qty : ℕ

pub data Hold : Type 0 where
  reserved fulfilled released : Hold

-- `inventory_reservations`
pub record Reservation : Type 0 where
  pub store_id : ℕ
  pub order_id : ℕ
  pub sku_id : ℕ
  pub business_date : ℕ
  pub quantity : ℕ
  pub state : Hold

pub data MovementType : Type 0 where
  reserve fulfill release adjust : MovementType

-- `inventory_movements`
pub record Movement : Type 0 where
  pub store_id : ℕ
  pub sku_id : ℕ
  pub business_date : ℕ
  pub movement_type : MovementType
  pub delta_reserved : ℤ
  pub delta_sold : ℤ
  pub order_id : Option ℕ
  pub reason : ℕ
  pub operator_id : Option ℕ

-- `pickup_slot_capacity`
pub record Slot : Type 0 where
  pub capacity_snapshot : ℕ
  pub reserved_orders : ℕ

pub record OrderItem : Type 0 where
  pub order_id : ℕ
  pub store_id : ℕ
  pub sku_id : ℕ
  pub product_id : ℕ
  pub unit_price_cents : ℤ
  pub quantity : ℤ
  pub packaging_fee_cents : ℤ
  pub line_amount_cents : ℤ

pub data Actor : Type 0 where
  customer staff system : Actor

-- `order_events`, without the summary text.
pub data EventType : Type 0 where
  order_created cancel_request order_cancelled order_refunded staff_refund cancel_review : EventType
  order_paid order_expired : EventType
  state_changed : State → EventType

pub record OrderEvent : Type 0 where
  pub order_id : ℕ
  pub store_id : ℕ
  pub event_type : EventType
  pub from_state : Option State
  pub to_state : State
  pub actor_type : Actor
  pub actor_id : Option ℕ

-- The payloads are the fields that the worker reads back.
pub data OutboxEvent : Type 0 where
  order_created payment_success : OutboxEvent
  refund_success : ℕ → ℕ → OutboxEvent

pub data OutboxStatus : Type 0 where
  pending sent failed : OutboxStatus

pub record OutboxRow : Type 0 where
  pub id : ℕ
  pub store_id : ℕ
  pub event : OutboxEvent
  pub aggregate_id : ℕ
  pub status : OutboxStatus
  pub attempts : ℕ
  pub next_attempt_at : Option ℕ

-- The subjects of idempotency keys.
pub data Subject : Type 0 where
  order_create : ℕ → Subject
  stock_adjust : ℕ → ℕ → ℕ → Subject

-- `idempotency_keys`; the response is the order's number, or NULL.
pub record IdemKey : Type 0 where
  pub subject : Subject
  pub idem_key : ℕ
  pub response : Option ℕ

pub data CouponStatus : Type 0 where
  available used expired redeemed : CouponStatus

pub data CouponSource : Type 0 where
  claim issue redeem new_member : CouponSource

pub record CustomerCoupon : Type 0 where
  pub id : ℕ
  pub store_id : ℕ
  pub customer_id : ℕ
  pub template_id : ℕ
  pub status : CouponStatus
  pub source : CouponSource
  pub expires_at : ℕ
  pub used_at : Option ℕ

pub record CouponTemplate : Type 0 where
  pub store_id : ℕ
  pub min_spend_cents : ℤ
  pub discount_cents : ℤ
  pub starts_at : ℕ
  pub ends_at : ℕ
  pub enabled : Bool
  pub publicly_claimable : Bool
  pub deleted_at : Option ℕ

pub record Membership : Type 0 where
  pub id : ℕ
  pub store_id : ℕ
  pub customer_id : ℕ
  pub is_active : Bool
  pub points_balance : ℤ

pub data EntryType : Type 0 where
  earn reverse adjust : EntryType

-- `member_points_ledger`
pub record LedgerEntry : Type 0 where
  pub membership_id : ℕ
  pub customer_id : ℕ
  pub delta : ℤ
  pub balance_after : ℤ
  pub entry_type : EntryType
  pub order_id : Option ℕ
  pub refund_id : Option ℕ
  pub idempotency_key : ℕ

pub record Db : Type 0 where
  pub orders : List Order
  pub daily : ℕ → ℕ → ℕ → Option Daily
  pub reservations : List Reservation
  pub movements : List Movement
  pub slots : ℕ → ℕ → Option Slot
  pub items : List OrderItem
  pub events : List OrderEvent
  pub outbox : List OutboxRow
  pub idem_keys : List IdemKey
  pub coupons : List CustomerCoupon
  pub templates : ℕ → Option CouponTemplate
  pub memberships : List Membership
  pub ledger : List LedgerEntry
  pub next_id : ℕ

-- The row of a SKU on a business day; `set_daily` writes it.
abbrev pub Stock : Type 0
Stock = ℕ → ℕ → ℕ → Option Daily

abbrev pub is_key : ℕ → ℕ → ℕ → ℕ → ℕ → ℕ → Bool
is_key store sku date s k t = (s == store) && (k == sku) && (t == date)

abbrev pub set_daily : ℕ → ℕ → ℕ → Daily → Stock → Stock
set_daily store sku date row daily s k t =
    if is_key store sku date s k t then Option.some row else daily s k t

abbrev pub Slots : Type 0
Slots = ℕ → ℕ → Option Slot

abbrev pub set_slot : ℕ → ℕ → Slot → Slots → Slots
set_slot store time row slots s t =
    if (s == store) && (t == time) then Option.some row else slots s t

-- The errors of the trading packages, and the statements that the database refuses.
pub data TradeError : Type 0 where
  idempotency_key_required quote_expired no_daily_inventory insufficient_stock : TradeError
  pickup_slot_full invalid_scheduled_for no_rows not_your_order invalid_transition : TradeError
  version_conflict delta_zero reason_required negative_target invariant_violated : TradeError
  duplicate_key check_violation scan_error : TradeError
