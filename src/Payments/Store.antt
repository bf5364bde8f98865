-- ===== src/Payments/Store.antt =====
-- internal/payments/store.go: `Prepay`, `ConfirmMockPayment`, `MarkSuccess` and `IsPaid`.
use dishflow_glm.Prelude.{
  ℕ, ℤ, pos, ◌+◌, ltb_ℤ, ◌==◌, if◌then◌else◌, Bool, true, false, not, ◌&&◌, Option, none, some,
  List, [], ◌∷◌, Result, ok, err, ◌>>=◌, ◌>>◌, fail_if, find?, update_where,
}
use dishflow_glm.Store.{Db, payment_success}
use dishflow_glm.Orders.Create.{insert_outbox}
use dishflow_glm.Inventory.{is_zero}

pub data PaymentStatus : Type 0 where
  prepay_created success : PaymentStatus

-- `payments`; an order has one row at most.
pub record Payment : Type 0 where
  pub id : ℕ
  pub store_id : ℕ
  pub order_id : ℕ
  pub amount_cents : ℤ
  pub status : PaymentStatus
  pub prepay_id : ℕ
  pub mock_payment : Bool
  pub transaction_id : ℕ

pub data RefundStatus : Type 0 where
  created processing success : RefundStatus

-- `refunds`
pub record Refund : Type 0 where
  pub id : ℕ
  pub store_id : ℕ
  pub order_id : ℕ
  pub payment_id : ℕ
  pub amount_cents : ℤ
  pub status : RefundStatus
  pub refund_no : ℕ
  pub mock_refund : Bool

pub data WebhookProvider : Type 0 where
  wechat_pay wechat_refund : WebhookProvider

-- `webhook_events`
pub record WebhookEvent : Type 0 where
  pub store_id : ℕ
  pub provider : WebhookProvider
  pub provider_event_id : ℕ
  pub resource_id : ℕ

-- The database with the tables of the payments.
pub record Till : Type 0 where
  pub db : Db
  pub payments : List Payment
  pub refunds : List Refund
  pub webhooks : List WebhookEvent

pub data PayError : Type 0 where
  zero_order_not_wechat mock_only no_rows not_mock check_violation duplicate_key : PayError
  amount_not_positive existing_refund no_payment order_not_found not_payable : PayError
  provider_failed : ℕ → PayError

abbrev pub Paid : Type 0 → Type 0
Paid A = Result PayError A

pub record PrepayInput : Type 0 where
  pub store_id : ℕ
  pub order_id : ℕ
  pub out_trade_no : ℕ
  pub amount_cents : ℤ

pub record PrepayResult : Type 0 where
  pub prepay_id : ℕ
  pub mock_pay : Bool

-- The `Provider` that the store is given.
pub record Provider : Type 0 where
  pub prepay : PrepayInput → Paid PrepayResult
  pub is_mock : Bool

-- `MockProvider`; the number is random.
abbrev pub mock_provider : ℕ → Provider
mock_provider random = record {
  prepay = λ in_. ok (record { prepay_id = random; mock_pay = true });
  is_mock = true;
}

abbrev pub is_payment_of : ℕ → Payment → Bool
is_payment_of order p = p.order_id == order

-- `order_id = ? AND store_id = ?`
abbrev pub is_payment_at : ℕ → ℕ → Payment → Bool
is_payment_at store order p = (p.order_id == order) && (p.store_id == store)

abbrev pub new_payment : ℕ → PrepayInput → PrepayResult → Payment
new_payment id in_ res = record {
  id = id;
  store_id = in_.store_id;
  order_id = in_.order_id;
  amount_cents = in_.amount_cents;
  status = prepay_created;
  prepay_id = res.prepay_id;
  mock_payment = res.mock_pay;
  transaction_id = 0;
}

abbrev pub set_prepay : ℕ → Payment → Payment
set_prepay prepay p = record p { prepay_id = prepay }

-- `INSERT ... ON DUPLICATE KEY UPDATE prepay_id`: the unique key is the order.
abbrev pub upsert_payment : PrepayInput → PrepayResult → Option Payment → Till → Till
upsert_payment in_ res (some p) till = record till {
  payments = update_where (is_payment_of in_.order_id) (set_prepay res.prepay_id) till.payments;
}
upsert_payment in_ res none till = record till {
  payments = new_payment till.db.next_id in_ res ∷ till.payments;
  db = record till.db { next_id = till.db.next_id + 1 };
}

unfoldable pub prepay : Provider → PrepayInput → Till → Paid (PrepayResult × Till)
prepay provider in_ till = do
  fail_if (is_zero in_.amount_cents) zero_order_not_wechat
  res ← provider.prepay in_
  fail_if (ltb_ℤ in_.amount_cents (pos 0)) check_violation
  ok (res, upsert_payment in_ res (find? (is_payment_of in_.order_id) till.payments) till)

abbrev pub is_success : PaymentStatus → Bool
is_success success = true
is_success prepay_created = false

-- `SET status='SUCCESS', succeeded_at=..., transaction_id=?`
abbrev pub succeed : ℕ → Payment → Payment
succeed transaction p = record p { status = success; transaction_id = transaction }

abbrev pub set_success : ℕ → ℕ → ℕ → Till → Till
set_success store order transaction till = record till {
  payments = update_where (is_payment_at store order) (succeed transaction) till.payments;
}

-- The outbox row by which the worker learns of the payment.
abbrev pub announce : ℕ → ℕ → Till → Till
announce store order till = record till { db = insert_outbox store payment_success order till.db }

abbrev pub confirm_row : Option Payment → ℕ → ℕ → ℕ → Till → Paid Till
confirm_row none store order transaction till = err no_rows
confirm_row (some p) store order transaction till = do
  fail_if (not p.mock_payment) not_mock
  if is_success p.status
      then ok till
      else ok (announce store order (set_success store order transaction till))

-- The transaction's number is random.
unfoldable pub confirm_mock_payment : Provider → ℕ → ℕ → ℕ → Till → Paid Till
unfolding insert_outbox
confirm_mock_payment provider store order transaction till = do
  fail_if (not provider.is_mock) mock_only
  confirm_row (find? (is_payment_at store order) till.payments) store order transaction till

abbrev pub is_pay : WebhookProvider → Bool
is_pay wechat_pay = true
is_pay wechat_refund = false

unfoldable pub has_webhook : WebhookProvider → ℕ → List WebhookEvent → Bool
has_webhook provider event [] = false
has_webhook provider event (w ∷ ws) =
    if (w.provider_event_id == event)
      && (if is_pay provider then is_pay w.provider else not (is_pay w.provider))
    then true
    else has_webhook provider event ws

-- `INSERT IGNORE`: the unique key is the provider and its event; nothing is stored without an event id.
abbrev pub insert_webhook : WebhookProvider → ℕ → ℕ → ℕ → Till → Till
insert_webhook provider store event resource till =
    if (event == 0)
    then till
    else if has_webhook provider event till.webhooks
    then till
    else record till {
      webhooks =
          record {
            store_id = store;
            provider = provider;
            provider_event_id = event;
            resource_id = resource;
          }
          ∷ till.webhooks;
    }

abbrev pub mark_success_row : Option Payment → ℕ → ℕ → ℕ → ℕ → Till → Paid Till
mark_success_row none store order transaction event till = err no_rows
mark_success_row (some p) store order transaction event till =
    if is_success p.status
    then ok till
    else ok (insert_webhook wechat_pay store event order (set_success store order transaction till))

-- `MarkSuccess`: the amount is a parameter that it does not read.
unfoldable pub mark_success : ℕ → ℕ → ℕ → ℕ → ℤ → Till → Paid Till
unfolding has_webhook
mark_success store order transaction event amount till =
    if not (event == 0) && has_webhook wechat_pay event till.webhooks
    then ok till
    else mark_success_row (find? (is_payment_at store order) till.payments) store order transaction
        event till

unfoldable pub is_paid : ℕ → ℕ → Till → Bool
is_paid store order till = elim (find? (is_payment_at store order) till.payments) [
  | none ↦ false
  | some p ↦ is_success p.status
]
