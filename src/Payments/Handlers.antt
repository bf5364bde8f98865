-- ===== src/Payments/Handlers.antt =====
-- internal/customer/payments.go and internal/customer/cancel.go: the customer prepays, confirms a mock payment,
-- and a cancelled order is refunded. The session gives the store and the customer.
use dishflow_glm.Prelude.{
  ℕ, ◌==◌, if◌then◌else◌, Bool, not, ◌&&◌, Option, none, some, ok, err, ◌>>=◌, ◌>>◌, fail_if, find?,
}
use dishflow_glm.Store.{Db, Order, refund_success, TradeError}
use dishflow_glm.Orders.Reserve.{Traded}
use dishflow_glm.Orders.Create.{insert_outbox}
use dishflow_glm.Orders.Cancel.{is_order, is_pending, CancelInput, CancelResult, cancel}
use dishflow_glm.Payments.Store.{
  Payment, Till, PayError, zero_order_not_wechat, order_not_found, not_payable, no_payment, Paid,
  Provider, PrepayInput, PrepayResult, prepay, confirm_mock_payment, is_payment_of, is_success,
}
use dishflow_glm.Payments.Refunds.{CreateInput, create_refund, mark_refund_success}

-- The two checks that both handlers make; the order must be the customer's and wait for its payment.
abbrev pub own_order : ℕ → Option Order → Paid Order
own_order customer none = err order_not_found
own_order customer (some o) = do
  fail_if (not (o.customer_id == customer)) order_not_found
  fail_if (not (is_pending o.state)) not_payable
  ok o

abbrev pub prepay_input : ℕ → Order → PrepayInput
prepay_input store o = record {
  store_id = store;
  order_id = o.id;
  out_trade_no = o.order_no;
  amount_cents = o.payable_cents;
}

-- `ErrZeroOrderNotWechat` is no error to the handler; the row is not written.
abbrev pub zero_order_ok : Till → Paid (PrepayResult × Till) → Paid (PrepayResult × Till)
zero_order_ok till (ok r) = ok r
zero_order_ok till (err zero_order_not_wechat) =
    ok (record { prepay_id = 0; mock_pay = Bool.true }, till)
zero_order_ok till (err e) = err e

unfoldable pub prepay_order : Provider → ℕ → ℕ → ℕ → Till → Paid (PrepayResult × Till)
unfolding prepay
prepay_order provider store customer order till = do
  o ← own_order customer (find? (is_order store order) till.db.orders)
  zero_order_ok till (prepay provider (prepay_input store o) till)

unfoldable pub confirm_order : Provider → ℕ → ℕ → ℕ → ℕ → Till → Paid Till
unfolding confirm_mock_payment
confirm_order provider store customer order transaction till = do
  o ← own_order customer (find? (is_order store order) till.db.orders)
  confirm_mock_payment provider store o.id transaction till

-- `order_id=? AND status='SUCCESS'`
abbrev pub is_settled : ℕ → Payment → Bool
is_settled order p = is_payment_of order p && is_success p.status

abbrev pub refund_input : ℕ → ℕ → Payment → CreateInput
refund_input store order p = record {
  store_id = store;
  order_id = order;
  payment_id = p.id;
  amount_cents = p.amount_cents;
  mock = Bool.true;
}

-- The intent is written first; the success and the event for the worker are one transaction. A failure after the
-- first commit keeps the intent: the error comes with the state.
abbrev pub announce_refund : ℕ → ℕ → ℕ → ℕ → Till → Till
announce_refund store order customer refund till = record till {
  db = insert_outbox store (refund_success order customer) refund till.db;
}

abbrev pub conclude_refund : ℕ → ℕ → ℕ → ℕ → Paid Till → Till → Paid (Unit {0}) × Till
conclude_refund store order customer refund (ok marked) till =
    (ok tt, announce_refund store order customer refund marked)
conclude_refund store order customer refund (err e) till = (err e, till)

abbrev pub finish_refund : ℕ → ℕ → ℕ → Paid (ℕ × Till) → Till → Paid (Unit {0}) × Till
finish_refund store order customer (ok (refund, made)) till =
    conclude_refund store order customer refund (mark_refund_success store refund 0 made) made
finish_refund store order customer (err e) till = (err e, till)

abbrev pub refund_payment : ℕ → ℕ → ℕ → ℕ → Option Payment → Till → Paid (Unit {0}) × Till
refund_payment store order customer refund_no none till = (err no_payment, till)
refund_payment store order customer refund_no (some p) till =
    finish_refund store order customer (create_refund refund_no (refund_input store order p) till)
      till

unfoldable pub initiate_refund : ℕ → ℕ → ℕ → ℕ → Till → Paid (Unit {0}) × Till
unfolding create_refund mark_refund_success insert_outbox
initiate_refund store order customer refund_no till =
    refund_payment store order customer refund_no (find? (is_settled order) till.payments) till

-- `Cancel`: what the customer is told, and the state. A refund that fails leaves the order in REFUNDING.
pub data CancelAnswer : Type 0 where
  cancel_refused : TradeError → CancelAnswer
  refund_conflict : PayError → CancelAnswer
  answered : CancelResult → CancelAnswer

abbrev pub refund_answer : CancelResult → Paid (Unit {0}) × Till → CancelAnswer × Till
refund_answer result (ok done, till) = (answered result, till)
refund_answer result (err e, till) = (refund_conflict e, till)

abbrev pub finish_cancel : ℕ → ℕ → ℕ → ℕ → Traded (CancelResult × Db) → Till → CancelAnswer × Till
finish_cancel store order customer refund_no (err e) till = (cancel_refused e, till)
finish_cancel store order customer refund_no (ok (result, db)) till =
    if result.need_refund
    then refund_answer result
        (initiate_refund store order customer refund_no (record till { db = db }))
    else (answered result, record till { db = db })

abbrev pub cancel_input : ℕ → ℕ → ℕ → CancelInput
cancel_input store customer order = record {
  store_id = store;
  order_id = order;
  customer_id = customer;
  actor = dishflow_glm.Store.Actor.customer;
}

unfoldable pub cancel_order : ℕ → ℕ → ℕ → ℕ → ℕ → Till → CancelAnswer × Till
unfolding cancel initiate_refund
cancel_order now store customer order refund_no till =
    finish_cancel store order customer refund_no
      (cancel now (cancel_input store customer order) till.db) till
