-- ===== src/Tests/Payments.antt =====
-- internal/payments, internal/refunds, internal/callbacks: an order is prepaid, paid, announced and refunded.
use dishflow_glm.Prelude.{
  ℕ, pos, ◌≡◌, ◌≢◌, refl, arith, true, false, none, some, [], ◌∷◌, ok, err, find?,
}
use dishflow_glm.Pricing.Types.{pickup}
use dishflow_glm.Store.{Order, State, pending_payment, paid}
use dishflow_glm.Orders.Cancel.{is_order}
use dishflow_glm.Worker.Outbox.{Surroundings, process_outbox}
use dishflow_glm.Worker.Payment.{pay_row}
use dishflow_glm.Stock.Books.{Books}
use dishflow_glm.Payments.Store.{
  Payment, Till, Paid, PrepayResult, mock_provider, has_webhook, prepay_created,
}
use dishflow_glm.Payments.Handlers.{prepay_order, confirm_order, cancel_order, CancelAnswer}
use dishflow_glm.Payments.Callback.{
  Notice, settle_notice, Request, Answer, accepted, wechat_pay_transaction,
}
use dishflow_glm.Payments.Frames.{is_announced}
use dishflow_glm.Payments.Sound.{Sound}
use dishflow_glm.Payments.Refunded.{Refunded}
use dishflow_glm.Payments.Webhooks.{settle_notice_again}
use dishflow_glm.Payments.Delivery.{confirm_order-process_outbox}
use dishflow_glm.Payments.History.{
  PayHistory, start, then_, calls_back, cancels, PayHistory-Sound, PayHistory-Refunded,
}
use dishflow_glm.Tests.{empty}

abbrev order_of : ℕ → ℕ → State → Order
order_of id order_no state = record {
  id = id;
  store_id = 1;
  customer_id = 40;
  order_no = order_no;
  pickup_no = id;
  business_date = 20;
  scenario = pickup;
  dining_table_id = none;
  table_label = 0;
  is_scheduled = false;
  scheduled_for = none;
  item_amount_cents = pos 1900;
  packaging_fee_cents = pos 0;
  discount_cents = pos 0;
  payable_cents = pos 1900;
  paid_cents = pos 0;
  refunded_cents = pos 0;
  promotion_id = none;
  customer_coupon_id = none;
  remark = 0;
  state = state;
  version = 1;
  quote_token = 77;
  expires_at = 500;
  released_at = none;
  paid_at = none;
  accepted_at = none;
  completed_at = none;
  cancelled_at = none;
}

abbrev till : Till
till = record {
  db = record empty {
    orders =
        order_of 1 501 pending_payment ∷ order_of 2 502 pending_payment ∷ order_of 3 503 paid ∷ [];
    next_id = 10;
  };
  payments = [];
  refunds = [];
  webhooks = [];
}

abbrev or_first : {A : Type 0} → A → Paid A → A
or_first a (ok b) = b
or_first a (err e) = a

abbrev no_result : PrepayResult
no_result = record { prepay_id = 0; mock_pay = false }

-- Order 1 is prepaid and confirmed, order 3 is prepaid in the table from the start.
abbrev prepaid : PrepayResult × Till
unfolding prepay_order
prepaid = or_first (no_result, till) (prepay_order (mock_provider 700) 1 40 1 till)

abbrev confirmed : Till
unfolding prepay_order confirm_order
confirmed = or_first prepaid.1 (confirm_order (mock_provider 700) 1 40 1 800 prepaid.1)

confirmed_announced : is_announced 1 confirmed.db.outbox ≡ true
unfolding prepay_order confirm_order
confirmed_announced = refl

abbrev notice : ℕ → ℕ → Notice
notice order_no event = record {
  provider_event_id = event;
  order_no = order_no;
  transaction_id = 900;
  amount = pos 1900;
}

abbrev call : Request
call = record { store_id = 1; serial = 0; plain = some (notice 503 66); decrypt = λ c. none }

abbrev paying : Payment
paying = record {
  id = 5;
  store_id = 1;
  order_id = 3;
  amount_cents = pos 1900;
  status = prepay_created;
  prepay_id = 1;
  mock_payment = true;
  transaction_id = 0;
}

abbrev begun : Till
begun = record till { payments = paying ∷ [] }

abbrev called : Answer × Till
unfolding wechat_pay_transaction
called = wechat_pay_transaction true call begun

called_accepted : called.0 ≡ accepted
unfolding wechat_pay_transaction
called_accepted = refl

abbrev cancelled : CancelAnswer × Till
unfolding wechat_pay_transaction cancel_order
cancelled = cancel_order 450 1 40 3 55 called.1

-- The payment of order 3 is announced, and then refunded.
cancelled_refunds : cancelled.1.refunds ≢ []
unfolding wechat_pay_transaction cancel_order
cancelled_refunds = λ e. cc

history : PayHistory begun cancelled.1
unfolding wechat_pay_transaction cancel_order
history =
    then_ (then_ start (calls_back true call called.0 refl))
      (cancels 450 1 40 3 55 cancelled.0 refl)

begun-Sound : Sound begun
begun-Sound = record { announced = ((omega arith, λ e. cc), tt); single = λ o. ground arith }

begun-Refunded : Refunded begun
begun-Refunded = record {
  active = λ o. omega arith;
  refunded = λ o. omega arith;
  keyed = λ o. omega arith;
  fresh = tt;
}

PayHistory-Sound_example : Sound cancelled.1
PayHistory-Sound_example = PayHistory-Sound begun-Sound history

PayHistory-Refunded_example : Refunded cancelled.1
PayHistory-Refunded_example = PayHistory-Refunded begun-Refunded history

settle_notice_again_example :
    let first = (settle_notice 1 (notice 503 66) begun).1 in
    let second = (settle_notice 1 (notice 502 66) first).1 in
    (second.payments ≡ first.payments) × (is_announced 2 second.db.outbox ≡ true)
unfolding has_webhook
settle_notice_again_example =
    settle_notice_again 1 (notice 503 66) (notice 502 66) begun {o = order_of 3 503 paid}
      {q = order_of 2 502 pending_payment} {p = paying} refl refl refl refl refl refl refl refl refl
      refl refl

abbrev surroundings : Surroundings
surroundings = record {
  points_per_yuan = λ s. some (pos 1);
  aggregate_order_id = λ s r. 1;
  earn_pay = λ o. 1000;
  reverse_refund = λ r. 2000;
}

prepaid-Books : Books prepaid.1.db
unfolding prepay_order
prepaid-Books = record { agree = λ s k t. (refl, refl) }

abbrev prepaid_row : Payment
prepaid_row = record {
  id = 10;
  store_id = 1;
  order_id = 1;
  amount_cents = pos 1900;
  status = prepay_created;
  prepay_id = 700;
  mock_payment = true;
  transaction_id = 0;
}

confirm_order-process_outbox_example :
    find? (is_order 1 1) (process_outbox surroundings 410 confirmed.db).orders
    ≡ some (pay_row 410 (order_of 1 501 pending_payment))
unfolding prepay_order confirm_order
confirm_order-process_outbox_example =
    confirm_order-process_outbox surroundings (mock_provider 700) 1 40 1 800 410 prepaid.1
      {till' = confirmed} {p = prepaid_row} {o = order_of 1 501 pending_payment} prepaid-Books refl
      refl refl refl refl
