-- ===== src/Payments/Webhooks.antt =====
-- internal/callbacks/callbacks.go: a notification whose event has been seen.
use dishflow_glm.Prelude.{ℕ, ◌==◌, ◌≡◌, refl, arith, true, false, some, find?, Bool-cases, inl, inr}
use dishflow_glm.Store.{Order}
use dishflow_glm.Orders.Create.{insert_outbox}
use dishflow_glm.Payments.Store.{
  Payment, Till, wechat_pay, has_webhook, insert_webhook, announce, set_success, is_payment_at,
  is_success, mark_success,
}
use dishflow_glm.Payments.Callback.{Notice, accepted, has_order_no, settle_notice}
use dishflow_glm.Payments.Frames.{is_announced, insert_webhook-db}

has_webhook-insert :
    (store event resource : ℕ) (till : Till)
    → (event == 0) ≡ false
    → has_webhook wechat_pay event (insert_webhook wechat_pay store event resource till).webhooks
      ≡ true
unfolding has_webhook
has_webhook-insert store event resource till e =
    elim (Bool-cases (has_webhook wechat_pay event till.webhooks)) [
      | inl h ↦ rw (e, h) h
      | inr h ↦ rw (e, h) (ground arith)
    ]

settle_notice-seen :
    (store : ℕ) (n : Notice) (till : Till) {o : Order}
    → (n.order_no == 0) ≡ false
    → (n.provider_event_id == 0) ≡ false
    → find? (has_order_no n.order_no) till.db.orders ≡ some o
    → o.store_id ≡ store
    → has_webhook wechat_pay n.provider_event_id till.webhooks ≡ true
    → settle_notice store n till ≡ (accepted, announce store o.id till)
unfolding settle_notice mark_success
settle_notice-seen store n till {o} z e f s h =
    let same : (o.store_id == store) ≡ true = ground arith in rw (z, f, same, e, h) refl

settle_notice-first :
    (store : ℕ) (n : Notice) (till : Till) {o : Order} {p : Payment}
    → (n.order_no == 0) ≡ false
    → (n.provider_event_id == 0) ≡ false
    → find? (has_order_no n.order_no) till.db.orders ≡ some o
    → o.store_id ≡ store
    → has_webhook wechat_pay n.provider_event_id till.webhooks ≡ false
    → find? (is_payment_at store o.id) till.payments ≡ some p
    → is_success p.status ≡ false
    → settle_notice store n till ≡ (
      accepted,
      announce store o.id (
          insert_webhook wechat_pay store n.provider_event_id o.id
            (set_success store o.id n.transaction_id till)),
    )
unfolding settle_notice mark_success
settle_notice-first store n till {o} z e f s h g q =
    let same : (o.store_id == store) ≡ true = ground arith in simp (z, f, same, e, h, g, q)

-- After a notification has made a payment succeed, another one with the same event id marks no payment, also
-- where it names another order, and yet the order that it names is announced as paid.
pub settle_notice_again :
    (store : ℕ) (n m : Notice) (till : Till) {o q : Order} {p : Payment}
    → (n.order_no == 0) ≡ false
    → (m.order_no == 0) ≡ false
    → (n.provider_event_id == 0) ≡ false
    → m.provider_event_id ≡ n.provider_event_id
    → find? (has_order_no n.order_no) till.db.orders ≡ some o
    → find? (has_order_no m.order_no) till.db.orders ≡ some q
    → o.store_id ≡ store
    → q.store_id ≡ store
    → has_webhook wechat_pay n.provider_event_id till.webhooks ≡ false
    → find? (is_payment_at store o.id) till.payments ≡ some p
    → is_success p.status ≡ false
    → let first = (settle_notice store n till).1 in
      let second = (settle_notice store m first).1 in
      (second.payments ≡ first.payments) × (is_announced q.id second.db.outbox ≡ true)
unfolding insert_outbox
settle_notice_again store n m till {o} {q} z y e same f g s t h k u =
    let paid = set_success store o.id n.transaction_id till in
    let noted = insert_webhook wechat_pay store n.provider_event_id o.id paid in
    let first = settle_notice-first store n till z e f s h k u in
    let orders : noted.db.orders ≡ till.db.orders =
      rw (insert_webhook-db wechat_pay store n.provider_event_id o.id paid) refl in
    let second =
      settle_notice-seen store m (announce store o.id noted) {o = q} y (rw same e) (rw orders g) t
        (rw same (has_webhook-insert store n.provider_event_id o.id paid e)) in
    rw (first, second) (refl, ground arith)
