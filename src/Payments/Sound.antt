-- ===== src/Payments/Sound.antt =====
-- The payments along any history of the handlers: each is announced to the worker once it has succeeded.
use dishflow_glm.Prelude.{
  ℕ, ℤ, pos, ◌≤◌, ◌<ℤ◌, ltb_ℤ, ◌==◌, ◌≡◌, refl, arith, Bool, true, false, not, ◌&&◌, none, List,
  ◌∷◌, ok, >>=-eq-ok, ok_inj, fail_if-eq-ok, All, find?, count, count-update_where,
  find?-none-count, All-update_where, All-map, Bool-cases, Option-cases, inl, inr, subst,
}
use dishflow_glm.Store.{Db, OutboxRow, OutboxEvent, payment_success, Order}
use dishflow_glm.Payments.Store.{
  Payment, Till, wechat_pay, insert_webhook, zero_order_not_wechat, check_violation, Provider,
  PrepayInput, PrepayResult, prepay, confirm_mock_payment, mark_success, upsert_payment, announce,
  set_success, is_success, is_payment_of, is_payment_at, set_prepay, succeed, has_webhook,
}
use dishflow_glm.Payments.Frames.{insert_webhook-payments, insert_webhook-db, is_announced}
use dishflow_glm.Payments.Callback.{
  Request, Notice, has_order_no, commit_mark, settle_notice, wechat_pay_transaction,
}
use dishflow_glm.Orders.Create.{insert_outbox}
use dishflow_glm.Inventory.{is_zero}

-- What holds of a payment.
abbrev pub Announced : List OutboxRow → Payment → Type 0
Announced rows p =
    (pos 0 <ℤ p.amount_cents) × (is_success p.status ≡ true → is_announced p.order_id rows ≡ true)

pub record Sound (till : Till) : Type 0 where
  pub announced : All (Announced till.db.outbox) till.payments
  pub single : (order : ℕ) → count (is_payment_of order) till.payments ≤ 1

-- A row that comes later stands in front.
Announced-later :
    (row : OutboxRow) (rows : List OutboxRow) (p : Payment)
    → Announced rows p
    → Announced (row ∷ rows) p
Announced-later row rows p (n, s) = (n, λ h. let k = s h in ground arith)

Announced-succeed :
    (store order transaction : ℕ) (row : OutboxRow) (rows : List OutboxRow) (p : Payment)
    → row.event ≡ payment_success
    → row.aggregate_id ≡ order
    → is_payment_at store order p ≡ true
    → Announced rows p
    → Announced (row ∷ rows) (succeed transaction p)
Announced-succeed store order transaction row rows p e n g (m, s) = (m, λ h. ground arith)

-- What `Prepay` does to the table.
upsert_payment-Sound :
    (in_ : PrepayInput) (res : PrepayResult) (till : Till)
    → Sound till
    → pos 0 <ℤ in_.amount_cents
    → Sound (upsert_payment in_ res (find? (is_payment_of in_.order_id) till.payments) till)
upsert_payment-Sound in_ res till v n =
    elim (Option-cases (find? (is_payment_of in_.order_id) till.payments)) [
      | inl e ↦ rw e (record {
        announced = ((n, λ h. cc), v.announced);
        single = λ o.
            let none_yet = find?-none-count (is_payment_of in_.order_id) till.payments e in
            let one = v.single o in ground arith;
      })
      | inr (p, e) ↦ rw e (record {
        announced =
            All-update_where (is_payment_of in_.order_id) (set_prepay res.prepay_id) till.payments
              (λ p h. h) (λ p g h. h) v.announced;
        single = λ o.
            rw
              (count-update_where (is_payment_of o) (is_payment_of in_.order_id)
                (set_prepay res.prepay_id) till.payments (λ p. refl))
              (v.single o);
      })
    ]

pub prepay-Sound :
    (provider : Provider) (in_ : PrepayInput) (till : Till) {r : PrepayResult × Till}
    → Sound till
    → prepay provider in_ till ≡ ok r
    → Sound r.1
unfolding prepay
prepay-Sound provider in_ till {r} v h =
    let (some_amount, h₁) = fail_if-eq-ok (is_zero in_.amount_cents) zero_order_not_wechat _ h in
    let (res, _, h₂) = >>=-eq-ok (provider.prepay in_) _ h₁ in
    let (not_negative, h₃) = fail_if-eq-ok (ltb_ℤ in_.amount_cents (pos 0)) check_violation _ h₂ in
    subst (λ x. Sound x.1) (ok_inj h₃) (upsert_payment-Sound in_ res till v (ground arith))

abbrev announcement : ℕ → ℕ → Till → OutboxRow
announcement store order till = record {
  id = till.db.next_id;
  store_id = store;
  event = payment_success;
  aggregate_id = order;
  status = dishflow_glm.Store.OutboxStatus.pending;
  attempts = 0;
  next_attempt_at = none;
}

announce-Sound : (store order : ℕ) (till : Till) → Sound till → Sound (announce store order till)
unfolding insert_outbox
announce-Sound store order till v = record {
  announced =
      All-map till.payments (Announced-later (announcement store order till) till.db.outbox)
        v.announced;
  single = v.single;
}

set_success-Sound :
    (store order transaction : ℕ) (till : Till)
    → Sound till
    → Sound (announce store order (set_success store order transaction till))
unfolding insert_outbox
set_success-Sound store order transaction till v = record {
  announced =
      All-update_where (is_payment_at store order) (succeed transaction) till.payments
        (Announced-later (announcement store order till) till.db.outbox)
        (λ p.
          Announced-succeed store order transaction (announcement store order till) till.db.outbox p
            refl refl)
        v.announced;
  single = λ o.
      rw
        (count-update_where (is_payment_of o) (is_payment_at store order) (succeed transaction)
          till.payments (λ p. refl))
        (v.single o);
}

pub confirm_mock_payment-Sound :
    (provider : Provider) (store order transaction : ℕ) (till : Till) {till' : Till}
    → Sound till
    → confirm_mock_payment provider store order transaction till ≡ ok till'
    → Sound till'
unfolding confirm_mock_payment
confirm_mock_payment-Sound provider store order transaction till {till'} v h =
    elim (Option-cases (find? (is_payment_at store order) till.payments)) [
      | inl e ↦ absurd (ground arith)
      | inr (p, e) ↦ elim (Bool-cases (is_success p.status)) [
        | inl s ↦ subst Sound (ground arith) v
        | inr s ↦ subst Sound (ground arith) (set_success-Sound store order transaction till v)
      ]
    ]

Sound-same : (a b : Till) → b.payments ≡ a.payments → b.db ≡ a.db → Sound a → Sound b
Sound-same a b e d v = record { announced = rw (e, d) v.announced; single = λ o. rw e (v.single o) }

settled-Sound :
    (store order transaction event : ℕ) (amount : ℤ) (till : Till)
    → Sound till
    → Sound
        (commit_mark store order (mark_success store order transaction event amount till) till).1
unfolding mark_success
settled-Sound store order transaction event amount till v =
    elim (Bool-cases (not (event == 0) && has_webhook wechat_pay event till.webhooks)) [
      | inl w ↦ rw w (announce-Sound store order till v)
      | inr w ↦ elim (Option-cases (find? (is_payment_at store order) till.payments)) [
        | inl e ↦ rw (w, e) v
        | inr (p, e) ↦ elim (Bool-cases (is_success p.status)) [
          | inl s ↦ rw (w, e, s) (announce-Sound store order till v)
          | inr s ↦
              let marked = set_success store order transaction till in
              rw (w, e, s)
                (Sound-same (announce store order marked)
                  (announce store order (insert_webhook wechat_pay store event order marked))
                  (insert_webhook-payments wechat_pay store event order marked)
                  (rw (insert_webhook-db wechat_pay store event order marked) refl)
                  (set_success-Sound store order transaction till v))
        ]
      ]
    ]

settle_notice-Sound :
    (store : ℕ) (n : Notice) (till : Till) → Sound till → Sound (settle_notice store n till).1
unfolding settle_notice
settle_notice-Sound store n till v = elim (Bool-cases (n.order_no == 0)) [
  | inl z ↦ rw z v
  | inr z ↦ elim (Option-cases (find? (has_order_no n.order_no) till.db.orders)) [
    | inl e ↦ rw (z, e) v
    | inr (o, e) ↦ elim (Bool-cases (o.store_id == store)) [
      | inl s ↦
          rw (z, e, s)
            (settled-Sound store o.id n.transaction_id n.provider_event_id n.amount till v)
      | inr s ↦ rw (z, e, s) v
    ]
  ]
]

pub wechat_pay_transaction-Sound :
    (dev : Bool) (r : Request) (till : Till)
    → Sound till
    → Sound (wechat_pay_transaction dev r till).1
unfolding wechat_pay_transaction
wechat_pay_transaction-Sound true r till v = elim (Option-cases r.plain) [
  | inl e ↦ rw e v
  | inr (n, e) ↦ rw e (settle_notice-Sound r.store_id n till v)
]
wechat_pay_transaction-Sound false r till v = v
