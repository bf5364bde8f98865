-- ===== src/Payments/Beside.antt =====
-- The requests about payments leave the refunds alone.
use dishflow_glm.Prelude.{
  ℕ, ℤ, pos, ltb_ℤ, ◌==◌, ◌&&◌, ◌∙◌, ◌≤◌, ◌≡◌, refl, arith, subst, Bool, true, false, not, ok, err,
  >>=-eq-ok, ok_inj, fail_if-eq-ok, find?, Bool-cases, Option-cases, inl, inr, ◌⊎◌, ap,
}
use dishflow_glm.Store.{Db}
use dishflow_glm.Orders.Create.{insert_outbox}
use dishflow_glm.Payments.Store.{
  Till, Paid, Provider, PrepayInput, PrepayResult, prepay, confirm_mock_payment,
  zero_order_not_wechat, check_violation, is_payment_of, is_payment_at, is_success, announce,
  set_success, mark_success, has_webhook, wechat_pay, insert_webhook,
}
use dishflow_glm.Payments.Callback.{
  Request, Notice, has_order_no, commit_mark, settle_notice, wechat_pay_transaction,
}
use dishflow_glm.Payments.Handlers.{zero_order_ok}
use dishflow_glm.Inventory.{is_zero}
use dishflow_glm.Payments.Frames.{insert_webhook-refunds, insert_webhook-db}

pub zero_order_ok-cases :
    (till : Till) (called : Paid (PrepayResult × Till)) {r : PrepayResult × Till}
    → zero_order_ok till called ≡ ok r
    → (called ≡ ok r) ⊎ (till ≡ r.1)
zero_order_ok-cases till (ok r) h = inl h
zero_order_ok-cases till (err zero_order_not_wechat) h =
    inr (ap (λ (x : PrepayResult × Till). x.1) (ok_inj h))
zero_order_ok-cases till (err e) h = cc

-- The requests that do not touch the refunds.
abbrev pub Beside : Till → Till → Type 0
Beside a b = (b.refunds ≡ a.refunds) × (a.db.next_id ≤ b.db.next_id)

pub prepay-Beside :
    (provider : Provider) (in_ : PrepayInput) (till : Till) {r : PrepayResult × Till}
    → prepay provider in_ till ≡ ok r
    → Beside till r.1
unfolding prepay
prepay-Beside provider in_ till {r} h =
    let (_, h₁) = fail_if-eq-ok (is_zero in_.amount_cents) zero_order_not_wechat _ h in
    let (res, _, h₂) = >>=-eq-ok (provider.prepay in_) _ h₁ in
    let (_, h₃) = fail_if-eq-ok (ltb_ℤ in_.amount_cents (pos 0)) check_violation _ h₂ in
    subst (λ x. Beside till x.1) (ok_inj h₃)
      (elim (Option-cases (find? (is_payment_of in_.order_id) till.payments)) [
        | inl e ↦ rw e (refl, omega arith)
        | inr (p, e) ↦ rw e (refl, omega arith)
      ])

announce-Beside : (store order : ℕ) (till : Till) → Beside till (announce store order till)
unfolding insert_outbox
announce-Beside store order till = (refl, omega arith)

pub confirm_mock_payment-Beside :
    (provider : Provider) (store order transaction : ℕ) (till : Till) {till' : Till}
    → confirm_mock_payment provider store order transaction till ≡ ok till'
    → Beside till till'
unfolding confirm_mock_payment
confirm_mock_payment-Beside provider store order transaction till {till'} h =
    elim (Option-cases (find? (is_payment_at store order) till.payments)) [
      | inl e ↦ absurd (ground arith)
      | inr (p, e) ↦ elim (Bool-cases (is_success p.status)) [
        | inl s ↦
            let same : till ≡ till' = ground arith in subst (Beside till) same (refl, omega arith)
        | inr s ↦
            let paid = set_success store order transaction till in
            let same : announce store order paid ≡ till' = ground arith in
            subst (Beside till) same (announce-Beside store order paid)
      ]
    ]

settled-Beside :
    (store order transaction event : ℕ) (amount : ℤ) (till : Till)
    → Beside till
        (commit_mark store order (mark_success store order transaction event amount till) till).1
unfolding mark_success
settled-Beside store order transaction event amount till =
    elim (Bool-cases (not (event == 0) && has_webhook wechat_pay event till.webhooks)) [
      | inl w ↦ rw w (announce-Beside store order till)
      | inr w ↦ elim (Option-cases (find? (is_payment_at store order) till.payments)) [
        | inl e ↦ rw (w, e) (refl, omega arith)
        | inr (p, e) ↦ elim (Bool-cases (is_success p.status)) [
          | inl s ↦ rw (w, e, s) (announce-Beside store order till)
          | inr s ↦
              let paid = set_success store order transaction till in
              let noted = insert_webhook wechat_pay store event order paid in
              let (same, later) = announce-Beside store order noted in
              rw (w, e, s)
                (
                  same ∙ insert_webhook-refunds wechat_pay store event order paid,
                  omega (
                    arith,
                    ap (λ (d : Db). d.next_id)
                        (insert_webhook-db wechat_pay store event order paid),
                    later,
                  ),
                )
        ]
      ]
    ]

settle_notice-Beside :
    (store : ℕ) (n : Notice) (till : Till) → Beside till (settle_notice store n till).1
unfolding settle_notice
settle_notice-Beside store n till = elim (Bool-cases (n.order_no == 0)) [
  | inl z ↦ rw z (refl, omega arith)
  | inr z ↦ elim (Option-cases (find? (has_order_no n.order_no) till.db.orders)) [
    | inl e ↦ rw (z, e) (refl, omega arith)
    | inr (o, e) ↦ elim (Bool-cases (o.store_id == store)) [
      | inl s ↦
          rw (z, e, s)
            (settled-Beside store o.id n.transaction_id n.provider_event_id n.amount till)
      | inr s ↦ rw (z, e, s) (refl, omega arith)
    ]
  ]
]

pub wechat_pay_transaction-Beside :
    (dev : Bool) (r : Request) (till : Till) → Beside till (wechat_pay_transaction dev r till).1
unfolding wechat_pay_transaction
wechat_pay_transaction-Beside true r till = elim (Option-cases r.plain) [
  | inl e ↦ rw e (refl, omega arith)
  | inr (n, e) ↦ rw e (settle_notice-Beside r.store_id n till)
]
wechat_pay_transaction-Beside false r till = (refl, omega arith)
