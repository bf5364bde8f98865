-- ===== src/Payments/Refunding.antt =====
-- The refund of a cancelled order: it leaves the payments, the outbox grows, and an order is refunded once.
use dishflow_glm.Prelude.{
  ℕ, pos, ◌∙◌, ◌≡◌, refl, arith, subst, ok, err, ok_inj, fail_if-eq-ok, All-map, find?, sym, leb_ℤ,
  ltb, count, update_where, Bool-cases, Option-cases, inl, inr, ap,
}
use dishflow_glm.Store.{Db}
use dishflow_glm.Orders.Reserve.{Traded}
use dishflow_glm.Orders.Create.{insert_outbox}
use dishflow_glm.Orders.Cancel.{cancel, CancelResult}
use dishflow_glm.Payments.Store.{
  Till, Paid, amount_not_positive, existing_refund, duplicate_key, wechat_refund, insert_webhook,
}
use dishflow_glm.Payments.Refunds.{
  CreateInput, create_refund, mark_refund_success, is_active, has_refund_no, is_success_status,
  is_refunded, is_refund_at, succeed_refund,
}
use dishflow_glm.Payments.Handlers.{
  is_settled, refund_input, announce_refund, conclude_refund, finish_refund, initiate_refund,
  cancel_input, finish_cancel, refund_answer, cancel_order,
}
use dishflow_glm.Payments.Frames.{
  insert_webhook-db, insert_webhook-payments, Grows-same, Grows, cancel-Grows,
}
use dishflow_glm.Payments.Refunded.{
  Refunded, Refunded-later, create_refund-Refunded, mark_refund_success-Refunded,
}

-- The refund: it leaves the payments, and the outbox grows.
abbrev pub Refunds : Till → Till → Type 0
Refunds a b = (b.payments ≡ a.payments) × Grows a.db b.db × (Refunded a → Refunded b)

Refunds-trans : {a b c : Till} → Refunds a b → Refunds b c → Refunds a c
Refunds-trans (e, g, k) (f, h, l) = (
  f ∙ e,
  record {
    announced = λ o x. h.announced o (g.announced o x);
    later = omega (arith, g.later, h.later);
  },
  λ v. l (k v),
)

create_refund-Refunds :
    (refund_no : ℕ) (in_ : CreateInput) (till : Till) {r : ℕ × Till}
    → create_refund refund_no in_ till ≡ ok r
    → Refunds till r.1
unfolding create_refund
create_refund-Refunds refund_no in_ till {r} h =
    let (_, h₁) = fail_if-eq-ok (leb_ℤ in_.amount_cents (pos 0)) amount_not_positive _ h in
    let (_, h₂) =
      fail_if-eq-ok (ltb 0 (count (is_active in_.order_id) till.refunds)) existing_refund _ h₁ in
    let (_, h₃) =
      fail_if-eq-ok (ltb 0 (count (has_refund_no refund_no) till.refunds)) duplicate_key _ h₂ in
    (
      sym (ap (λ (x : ℕ × Till). x.1.payments) (ok_inj h₃)),
      subst (λ x. Grows till.db x.1.db) (ok_inj h₃)
          (record { announced = λ o e. e; later = omega arith }),
      λ v. create_refund-Refunded refund_no in_ till v h,
    )

mark_refund_success-Refunds :
    (store refund event : ℕ) (till : Till) {till' : Till}
    → mark_refund_success store refund event till ≡ ok till'
    → Refunds till till'
unfolding mark_refund_success
mark_refund_success-Refunds store refund event till {till'} h =
    elim (Option-cases (find? (is_refund_at store refund) till.refunds)) [
      | inl e ↦ absurd (ground arith)
      | inr (r, e) ↦
          let keep =
            λ (v : Refunded till). mark_refund_success-Refunded store refund event till v h in
          let h₁ = rw e at h in
          elim (Bool-cases (is_success_status r.status)) [
            | inl s ↦
                let same : till ≡ till' = ok_inj (rw s at h₁) in
                (ground arith, Grows-same till.db till'.db (ground arith) (ground arith), keep)
            | inr s ↦
                let (_, h₂) =
                  fail_if-eq-ok (ltb 0 (count (is_refunded r.order_id) till.refunds)) duplicate_key
                    _ (rw s at h₁) in
                let marked = record till {
                  refunds = update_where (is_refund_at store refund) succeed_refund till.refunds;
                } in
                let same : insert_webhook wechat_refund store event refund marked ≡ till' =
                  ok_inj h₂ in
                let db = insert_webhook-db wechat_refund store event refund marked in
                let payments = insert_webhook-payments wechat_refund store event refund marked in
                (cc, Grows-same till.db till'.db (cc) (cc), keep)
          ]
    ]

announce_refund-Refunds :
    (store order customer refund : ℕ) (till : Till)
    → Refunds till (announce_refund store order customer refund till)
unfolding insert_outbox
announce_refund-Refunds store order customer refund till = (
  refl,
  record { announced = λ o h. h; later = omega arith },
  λ v. record {
    active = v.active;
    refunded = v.refunded;
    keyed = v.keyed;
    fresh = All-map till.refunds (λ r h. omega arith) v.fresh;
  },
)

Refunds-refl : (till : Till) → Refunds till till
Refunds-refl till = (refl, Grows-same till.db till.db refl refl, λ v. v)

conclude_refund-Refunds :
    (store order customer refund : ℕ) (till : Till) (marked : Paid Till)
    → mark_refund_success store refund 0 till ≡ marked
    → Refunds till (conclude_refund store order customer refund marked till).1
conclude_refund-Refunds store order customer refund till (ok marked) e =
    Refunds-trans (mark_refund_success-Refunds store refund 0 till e)
      (announce_refund-Refunds store order customer refund marked)
conclude_refund-Refunds store order customer refund till (err x) e = Refunds-refl till

finish_refund-Refunds :
    (store order customer refund_no : ℕ) (in_ : CreateInput) (till : Till) (made : Paid (ℕ × Till))
    → create_refund refund_no in_ till ≡ made
    → Refunds till (finish_refund store order customer made till).1
finish_refund-Refunds store order customer refund_no in_ till (ok (refund, made)) e =
    Refunds-trans (create_refund-Refunds refund_no in_ till e)
      (conclude_refund-Refunds store order customer refund made _ refl)
finish_refund-Refunds store order customer refund_no in_ till (err x) e = Refunds-refl till

pub initiate_refund-Refunds :
    (store order customer refund_no : ℕ) (till : Till)
    → Refunds till (initiate_refund store order customer refund_no till).1
unfolding initiate_refund
initiate_refund-Refunds store order customer refund_no till =
    elim (Option-cases (find? (is_settled order) till.payments)) [
      | inl e ↦ rw e (Refunds-refl till)
      | inr (p, e) ↦ rw e (
          finish_refund-Refunds store order customer refund_no (refund_input store order p) till _
            refl)
    ]

cancelled-Refunds :
    (till : Till) (db : Db) → Grows till.db db → Refunds till (record till { db = db })
cancelled-Refunds till db g =
    (refl, g, λ v. Refunded-later till (record till { db = db }) refl g.later v)

refund_answer-state :
    (result : CancelResult) (r : Paid (Unit {0}) × Till) → (refund_answer result r).1 ≡ r.1
refund_answer-state result (ok done, till) = refl
refund_answer-state result (err e, till) = refl

finish_cancel-Refunds :
    (now store order customer refund_no : ℕ) (till : Till) (done : Traded (CancelResult × Db))
    → cancel now (cancel_input store customer order) till.db ≡ done
    → Refunds till (finish_cancel store order customer refund_no done till).1
finish_cancel-Refunds now store order customer refund_no till (err x) e = Refunds-refl till
finish_cancel-Refunds now store order customer refund_no till (ok (result, db)) e =
    let in_ = cancel_input store customer order in
    let traded = cancelled-Refunds till db (cancel-Grows now in_ till.db e) in
    let refunded =
      initiate_refund-Refunds store order customer refund_no (record till { db = db }) in
    elim (Bool-cases result.need_refund) [
      | inl n ↦
          let refund = initiate_refund store order customer refund_no (record till { db = db }) in
          simp (n, refund_answer-state result refund) (Refunds-trans traded refunded)
      | inr n ↦ simp n traded
    ]

pub cancel_order-Refunds :
    (now store customer order refund_no : ℕ) (till : Till)
    → Refunds till (cancel_order now store customer order refund_no till).1
unfolding cancel_order
cancel_order-Refunds now store customer order refund_no till =
    finish_cancel-Refunds now store order customer refund_no till _ refl
