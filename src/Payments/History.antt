-- ===== src/Payments/History.antt =====
-- The payments and the refunds along any history of the customer's handlers, of the provider's calls, and of
-- transactions on the other tables.
use dishflow_glm.Prelude.{ℕ, ◌≡◌, refl, subst, Bool, ok, >>=-eq-ok, All-map, find?, inl, inr}
use dishflow_glm.Store.{Db}
use dishflow_glm.Orders.Cancel.{is_order}
use dishflow_glm.Payments.Store.{Till, Provider, PrepayResult, prepay}
use dishflow_glm.Payments.Callback.{Request, Answer, wechat_pay_transaction}
use dishflow_glm.Payments.Handlers.{
  own_order, prepay_input, prepay_order, confirm_order, CancelAnswer, cancel_order,
}
use dishflow_glm.Payments.Frames.{Grows}
use dishflow_glm.Payments.Sound.{
  Sound, prepay-Sound, confirm_mock_payment-Sound, wechat_pay_transaction-Sound,
}
use dishflow_glm.Payments.Beside.{
  Beside, zero_order_ok-cases, prepay-Beside, confirm_mock_payment-Beside,
  wechat_pay_transaction-Beside,
}
use dishflow_glm.Payments.Refunding.{Refunds, cancel_order-Refunds}
use dishflow_glm.Payments.Refunded.{Refunded-later, Refunded}

-- One request that was answered, or a transaction that writes other tables.
pub data PayStep (till : Till) (till' : Till) : Type 0 where
  prepays :
      (provider : Provider) (store customer order : ℕ) (r : PrepayResult)
      → prepay_order provider store customer order till ≡ ok (r, till')
      → PayStep till till'
  confirms :
      (provider : Provider) (store customer order transaction : ℕ)
      → confirm_order provider store customer order transaction till ≡ ok till'
      → PayStep till till'
  calls_back :
      (dev : Bool) (r : Request) (a : Answer)
      → wechat_pay_transaction dev r till ≡ (a, till')
      → PayStep till till'
  cancels :
      (now store customer order refund_no : ℕ) (a : CancelAnswer)
      → cancel_order now store customer order refund_no till ≡ (a, till')
      → PayStep till till'
  trades : (db : Db) → Grows till.db db → till' ≡ record till { db = db } → PayStep till till'

pub data PayHistory (till : Till) : Till → Type 0 where
  start : PayHistory till till
  then_ : {t₁ t₂ : Till} → PayHistory till t₁ → PayStep t₁ t₂ → PayHistory till t₂

Sound-Grows : (a b : Till) → b.payments ≡ a.payments → Grows a.db b.db → Sound a → Sound b
Sound-Grows a b e g v = record {
  announced =
      rw e (All-map a.payments (λ p (n, s). (n, λ h. g.announced p.order_id (s h))) v.announced);
  single = λ o. rw e (v.single o);
}

PayStep-Sound : {a b : Till} → PayStep a b → Sound a → Sound b
unfolding prepay_order confirm_order
PayStep-Sound {a} {b} (prepays provider store customer order r h) v =
    let (o, _, h₁) =
      >>=-eq-ok (own_order customer (find? (is_order store order) a.db.orders)) _ h in
    elim (zero_order_ok-cases a (prepay provider (prepay_input store o) a) h₁) [
      | inl e ↦ prepay-Sound provider (prepay_input store o) a v e
      | inr e ↦ subst Sound e v
    ]
PayStep-Sound {a} {b} (confirms provider store customer order transaction h) v =
    let (o, _, h₁) =
      >>=-eq-ok (own_order customer (find? (is_order store order) a.db.orders)) _ h in
    confirm_mock_payment-Sound provider store o.id transaction a v h₁
PayStep-Sound {a} {b} (calls_back dev r x h) v =
    subst (λ y. Sound y.1) h (wechat_pay_transaction-Sound dev r a v)
PayStep-Sound {a} {b} (cancels now store customer order refund_no x h) v =
    let (e, g, _) =
      subst (λ y. Refunds a y.1) h (cancel_order-Refunds now store customer order refund_no a) in
    Sound-Grows a b e g v
PayStep-Sound {a} {b} (trades db g e) v = rw e (Sound-Grows a (record a { db = db }) refl g v)

PayStep-Refunded : {a b : Till} → PayStep a b → Refunded a → Refunded b
unfolding prepay_order confirm_order
PayStep-Refunded {a} {b} (prepays provider store customer order r h) v =
    let (o, _, h₁) =
      >>=-eq-ok (own_order customer (find? (is_order store order) a.db.orders)) _ h in
    elim (zero_order_ok-cases a (prepay provider (prepay_input store o) a) h₁) [
      | inl e ↦
          let (same, later) = prepay-Beside provider (prepay_input store o) a e in
          Refunded-later a b same later v
      | inr e ↦ subst Refunded e v
    ]
PayStep-Refunded {a} {b} (confirms provider store customer order transaction h) v =
    let (o, _, h₁) =
      >>=-eq-ok (own_order customer (find? (is_order store order) a.db.orders)) _ h in
    let (same, later) = confirm_mock_payment-Beside provider store o.id transaction a h₁ in
    Refunded-later a b same later v
PayStep-Refunded {a} {b} (calls_back dev r x h) v =
    let (same, later) = subst (λ y. Beside a y.1) h (wechat_pay_transaction-Beside dev r a) in
    Refunded-later a b same later v
PayStep-Refunded {a} {b} (cancels now store customer order refund_no x h) v =
    let (_, _, keep) =
      subst (λ y. Refunds a y.1) h (cancel_order-Refunds now store customer order refund_no a) in
    keep v
PayStep-Refunded {a} {b} (trades db g e) v =
    rw e (Refunded-later a (record a { db = db }) refl g.later v)

-- Along any history of prepayments, confirmations, provider's calls, cancellations and transactions on other
-- tables that keep the outbox's events: an order has one payment at most, each payment has an amount above
-- zero, and each payment that has succeeded is announced in the outbox.
pub PayHistory-Sound : {a b : Till} → Sound a → PayHistory a b → Sound b
PayHistory-Sound v start = v
PayHistory-Sound v (then_ h s) = PayStep-Sound s (PayHistory-Sound v h)

-- Along the same histories an order has one refund under way at most, and is refunded once at most.
pub PayHistory-Refunded : {a b : Till} → Refunded a → PayHistory a b → Refunded b
PayHistory-Refunded v start = v
PayHistory-Refunded v (then_ h s) = PayStep-Refunded s (PayHistory-Refunded v h)
