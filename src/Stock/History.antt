-- ===== src/Stock/History.antt =====
-- Every operation of internal/orders, internal/worker and internal/inventory that writes the trading tables,
-- as one step relation, and the books of the stock along any history of such steps.
use dishflow_glm.Prelude.{ℕ, ◌≡◌, Bool, ok}
use dishflow_glm.Store.{Db, Order}
use dishflow_glm.Orders.Reserve.{Clock}
use dishflow_glm.Orders.Create.{CreateInput, create}
use dishflow_glm.Orders.Cancel.{
  CancelInput, CancelResult, cancel, mark_refunded, staff_refund_order, review_cancel_request,
}
use dishflow_glm.Orders.Transition.{TransitionInput, transition}
use dishflow_glm.Worker.Payment.{on_payment_success}
use dishflow_glm.Worker.Expire.{release_expired_orders}
use dishflow_glm.Inventory.{AdjustInput, ensure_daily, adjust}
use dishflow_glm.Stock.Books.{Books}
use dishflow_glm.Stock.Sell.{on_payment_success-Books}
use dishflow_glm.Stock.Expire.{release_expired_orders-Books}
use dishflow_glm.Stock.Reserve.{Books-SameStock, create-Books}
use dishflow_glm.Stock.Trade.{
  cancel-Books, mark_refunded-Books, staff_refund_order-SameStock, review_cancel_request-SameStock,
  transition-SameStock,
}
use dishflow_glm.Stock.Adjust.{ensure_daily-Books, adjust-Books}

-- One committed operation. An operation that returns an error leaves the state as it was.
pub data Step (db : Db) (db' : Db) : Type 0 where
  creates :
      (clock : Clock) (now order_no : ℕ) (in_ : CreateInput) (id : ℕ)
      → create clock now order_no in_ db ≡ ok (id, db')
      → Step db db'
  cancels :
      (now : ℕ) (in_ : CancelInput) (r : CancelResult)
      → cancel now in_ db ≡ ok (r, db')
      → Step db db'
  refunds : (now store order : ℕ) → mark_refunded now store order db ≡ ok db' → Step db db'
  starts_refund :
      (store order user : ℕ) → staff_refund_order store order user db ≡ ok db' → Step db db'
  reviews :
      (store order user : ℕ) (approve : Bool)
      → review_cancel_request store order user approve db ≡ ok db'
      → Step db db'
  moves :
      (now : ℕ) (in_ : TransitionInput) (o : Order)
      → transition now in_ db ≡ ok (o, db')
      → Step db db'
  pays : (now store order : ℕ) → on_payment_success now store order db ≡ ok db' → Step db db'
  expires : (now : ℕ) → db' ≡ release_expired_orders now db → Step db db'
  opens_day : (store sku date qty : ℕ) → db' ≡ ensure_daily store sku date qty db → Step db db'
  adjusts : (in_ : AdjustInput) → adjust in_ db ≡ ok db' → Step db db'

pub data History (db : Db) : Db → Type 0 where
  start : History db db
  then_ : {db₁ db₂ : Db} → History db db₁ → Step db₁ db₂ → History db db₂

Step-Books : (db db' : Db) → Step db db' → Books db → Books db'
Step-Books db db' (creates clock now order_no in_ id e) b =
    create-Books clock now order_no in_ db b e
Step-Books db db' (cancels now in_ r e) b = cancel-Books now in_ db b e
Step-Books db db' (refunds now store order e) b = mark_refunded-Books now store order db b e
Step-Books db db' (starts_refund store order user e) b =
    Books-SameStock db db' (staff_refund_order-SameStock store order user db e) b
Step-Books db db' (reviews store order user approve e) b =
    Books-SameStock db db' (review_cancel_request-SameStock store order user approve db e) b
Step-Books db db' (moves now in_ o e) b =
    Books-SameStock db db' (transition-SameStock now in_ db e) b
Step-Books db db' (pays now store order e) b = on_payment_success-Books now store order db b e
Step-Books db db' (expires now e) b = rw e (release_expired_orders-Books now db b)
Step-Books db db' (opens_day store sku date qty e) b =
    rw e (ensure_daily-Books store sku date qty db b)
Step-Books db db' (adjusts in_ e) b = adjust-Books in_ db b e

-- After any history of committed operations from a state whose books are in order, every row reserves and
-- has sold exactly what the reservations say, and the two together stay within the row's target.
pub History-Books : {db db' : Db} → Books db → History db db' → Books db'
History-Books b start = b
History-Books b (then_ {db₁} {db₂} h s) = Step-Books db₁ db₂ s (History-Books b h)
