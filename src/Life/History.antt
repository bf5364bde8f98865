-- ===== src/Life/History.antt =====
-- The orders along any history of the operations of internal/orders, internal/worker and
-- internal/inventory.
use dishflow_glm.Prelude.{ℕ, ◌≡◌, refl, sym, subst, arith, true, some, ok, Option-cases, inl, inr}
use dishflow_glm.Store.{Db, Order}
use dishflow_glm.Orders.Release.{find_order}
use dishflow_glm.Inventory.{AdjustInput, ensure_daily, adjust, adjust_found, adjust_to, set_target}
use dishflow_glm.Stock.History.{
  Step, History, creates, cancels, refunds, starts_refund, reviews, moves, pays, expires, opens_day,
  adjusts, start, then_,
}
use dishflow_glm.Life.Moves.{is_final, Moves-is_final}
use dishflow_glm.Life.Rows.{Evolves-trans, Keeps, Keeps-same, Keyed}
use dishflow_glm.Life.Orders.{
  cancel-Keeps, mark_refunded-Keeps, staff_refund_order-Keeps, review_cancel_request-Keeps,
  transition-Keeps,
}
use dishflow_glm.Life.Worker.{on_payment_success-Keeps, release_expired_orders-Keeps}
use dishflow_glm.Life.Create.{Lives, Lives-Keeps, create-Lives}

ensure_daily-Keeps :
    (store sku date qty : ℕ) (db : Db) → Keeps db (ensure_daily store sku date qty db)
unfolding ensure_daily
ensure_daily-Keeps store sku date qty db = elim (Option-cases (db.daily store sku date)) [
  | inl e ↦ Keeps-same db _ (ground arith) (ground arith)
  | inr (d, e) ↦ Keeps-same db _ (ground arith) (ground arith)
]

adjust-Keeps : (in_ : AdjustInput) (db : Db) {db' : Db} → adjust in_ db ≡ ok db' → Keeps db db'
unfolding adjust adjust_found adjust_to set_target
adjust-Keeps in_ db {db'} h =
    elim (Option-cases (db.daily in_.store_id in_.sku_id in_.business_date)) [
      | inl e ↦ Keeps-same db db' (ground arith) (ground arith)
      | inr (d, e) ↦ Keeps-same db db' (ground arith) (ground arith)
    ]

Step-Lives : (db db' : Db) → Step db db' → Keyed db → Lives db db'
Step-Lives db db' (creates clock now order_no in_ id e) key =
    create-Lives clock now order_no in_ db key e
Step-Lives db db' (cancels now in_ r e) key = Lives-Keeps db db' key (cancel-Keeps now in_ db key e)
Step-Lives db db' (refunds now store order e) key =
    Lives-Keeps db db' key (mark_refunded-Keeps now store order db key e)
Step-Lives db db' (starts_refund store order user e) key =
    Lives-Keeps db db' key (staff_refund_order-Keeps store order user db key e)
Step-Lives db db' (reviews store order user approve e) key =
    Lives-Keeps db db' key (review_cancel_request-Keeps store order user approve db key e)
Step-Lives db db' (moves now in_ o e) key =
    Lives-Keeps db db' key (transition-Keeps now in_ db key e)
Step-Lives db db' (pays now store order e) key =
    Lives-Keeps db db' key (on_payment_success-Keeps now store order db e)
Step-Lives db db' (expires now e) key =
    Lives-Keeps db db' key (subst (Keeps db) (sym e) (release_expired_orders-Keeps now db))
Step-Lives db db' (opens_day store sku date qty e) key =
    Lives-Keeps db db' key (subst (Keeps db) (sym e) (ensure_daily-Keeps store sku date qty db))
Step-Lives db db' (adjusts in_ e) key = Lives-Keeps db db' key (adjust-Keeps in_ db e)

-- Along any history of committed operations from a state in which `orders` has its primary key, every order
-- stays and evolves only by documented moves: its version never goes back, and its number, store, customer,
-- pickup number and payable amount are those of its creation. The primary key is kept as well.
pub History-Lives : {db db' : Db} → Keyed db → History db db' → Lives db db'
History-Lives {db} key start = Lives-Keeps db db key (Keeps-same db db refl refl)
History-Lives {db} key (then_ {db₁} {db₂} h s) =
    let before = History-Lives key h in
    let after = Step-Lives db₁ db₂ s before.keyed in
    record {
      tracks = λ i o found.
          let (o₁, found₁, e₁) = before.tracks i o found in
          let (o₂, found₂, e₂) = after.tracks i o₁ found₁ in (o₂, found₂, Evolves-trans e₁ e₂);
      keyed = after.keyed;
    }

-- An order that is cancelled or refunded stays so for ever, whatever is done later.
pub History-final :
    {db db' : Db} (i : ℕ) (o : Order)
    → Keyed db
    → History db db'
    → find_order i db.orders ≡ some o
    → is_final o.state ≡ true
    → (o' : Order) × (find_order i db'.orders ≡ some o') × (o'.state ≡ o.state)
History-final i o key h found e =
    let (o', again, evolved) = (History-Lives key h).tracks i o found in
    (o', again, Moves-is_final evolved.moves e)
