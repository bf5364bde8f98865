-- ===== src/Stock/Trade.antt =====
-- Every operation that the service performs on the trading tables, as one step relation, and the books of
-- the stock along any history of them.
use dishflow_glm.Prelude.{
  ℕ, ◌==◌, ◌≡◌, refl, arith, Bool, ◌&&◌, not, update_where, subst, ok, fail_if, >>=-eq-ok,
  Option-cases, inl, inr,
}
use dishflow_glm.Store.{
  Db, Order, State, pending_payment, paid, accepted, refunding, refunded, cancel_requested,
  not_your_order, Actor, customer,
}
use dishflow_glm.Orders.StateMachine.{is_customer}
use dishflow_glm.Orders.Reserve.{Traded}
use dishflow_glm.Orders.Release.{
  release_inventory, release_pickup_capacity, release_capacity_of, find_order, has_id,
}
use dishflow_glm.Orders.Cancel.{
  CancelInput, CancelResult, cancel, cancel_in, cancel_and_release, mark_refunded, mark_refunded_in,
  refund_order, staff_refund_order, review_cancel_request, load_order, is_pending_order, cancel_row,
  refund_row,
}
use dishflow_glm.Orders.Transition.{TransitionInput, transition}
use dishflow_glm.Stock.Books.{Books}
use dishflow_glm.Stock.Release.{release_inventory-Books}
use dishflow_glm.Stock.Reserve.{SameStock, Books-SameStock}

release_pickup_capacity-SameStock :
    (now order : ℕ) (db : Db) → SameStock db (release_pickup_capacity now order db)
unfolding release_pickup_capacity release_capacity_of
release_pickup_capacity-SameStock now order db = elim (Option-cases (find_order order db.orders)) [
  | inl e ↦ ground arith
  | inr (o, e) ↦ ground arith
]

Books-released :
    (now order : ℕ) (db : Db)
    → Books db
    → Books (release_pickup_capacity now order (release_inventory order db))
Books-released now order db b =
    Books-SameStock (release_inventory order db)
      (release_pickup_capacity now order (release_inventory order db))
      (release_pickup_capacity-SameStock now order (release_inventory order db))
      (release_inventory-Books order db b)

cancel_and_release-Books :
    (now order store : ℕ) (actor : Actor) (db : Db)
    → Books db
    → Books (cancel_and_release now order store actor db)
unfolding cancel_and_release
cancel_and_release-Books now order store actor db b =
    let moved = record db {
      orders = update_where (is_pending_order order) (cancel_row now) db.orders;
    } in
    let same = Books-SameStock db moved (refl, refl) b in
    let done = Books-released now order moved same in record { agree = done.agree }

refund_order-Books :
    (now store order : ℕ) (db : Db) → Books db → Books (refund_order now store order db)
unfolding refund_order
refund_order-Books now store order db b =
    let moved = record db { orders = update_where (has_id order) refund_row db.orders } in
    let same = Books-SameStock db moved (refl, refl) b in
    let done = Books-released now order moved same in record { agree = done.agree }

ok-snd :
    {A B : Type 0} (a b : A) (x y : B) → ◌≡◌ {A = Traded (A × B)} (ok (a, x)) (ok (b, y)) → x ≡ y
ok-snd a b x y h = cc

cancel_in-Books :
    (s : State) (now : ℕ) (in_ : CancelInput) (version : ℕ) (db : Db) {r : CancelResult} {db' : Db}
    → Books db
    → cancel_in s now in_ version db ≡ ok (r, db')
    → Books db'
unfolding cancel_in
cancel_in-Books pending_payment now in_ version db b h =
    subst Books (ok-snd _ _ _ _ h)
      (cancel_and_release-Books now in_.order_id in_.store_id customer db b)
cancel_in-Books paid now in_ version db b h =
    subst Books (ok-snd _ _ _ _ h) (record { agree = b.agree })
cancel_in-Books accepted now in_ version db b h =
    subst Books (ok-snd _ _ _ _ h) (record { agree = b.agree })
cancel_in-Books refunding now in_ version db b h = subst Books (ok-snd _ _ _ _ h) b
cancel_in-Books cancel_requested now in_ version db b h = subst Books (ok-snd _ _ _ _ h) b
cancel_in-Books _ now in_ version db b h = cc

pub cancel-Books :
    (now : ℕ) (in_ : CancelInput) (db : Db) {r : CancelResult} {db' : Db}
    → Books db
    → cancel now in_ db ≡ ok (r, db')
    → Books db'
unfolding cancel
cancel-Books now in_ db b h =
    let (o, _, h₁) = >>=-eq-ok (load_order in_.store_id in_.order_id db) _ h in
    let (mine, _, h₂) =
      >>=-eq-ok
        (fail_if (is_customer in_.actor && not (o.customer_id == in_.customer_id)) not_your_order) _
        h₁ in
    cancel_in-Books o.state now in_ o.version db b h₂

mark_refunded_in-Books :
    (s : State) (now store order : ℕ) (db : Db) {db' : Db}
    → Books db
    → mark_refunded_in s now store order db ≡ ok db'
    → Books db'
unfolding mark_refunded_in
mark_refunded_in-Books refunded now store order db {db'} b h =
    let same : db ≡ db' = cc in subst Books same b
mark_refunded_in-Books refunding now store order db {db'} b h =
    let same : refund_order now store order db ≡ db' = cc in
    subst Books same (refund_order-Books now store order db b)
mark_refunded_in-Books _ now store order db b h = cc

pub mark_refunded-Books :
    (now store order : ℕ) (db : Db) {db' : Db}
    → Books db
    → mark_refunded now store order db ≡ ok db'
    → Books db'
unfolding mark_refunded
mark_refunded-Books now store order db b h =
    let (o, _, h₁) = >>=-eq-ok (load_order store order db) _ h in
    mark_refunded_in-Books o.state now store order db b h₁

pub staff_refund_order-SameStock :
    (store order user : ℕ) (db : Db) {db' : Db}
    → staff_refund_order store order user db ≡ ok db'
    → SameStock db db'
unfolding staff_refund_order
staff_refund_order-SameStock store order user db h = ground arith

pub review_cancel_request-SameStock :
    (store order user : ℕ) (approve : Bool) (db : Db) {db' : Db}
    → review_cancel_request store order user approve db ≡ ok db'
    → SameStock db db'
unfolding review_cancel_request
review_cancel_request-SameStock store order user approve db h = ground arith

pub transition-SameStock :
    (now : ℕ) (in_ : TransitionInput) (db : Db) {o : Order} {db' : Db}
    → transition now in_ db ≡ ok (o, db')
    → SameStock db db'
unfolding transition
transition-SameStock now in_ db h = ground arith
