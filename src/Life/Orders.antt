-- ===== src/Life/Orders.antt =====
-- internal/orders: the operations on an order of a store, and how the orders evolve.
use dishflow_glm.Prelude.{
  ℕ, ◌==◌, ◌≡◌, refl, subst, arith, if◌then◌else◌, Bool, true, false, not, ◌&&◌, ok, >>=-eq-ok,
  fail_if, update_where,
}
use dishflow_glm.Store.{
  Db, Order, State, pending_payment, paid, accepted, refunding, refunded, cancel_requested,
  customer, staff, not_your_order, invalid_transition, version_conflict,
}
use dishflow_glm.Orders.StateMachine.{can_transition, is_customer}
use dishflow_glm.Orders.Reserve.{Traded}
use dishflow_glm.Orders.Release.{has_id}
use dishflow_glm.Orders.Cancel.{
  CancelInput, CancelResult, load_order, update_version, cancel_in, cancel, refund_row,
  refund_order, mark_refunded_in, mark_refunded, staff_refund_order, is_cancel_requested,
  review_cancel_request,
}
use dishflow_glm.Orders.Transition.{TransitionInput, affected, stamp, move, transition}
use dishflow_glm.Life.Moves.{
  Move, stay, refund_done, reject_request, refund_requested, refund_paid, request_cancel,
  can_transition-Move,
}
use dishflow_glm.Life.Rows.{
  evolve, Keeps, Keeps-same, Keeps-trans, update_where-Keeps, Keyed, loaded_row,
}
use dishflow_glm.Orders.Create.{insert_event}
use dishflow_glm.Life.Updates.{released-Keeps, one, cancel_and_release-Keeps, update_version-Keeps}

ok-snd :
    {A B : Type 0} (a b : A) (x y : B) → ◌≡◌ {A = Traded (A × B)} (ok (a, x)) (ok (b, y)) → x ≡ y
ok-snd a b x y h = cc

cancel_in-Keeps :
    (s : State) (now : ℕ) (in_ : CancelInput) (version : ℕ) (db : Db) {o : Order} {r : CancelResult}
    {db' : Db}
    → Keyed db
    → load_order in_.store_id in_.order_id db ≡ ok o
    → o.state ≡ s
    → cancel_in s now in_ version db ≡ ok (r, db')
    → Keeps db db'
unfolding cancel_in update_version insert_event
cancel_in-Keeps pending_payment now in_ version db key l e h =
    subst (Keeps db) (ok-snd _ _ _ _ h)
      (cancel_and_release-Keeps now in_.order_id in_.store_id customer db)
cancel_in-Keeps paid now in_ version db {o} key l e h = subst (Keeps db) (ok-snd _ _ _ _ h) (
    update_version-Keeps in_.store_id in_.order_id version refunding db _ key l (rw e refund_paid)
      refl refl)
cancel_in-Keeps accepted now in_ version db {o} key l e h = subst (Keeps db) (ok-snd _ _ _ _ h) (
    update_version-Keeps in_.store_id in_.order_id version cancel_requested db _ key l
      (rw e request_cancel) refl refl)
cancel_in-Keeps refunding now in_ version db key l e h =
    subst (Keeps db) (ok-snd _ _ _ _ h) (Keeps-same db db refl refl)
cancel_in-Keeps cancel_requested now in_ version db key l e h =
    subst (Keeps db) (ok-snd _ _ _ _ h) (Keeps-same db db refl refl)
cancel_in-Keeps _ now in_ version db key l e h = cc

pub cancel-Keeps :
    (now : ℕ) (in_ : CancelInput) (db : Db) {r : CancelResult} {db' : Db}
    → Keyed db
    → cancel now in_ db ≡ ok (r, db')
    → Keeps db db'
unfolding cancel
cancel-Keeps now in_ db key h =
    let (o, l, h₁) = >>=-eq-ok (load_order in_.store_id in_.order_id db) _ h in
    let (_, _, h₂) =
      >>=-eq-ok
        (fail_if (is_customer in_.actor && not (o.customer_id == in_.customer_id)) not_your_order) _
        h₁ in
    cancel_in-Keeps o.state now in_ o.version db key l refl h₂

refund_order-Keeps :
    (now store order : ℕ) (db : Db) {o : Order}
    → Keyed db
    → load_order store order db ≡ ok o
    → o.state ≡ refunding
    → Keeps db (refund_order now store order db)
unfolding refund_order
refund_order-Keeps now store order db {o} key l e =
    let moved = record db { orders = update_where (has_id order) refund_row db.orders } in
    let first =
      update_where-Keeps (has_id order) refund_row db moved refl refl (λ y. refl)
        (λ y f t.
          let same = loaded_row store order db key l f (ground arith) in
          let state : y.state ≡ refunding = subst (λ z. z.state ≡ refunding) same e in
          evolve y (refund_row y) (rw state (one refund_done)) (omega arith)
            (refl, refl, refl, refl, refl)) in
    Keeps-trans first (Keeps-trans (released-Keeps now order moved) (Keeps-same _ _ refl refl))

mark_refunded_in-Keeps :
    (s : State) (now store order : ℕ) (db : Db) {o : Order} {db' : Db}
    → Keyed db
    → load_order store order db ≡ ok o
    → o.state ≡ s
    → mark_refunded_in s now store order db ≡ ok db'
    → Keeps db db'
unfolding mark_refunded_in
mark_refunded_in-Keeps refunded now store order db {db' = db'} key l e h =
    let same : db ≡ db' = cc in subst (Keeps db) same (Keeps-same db db refl refl)
mark_refunded_in-Keeps refunding now store order db {db' = db'} key l e h =
    let same : refund_order now store order db ≡ db' = cc in
    subst (Keeps db) same (refund_order-Keeps now store order db key l e)
mark_refunded_in-Keeps _ now store order db key l e h = cc

pub mark_refunded-Keeps :
    (now store order : ℕ) (db : Db) {db' : Db}
    → Keyed db
    → mark_refunded now store order db ≡ ok db'
    → Keeps db db'
unfolding mark_refunded
mark_refunded-Keeps now store order db key h =
    let (o, l, h₁) = >>=-eq-ok (load_order store order db) _ h in
    mark_refunded_in-Keeps o.state now store order db key l refl h₁

pub staff_refund_order-Keeps :
    (store order user : ℕ) (db : Db) {db' : Db}
    → Keyed db
    → staff_refund_order store order user db ≡ ok db'
    → Keeps db db'
unfolding staff_refund_order update_version insert_event
staff_refund_order-Keeps store order user db {db'} key h =
    let (o, l, h₁) = >>=-eq-ok (load_order store order db) _ h in
    let (_, allowed, h₂) =
      >>=-eq-ok (fail_if (not (can_transition o.state refunding staff)) invalid_transition) _ h₁ in
    let m = can_transition-Move o.state refunding staff (ground arith) in
    update_version-Keeps store order o.version refunding db db' key l m (ground arith)
      (ground arith)

requested_state : (s : State) → is_cancel_requested s ≡ true → s ≡ cancel_requested
requested_state s h = ground arith

review_move : (approve : Bool) → Move cancel_requested (if approve then refunding else accepted)
review_move true = refund_requested
review_move false = reject_request

pub review_cancel_request-Keeps :
    (store order user : ℕ) (approve : Bool) (db : Db) {db' : Db}
    → Keyed db
    → review_cancel_request store order user approve db ≡ ok db'
    → Keeps db db'
unfolding review_cancel_request update_version insert_event
review_cancel_request-Keeps store order user approve db {db'} key h =
    let (o, l, h₁) = >>=-eq-ok (load_order store order db) _ h in
    let (_, waits, h₂) =
      >>=-eq-ok (fail_if (not (is_cancel_requested o.state)) invalid_transition) _ h₁ in
    let state = requested_state o.state (ground arith) in
    let to = if approve then refunding else accepted in
    let m : Move o.state to = rw state (review_move approve) in
    update_version-Keeps store order o.version to db db' key l m (ground arith) (ground arith)

stamp-Keeps :
    (s : State) (now k : ℕ) (db db' : Db)
    → db'.orders ≡ update_where (has_id k) (stamp s now) db.orders
    → db'.next_id ≡ db.next_id
    → Keeps db db'
unfolding stamp
stamp-Keeps s now k db db' e n =
    update_where-Keeps (has_id k) (stamp s now) db db' e n (λ y. ground arith)
      (λ y _ _.
        let state : (stamp s now y).state ≡ y.state = ground arith in
        evolve y (stamp s now y) (rw state stay) (ground arith)
          (ground arith, ground arith, ground arith, ground arith, ground arith))

pub transition-Keeps :
    (now : ℕ) (in_ : TransitionInput) (db : Db) {o' : Order} {db' : Db}
    → Keyed db
    → transition now in_ db ≡ ok (o', db')
    → Keeps db db'
unfolding transition move update_version insert_event
transition-Keeps now in_ db {o'} {db'} key h =
    let (o, l, h₁) = >>=-eq-ok (load_order in_.store_id in_.order_id db) _ h in
    let (_, _, h₂) =
      >>=-eq-ok (fail_if (not (o.version == in_.expected_version)) version_conflict) _ h₁ in
    let (_, allowed, h₃) =
      >>=-eq-ok (fail_if (not (can_transition o.state in_.to in_.actor)) invalid_transition) _ h₂ in
    let (_, _, h₄) =
      >>=-eq-ok (fail_if (affected in_.order_id in_.expected_version db == 0) version_conflict) _
        h₃ in
    let (o₂, _, h₅) =
      >>=-eq-ok (load_order in_.store_id in_.order_id (move now in_ o.state db)) _ h₄ in
    let m = can_transition-Move o.state in_.to in_.actor (ground arith) in
    let moved = update_version in_.order_id in_.expected_version in_.to db in
    let first =
      update_version-Keeps in_.store_id in_.order_id in_.expected_version in_.to db moved key l m
        refl refl in
    subst (Keeps db) (ok-snd _ _ _ _ h₅)
      (Keeps-trans first (stamp-Keeps in_.to now in_.order_id moved _ refl refl))
