-- ===== src/Life/Updates.antt =====
-- internal/orders: the UPDATEs of `orders` that the operations share, and how the rows evolve.
use dishflow_glm.Prelude.{
  ℕ, ◌≡◌, refl, subst, arith, true, Option, none, some, ok, update_where, Bool-cases, inl, inr,
}
use dishflow_glm.Store.{Db, Order, State, pending_payment, Actor}
use dishflow_glm.Orders.Release.{
  has_id, find_order, holds_slot, release_inventory, release_capacity_of, release_pickup_capacity,
}
use dishflow_glm.Orders.Cancel.{
  load_order, is_version, move_to, is_pending, is_pending_order, cancel_row, cancel_and_release,
}
use dishflow_glm.Life.Moves.{
  Move, Moves, stay, pay, give_up, refund_done, reject_request, refund_requested, refund_paid,
  request_cancel, can_transition-Move,
}
use dishflow_glm.Life.Rows.{
  evolve, Keeps, Keeps-same, Keeps-trans, update_where-Keeps, Keyed, loaded_row,
}

release_capacity_of-Keeps :
    (now : ℕ) (row : Option Order) (db : Db) → Keeps db (release_capacity_of now row db)
unfolding release_capacity_of
release_capacity_of-Keeps now none db = Keeps-same db db refl refl
release_capacity_of-Keeps now (some o) db = elim (Bool-cases (holds_slot o)) [
  | inl e ↦ rw e (
      update_where-Keeps (has_id o.id) (λ p. record p { released_at = some now }) db _ refl refl
        (λ p. refl) (λ p _ _. evolve p _ stay (omega arith) (refl, refl, refl, refl, refl)))
  | inr e ↦ rw e (Keeps-same db db refl refl)
]

-- The release of an order's stock and slot.
pub released-Keeps :
    (now order : ℕ) (db : Db)
    → Keeps db (release_pickup_capacity now order (release_inventory order db))
unfolding release_pickup_capacity release_inventory
released-Keeps now order db =
    Keeps-trans (Keeps-same db (release_inventory order db) refl refl)
      (release_capacity_of-Keeps now (find_order order db.orders) (release_inventory order db))

pub one : {s t : State} → Move s t → Moves s t
one m = dishflow_glm.Life.Moves.Moves.move stay m

pub pending_state : (o : Order) → is_pending o.state ≡ true → o.state ≡ pending_payment
pending_state o h = ground arith

pub cancelled-Keeps :
    (now order : ℕ) (db db' : Db)
    → db'.orders ≡ update_where (is_pending_order order) (cancel_row now) db.orders
    → db'.next_id ≡ db.next_id
    → Keeps db db'
cancelled-Keeps now order db db' e n =
    update_where-Keeps (is_pending_order order) (cancel_row now) db db' e n (λ o. refl)
      (λ o _ t.
        let state = pending_state o (ground arith) in
        evolve o (cancel_row now o) (rw state (one give_up)) (omega arith)
          (refl, refl, refl, refl, refl))

pub cancel_and_release-Keeps :
    (now order store : ℕ) (actor : Actor) (db : Db)
    → Keeps db (cancel_and_release now order store actor db)
unfolding cancel_and_release
cancel_and_release-Keeps now order store actor db =
    let moved = record db {
      orders = update_where (is_pending_order order) (cancel_row now) db.orders;
    } in
    Keeps-trans (cancelled-Keeps now order db moved refl refl)
      (Keeps-trans (released-Keeps now order moved) (Keeps-same _ _ refl refl))

-- An UPDATE under the version of the loaded row, to a state that the row may move to.
pub update_version-Keeps :
    (store k version : ℕ) (s : State) (db db' : Db) {o : Order}
    → Keyed db
    → load_order store k db ≡ ok o
    → Move o.state s
    → db'.orders ≡ update_where (is_version k version) (move_to s) db.orders
    → db'.next_id ≡ db.next_id
    → Keeps db db'
update_version-Keeps store k version s db db' {o} key h m e n =
    update_where-Keeps (is_version k version) (move_to s) db db' e n (λ y. refl)
      (λ y f t.
        let same = loaded_row store k db key h f (ground arith) in
        evolve y (move_to s y) (subst (λ z. Moves z.state s) same (one m)) (omega arith)
          (refl, refl, refl, refl, refl))
