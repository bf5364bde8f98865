-- ===== src/Orders/Lock.antt =====
-- internal/orders/query.go: the optimistic lock of `Transition`.
use dishflow_glm.Prelude.{
  ℕ, ◌+◌, ◌==◌, ◌≡◌, refl, subst, arith, if◌then◌else◌, true, false, not, some, ok, err, fail_if,
  >>=-eq-ok, update_where, find?, find?-update_where, find?_holds,
}
use dishflow_glm.Store.{Db, Order, State, version_conflict, invalid_transition}
use dishflow_glm.Orders.StateMachine.{can_transition}
use dishflow_glm.Orders.Create.{insert_event}
use dishflow_glm.Orders.Release.{has_id}
use dishflow_glm.Orders.Cancel.{is_order, is_version, load_order, update_version, move_to}
use dishflow_glm.Orders.Transition.{TransitionInput, affected, stamp, move, transition}

stamp-is_order :
    (s : State) (now store order : ℕ) (o : Order)
    → is_order store order (stamp s now o) ≡ is_order store order o
unfolding stamp
stamp-is_order s now store order o = ground arith

pub load_order_find :
    (store order : ℕ) (db : Db) {o : Order}
    → load_order store order db ≡ ok o
    → find? (is_order store order) db.orders ≡ some o
unfolding load_order
load_order_find store order db h = ground arith

find_load_order :
    (store order : ℕ) (db : Db) {o : Order}
    → find? (is_order store order) db.orders ≡ some o
    → load_order store order db ≡ ok o
unfolding load_order
find_load_order store order db h = rw (load_order, h) refl

-- What the caller of `Transition` gets back.
pub load_order-move :
    (now : ℕ) (in_ : TransitionInput) (from : State) (db : Db) {o : Order}
    → load_order in_.store_id in_.order_id db ≡ ok o
    → o.version ≡ in_.expected_version
    → o.id ≡ in_.order_id
    → load_order in_.store_id in_.order_id (move now in_ from db)
      ≡ ok (stamp in_.to now (move_to in_.to o))
unfolding move update_version insert_event
load_order-move now in_ from db {o} h v i =
    let s = in_.store_id in
    let k = in_.order_id in
    let found = load_order_find s k db h in
    let this : is_version k in_.expected_version o ≡ true = ground arith in
    let that : has_id k (move_to in_.to o) ≡ true = ground arith in
    let moved : find? (is_order s k)
          (update_where (is_version k in_.expected_version) (move_to in_.to) db.orders)
        ≡ some (move_to in_.to o) =
      subst
        (λ b.
          find? (is_order s k)
            (update_where (is_version k in_.expected_version) (move_to in_.to) db.orders)
          ≡ some (if b then move_to in_.to o else o))
        this
        (find?-update_where (is_order s k) (is_version k in_.expected_version) (move_to in_.to)
          db.orders (λ y. refl) found) in
    find_load_order s k (move now in_ from db) (
      subst
        (λ b.
          find? (is_order s k) (
            update_where (has_id k) (stamp in_.to now)
              (update_where (is_version k in_.expected_version) (move_to in_.to) db.orders))
          ≡ some (if b then stamp in_.to now (move_to in_.to o) else move_to in_.to o))
        that
        (find?-update_where (is_order s k) (has_id k) (stamp in_.to now)
          (update_where (is_version k in_.expected_version) (move_to in_.to) db.orders)
          (stamp-is_order in_.to now s k) moved))

pub load_order_id :
    (store order : ℕ) (db : Db) {o : Order}
    → load_order store order db ≡ ok o
    → (o.id ≡ order) × (o.store_id ≡ store)
load_order_id store order db {o} h =
    let test = find?_holds (is_order store order) db.orders (load_order_find store order db h) in
    ground arith

-- `Transition` moves an order only in the version that the caller has seen and only where the table of
-- transitions allows it; the order is then in the wanted state, one version later.
pub transition_lem :
    (now : ℕ) (in_ : TransitionInput) (db : Db) {o' : Order} {db' : Db}
    → transition now in_ db ≡ ok (o', db')
    → (o : Order) × (load_order in_.store_id in_.order_id db ≡ ok o)
      × (o.version ≡ in_.expected_version)
      × (can_transition o.state in_.to in_.actor ≡ true)
      × (load_order in_.store_id in_.order_id db' ≡ ok o')
      × (o'.state ≡ in_.to)
      × (o'.version ≡ in_.expected_version + 1)
unfolding transition stamp
transition_lem now in_ db {o'} {db'} h =
    let (o, loaded, h₁) = >>=-eq-ok (load_order in_.store_id in_.order_id db) _ h in
    let (_, same, h₂) =
      >>=-eq-ok (fail_if (not (o.version == in_.expected_version)) version_conflict) _ h₁ in
    let (_, allowed, h₃) =
      >>=-eq-ok (fail_if (not (can_transition o.state in_.to in_.actor)) invalid_transition) _ h₂ in
    let (_, hit, h₄) =
      >>=-eq-ok (fail_if (affected in_.order_id in_.expected_version db == 0) version_conflict) _
        h₃ in
    let (o₂, again, h₅) =
      >>=-eq-ok (load_order in_.store_id in_.order_id (move now in_ o.state db)) _ h₄ in
    let row : o₂ ≡ o' = cc in
    let state : move now in_ o.state db ≡ db' = cc in
    let version : o.version ≡ in_.expected_version = ground arith in
    let back =
      load_order-move now in_ o.state db loaded version
        (load_order_id in_.store_id in_.order_id db loaded).0 in
    let final : stamp in_.to now (move_to in_.to o) ≡ o' = cc in
    (
      o,
      loaded,
      version,
      ground arith,
      rw (← state, ← row) again,
      rw (← final) (ground arith),
      rw (← final) (ground arith),
    )

-- Of two transitions of an order that expect the same version, the one that comes second is refused.
pub transition_race :
    (now later : ℕ) (first second : TransitionInput) (db : Db) {o : Order} {db' : Db}
    → transition now first db ≡ ok (o, db')
    → second.store_id ≡ first.store_id
    → second.order_id ≡ first.order_id
    → second.expected_version ≡ first.expected_version
    → transition later second db' ≡ err version_conflict
unfolding transition
transition_race now later first second db {o} {db'} h s k v =
    let (_, _, _, _, loaded, _, version) = transition_lem now first db h in
    let stale : (o.version == second.expected_version) ≡ false = ground arith in
    rw (s, k, loaded, stale)
