-- ===== src/Capacity/Updates.antt =====
-- internal/orders and internal/worker: the statements on `pickup_slot_capacity`, and the operations that run
-- them.
use dishflow_glm.Prelude.{
  ℕ, ◌≤◌, ◌≡◌, arith, Option, none, some, ok, Bool-cases, Option-cases, inl, inr,
}
use dishflow_glm.Store.{Db, Order, Slot, Slots, set_slot}
use dishflow_glm.Orders.Reserve.{slot_or_new, reserve_slot_at}
use dishflow_glm.Orders.Release.{
  find_order, holds_slot, free_slot, release_capacity_of, release_pickup_capacity,
  release_inventory,
}
use dishflow_glm.Worker.Expire.{expire_slot}

-- No slot has more orders than its capacity.
abbrev pub Fits : Option Slot → Type 0
Fits none = Unit
Fits (some s) = s.reserved_orders ≤ s.capacity_snapshot

abbrev pub AllFit : Slots → Type 0
AllFit slots = (store time : ℕ) → Fits (slots store time)

pub record Bounded (db : Db) : Type 0 where
  pub fit : AllFit db.slots

pub Bounded-same : (db db' : Db) → db'.slots ≡ db.slots → Bounded db → Bounded db'
Bounded-same db db' e b = record { fit = λ s t. rw e (b.fit s t) }

set_slot-AllFit :
    (store time : ℕ) (row : Slot) (slots : Slots)
    → row.reserved_orders ≤ row.capacity_snapshot
    → AllFit slots
    → AllFit (set_slot store time row slots)
set_slot-AllFit store time row slots h fit s t = ground (arith, fit s t)

pub free_slot-AllFit :
    (store : ℕ) (time : Option ℕ) (slots : Slots)
    → AllFit slots
    → AllFit (free_slot store time slots)
free_slot-AllFit store none slots fit s t = fit s t
free_slot-AllFit store (some time) slots fit s t = elim (Option-cases (slots store time)) [
  | inl e ↦ rw e (fit s t)
  | inr (row, e) ↦ ground (arith, fit store time, fit s t)
]

release_capacity_of-Bounded :
    (now : ℕ) (row : Option Order) (db : Db) → Bounded db → Bounded (release_capacity_of now row db)
unfolding release_capacity_of
release_capacity_of-Bounded now none db b = b
release_capacity_of-Bounded now (some o) db b = elim (Bool-cases (holds_slot o)) [
  | inl e ↦ rw e (record { fit = free_slot-AllFit o.store_id o.scheduled_for db.slots b.fit })
  | inr e ↦ rw e b
]

pub released-Bounded :
    (now order : ℕ) (db : Db)
    → Bounded db
    → Bounded (release_pickup_capacity now order (release_inventory order db))
unfolding release_pickup_capacity release_inventory
released-Bounded now order db b =
    release_capacity_of-Bounded now (find_order order db.orders) (release_inventory order db)
      (record { fit = b.fit })

pub expire_slot-AllFit :
    (row : Option Order) (slots : Slots) → AllFit slots → AllFit (expire_slot row slots)
expire_slot-AllFit none slots fit s t = fit s t
expire_slot-AllFit (some o) slots fit s t = elim (Option-cases o.scheduled_for) [
  | inl e ↦ rw e (fit s t)
  | inr (time, e) ↦ elim (Option-cases (slots o.store_id time)) [
    | inl f ↦ ground (arith, fit s t)
    | inr (row, f) ↦ ground (arith, fit o.store_id time, fit s t)
  ]
]

pub reserve_slot_at-Bounded :
    (store time : ℕ) (db : Db) {db' : Db}
    → Bounded db
    → reserve_slot_at store time db ≡ ok db'
    → Bounded db'
unfolding reserve_slot_at slot_or_new
reserve_slot_at-Bounded store time db b h = record { fit = λ s t. ground (arith, b.fit s t) }
