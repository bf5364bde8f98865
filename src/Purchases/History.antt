-- ===== src/Purchases/History.antt =====
-- internal/materials: the purchase lists along any history of operations.
use dishflow_glm.Prelude.{ℕ, ◌≡◌, ok, ℤ}
use dishflow_glm.Migrate.Split.{Text}
use dishflow_glm.Purchases.Lists.{Purchasing, create_material, create_list, add_item}
use dishflow_glm.Purchases.Moves.{submit_list, mark_printed, complete_list, void_list}
use dishflow_glm.Purchases.Replay.{Replayed}
use dishflow_glm.Purchases.Keeps.{
  create_material-Replayed, create_list-Replayed, add_item-Replayed, submit_list-Replayed,
  mark_printed-Replayed, complete_list-Replayed, void_list-Replayed,
}

-- One committed operation.
pub data PurchaseStep (a b : Purchasing) : Type 0 where
  adds_material :
      (store : ℕ) (name unit category : Text) (id : ℕ)
      → create_material store name unit category a ≡ ok (id, b)
      → PurchaseStep a b
  creates :
      (store list_no business_date title created_by id : ℕ)
      → create_list store list_no business_date title created_by a ≡ ok (id, b)
      → PurchaseStep a b
  adds_item :
      (store list material : ℕ) (quantity : ℤ) (note : ℕ)
      → add_item store list material quantity note a ≡ ok b
      → PurchaseStep a b
  submits :
      (store id user expected : ℕ) → submit_list store id user expected a ≡ ok b → PurchaseStep a b
  prints :
      (store id user expected : ℕ) → mark_printed store id user expected a ≡ ok b → PurchaseStep a b
  completes :
      (store id user expected : ℕ) (total : ℤ)
      → complete_list store id user expected total a ≡ ok b
      → PurchaseStep a b
  voids :
      (store id user expected reason : ℕ)
      → void_list store id user expected reason a ≡ ok b
      → PurchaseStep a b

pub data PurchaseHistory (a : Purchasing) : Purchasing → Type 0 where
  start : PurchaseHistory a a
  then_ : {b c : Purchasing} → PurchaseHistory a b → PurchaseStep b c → PurchaseHistory a c

PurchaseStep-Replayed : {a b : Purchasing} → Replayed a → PurchaseStep a b → Replayed b
PurchaseStep-Replayed {a} r (adds_material store name unit category id h) =
    create_material-Replayed store name unit category id a r h
PurchaseStep-Replayed {a} r (creates store list_no business_date title created_by id h) =
    create_list-Replayed store list_no business_date title created_by id a r h
PurchaseStep-Replayed {a} r (adds_item store list material quantity note h) =
    add_item-Replayed store list material quantity note a r h
PurchaseStep-Replayed {a} r (submits store id user expected h) =
    submit_list-Replayed store id user expected a r h
PurchaseStep-Replayed {a} r (prints store id user expected h) =
    mark_printed-Replayed store id user expected a r h
PurchaseStep-Replayed {a} r (completes store id user expected total h) =
    complete_list-Replayed store id user expected total a r h
PurchaseStep-Replayed {a} r (voids store id user expected reason h) =
    void_list-Replayed store id user expected reason a r h

-- Along any history of operations on materials and purchase lists, the log of events tells the lists: a list has the
-- status of its latest event, or is a draft without one; its version is one more than the number of its events, and its
-- print count is the number of its printings. Each event is a documented move from the status that the list had then.
pub PurchaseHistory-Replayed : {a b : Purchasing} → Replayed a → PurchaseHistory a b → Replayed b
PurchaseHistory-Replayed r start = r
PurchaseHistory-Replayed r (then_ before step) =
    PurchaseStep-Replayed (PurchaseHistory-Replayed r before) step
