-- ===== src/Stock/Sell.antt =====
-- internal/worker/worker.go: payment moves the reserved stock of an order to the sold stock.
use native.Mathlib.Nat.{zero-add}
use dishflow_glm.Prelude.{
  ℕ, ◌+◌, ◌-◌, ◌≤◌, ◌≡◌, refl, arith, true, Option, none, some, List, [], ◌∷◌, ok, >>=-eq-ok,
  Bool-cases, Option-cases, inl, inr,
}
use dishflow_glm.Store.{Db, Daily, Reservation, Stock, set_daily}
use dishflow_glm.Orders.Release.{is_reserved_by}
use dishflow_glm.Worker.Payment.{
  sell, sell_reserved, mark_fulfilled, on_payment_success, pay_with, log_paid, redeem_coupon,
}
use dishflow_glm.Stock.Books.{
  at, qty_if, held, sold, held_by, Agrees, Books, held_by-le, held-mark_fulfilled,
  sold-mark_fulfilled,
}

-- A row before and after `h` units have been sold.
abbrev Sells : Option Daily → Option Daily → ℕ → Type 0
Sells none b h = b ≡ none
Sells (some d) b h =
    (h ≤ d.reserved_qty)
    × (b ≡ some (record d { reserved_qty = d.reserved_qty - h; sold_qty = d.sold_qty + h }))

Sells-zero : (a : Option Daily) → Sells a a 0
Sells-zero none = refl
Sells-zero (some d) = ground arith

Sells-trans : (a b c : Option Daily) (h g : ℕ) → Sells a b h → Sells b c g → Sells a c (h + g)
Sells-trans none b c h g p q = ground arith
Sells-trans (some d) none c h g p q = absurd (cc (p.1))
Sells-trans (some d) (some e) c h g p q = ground arith

sell-Sells :
    (r : Reservation) (daily : Stock) {daily' : Stock} (s k t : ℕ)
    → sell r daily ≡ ok daily'
    → Sells (daily s k t) (daily' s k t) (qty_if (at s k t r) r.quantity)
unfolding sell
sell-Sells r daily s k t h = elim (Option-cases (daily r.store_id r.sku_id r.business_date)) [
  | inl e ↦ ground arith
  | inr (d, e) ↦ ground arith
]

sell_reserved-Sells :
    (o : ℕ) (rs : List Reservation) (daily : Stock) {daily' : Stock} (s k t : ℕ)
    → sell_reserved o rs daily ≡ ok daily'
    → Sells (daily s k t) (daily' s k t) (held_by o s k t rs)
unfolding sell_reserved
sell_reserved-Sells o [] daily s k t h = ground (arith, Sells-zero (daily s k t))
sell_reserved-Sells o (r ∷ rs) daily {daily'} s k t h = elim (Bool-cases (is_reserved_by o r)) [
  | inl e ↦
      let (mid, first, rest) = >>=-eq-ok (sell r daily) (λ d. sell_reserved o rs d) (rw e at h) in
      rw e (
        Sells-trans (daily s k t) (mid s k t) (daily' s k t) (qty_if (at s k t r) r.quantity)
          (held_by o s k t rs) (sell-Sells r daily s k t first)
          (sell_reserved-Sells o rs mid s k t rest))
  | inr e ↦ rw (e, zero-add) (sell_reserved-Sells o rs daily s k t (rw e at h))
]

-- What the rows must hold for the sale to go through.
abbrev Covers : Option Daily → ℕ → Type 0
Covers none h = Unit
Covers (some d) h = h ≤ d.reserved_qty

sell_total :
    (r : Reservation) (daily : Stock)
    → Covers (daily r.store_id r.sku_id r.business_date) r.quantity
    → (daily' : Stock) × (sell r daily ≡ ok daily')
unfolding sell
sell_total r daily c = elim (Option-cases (daily r.store_id r.sku_id r.business_date)) [
  | inl e ↦ (daily, rw e)
  | inr (d, e) ↦ (
    set_daily r.store_id r.sku_id r.business_date
        (record d {
          reserved_qty = d.reserved_qty - r.quantity;
          sold_qty = d.sold_qty + r.quantity;
        })
        daily,
    ground arith,
  )
]

at_self : (r : Reservation) → at r.store_id r.sku_id r.business_date r ≡ true
at_self r = ground arith

Covers-Sells : (a b : Option Daily) (h g : ℕ) → Covers a (h + g) → Sells a b h → Covers b g
Covers-Sells none b h g c p = ground arith
Covers-Sells (some d) b h g c p = ground arith

Covers-le : (a : Option Daily) (h g : ℕ) → h ≤ g → Covers a g → Covers a h
Covers-le none h g l c = tt
Covers-le (some d) h g l c = omega arith

sell_reserved_total :
    (o : ℕ) (rs : List Reservation) (daily : Stock)
    → ((s k t : ℕ) → Covers (daily s k t) (held_by o s k t rs))
    → (daily' : Stock) × (sell_reserved o rs daily ≡ ok daily')
unfolding sell_reserved
sell_reserved_total o [] daily c = (daily, refl)
sell_reserved_total o (r ∷ rs) daily c = elim (Bool-cases (is_reserved_by o r)) [
  | inl e ↦
      let enough =
        Covers-le (daily r.store_id r.sku_id r.business_date) r.quantity
          (held_by o r.store_id r.sku_id r.business_date (r ∷ rs)) (ground (arith, at_self r))
          (c r.store_id r.sku_id r.business_date) in
      let (mid, sold_one) = sell_total r daily enough in
      let (last, rest) = sell_reserved_total o rs mid (λ s k t.
        Covers-Sells (daily s k t) (mid s k t) (qty_if (at s k t r) r.quantity) (held_by o s k t rs)
          (rw e at (c s k t)) (sell-Sells r daily s k t sold_one)) in
      (last, rw (e, sold_one) rest)
  | inr e ↦
      let (last, rest) = sell_reserved_total o rs daily (λ s k t. rw (e, zero-add) at (c s k t)) in
      (last, rw e rest)
]

Agrees-Sells :
    (a b : Option Daily) (h f g : ℕ) → g ≤ h → Agrees a h f → Sells a b g → Agrees b (h - g) (f + g)
Agrees-Sells none b h f g l p q = ground arith
Agrees-Sells (some d) b h f g l p q = ground arith

-- What a successful payment has done to the two stock tables.
pub on_payment_success_stock :
    (now store order : ℕ) (db : Db) {db' : Db}
    → on_payment_success now store order db ≡ ok db'
    → (sell_reserved order db.reservations db.daily ≡ ok db'.daily)
      × (db'.reservations ≡ mark_fulfilled order db.reservations)
unfolding on_payment_success redeem_coupon log_paid
on_payment_success_stock now store order db h = ground arith

-- A payment leaves the books in order: what the order held is sold, row by row.
pub on_payment_success-Books :
    (now store order : ℕ) (db : Db) {db' : Db}
    → Books db
    → on_payment_success now store order db ≡ ok db'
    → Books db'
on_payment_success-Books now store order db {db'} b h =
    let (daily, marks) = on_payment_success_stock now store order db h in
    record {
      agree = λ s k t.
          rw
            (
              marks,
              held-mark_fulfilled order s k t db.reservations,
              sold-mark_fulfilled order s k t db.reservations,
            )
            (Agrees-Sells (db.daily s k t) (db'.daily s k t) (held s k t db.reservations)
              (sold s k t db.reservations) (held_by order s k t db.reservations)
              (held_by-le order s k t db.reservations) (b.agree s k t)
              (sell_reserved-Sells order db.reservations db.daily s k t daily));
    }

Agrees-Covers : (a : Option Daily) (h f g : ℕ) → g ≤ h → Agrees a h f → Covers a g
Agrees-Covers none h f g l p = tt
Agrees-Covers (some d) h f g l p = omega arith

-- With the books in order the transaction of a payment always commits.
pub on_payment_success_total :
    (now store order : ℕ) (db : Db)
    → Books db
    → (db' : Db) × (on_payment_success now store order db ≡ ok db')
unfolding on_payment_success
on_payment_success_total now store order db b =
    let (daily, e) = sell_reserved_total order db.reservations db.daily (λ s k t.
      Agrees-Covers (db.daily s k t) (held s k t db.reservations) (sold s k t db.reservations)
        (held_by order s k t db.reservations) (held_by-le order s k t db.reservations)
        (b.agree s k t)) in
    (pay_with now store order daily db, rw e)
