-- ===== src/Stock/Release.antt =====
-- internal/orders/cancel.go, internal/worker/worker.go: a cancelled, refunded or expired order gives back
-- what it held and what it had bought.
use native.Mathlib.Nat.{zero-add}
use dishflow_glm.Prelude.{
  ℕ, ◌+◌, ◌-◌, ◌≤◌, ◌≡◌, refl, ◌∙◌, arith, Option, none, some, List, [], ◌∷◌, Bool-cases,
  Option-cases, inl, inr,
}
use dishflow_glm.Store.{Db, Daily, Reservation, Stock}
use dishflow_glm.Orders.Release.{
  is_reserved_by, is_fulfilled_by, update_daily, unreserve, unsell, release_reserved, release_sold,
  mark_released, release_inventory,
}
use dishflow_glm.Stock.Books.{
  at, qty_if, held, sold, held_by, sold_by, Agrees, Books, held_by-le, sold_by-le,
  held-mark_released, sold-mark_released,
}

abbrev map_row : (Daily → Daily) → Option Daily → Option Daily
map_row f none = none
map_row f (some d) = some (f d)

unreserve_zero : (a : Option Daily) → a ≡ map_row (unreserve 0) a
unreserve_zero none = refl
unreserve_zero (some d) = ground arith

unsell_zero : (a : Option Daily) → a ≡ map_row (unsell 0) a
unsell_zero none = refl
unsell_zero (some d) = ground arith

unreserve_twice :
    (a : Option Daily) (h g : ℕ)
    → map_row (unreserve g) (map_row (unreserve h) a) ≡ map_row (unreserve (h + g)) a
unreserve_twice none h g = refl
unreserve_twice (some d) h g = ground arith

unsell_twice :
    (a : Option Daily) (h g : ℕ)
    → map_row (unsell g) (map_row (unsell h) a) ≡ map_row (unsell (h + g)) a
unsell_twice none h g = refl
unsell_twice (some d) h g = ground arith

update_daily-unreserve :
    (r : Reservation) (daily : Stock) (s k t : ℕ)
    → update_daily r (unreserve r.quantity) daily s k t
      ≡ map_row (unreserve (qty_if (at s k t r) r.quantity)) (daily s k t)
unfolding update_daily
update_daily-unreserve r daily s k t =
    elim (Option-cases (daily r.store_id r.sku_id r.business_date)) [
      | inl e ↦ elim (Option-cases (daily s k t)) [
        | inl f ↦ ground arith
        | inr (d, f) ↦ ground arith
      ]
      | inr (d, e) ↦ elim (Option-cases (daily s k t)) [
        | inl f ↦ ground arith
        | inr (d', f) ↦ ground arith
      ]
    ]

update_daily-unsell :
    (r : Reservation) (daily : Stock) (s k t : ℕ)
    → update_daily r (unsell r.quantity) daily s k t
      ≡ map_row (unsell (qty_if (at s k t r) r.quantity)) (daily s k t)
unfolding update_daily
update_daily-unsell r daily s k t =
    elim (Option-cases (daily r.store_id r.sku_id r.business_date)) [
      | inl e ↦ elim (Option-cases (daily s k t)) [
        | inl f ↦ ground arith
        | inr (d, f) ↦ ground arith
      ]
      | inr (d, e) ↦ elim (Option-cases (daily s k t)) [
        | inl f ↦ ground arith
        | inr (d', f) ↦ ground arith
      ]
    ]

-- The joined UPDATE takes from each row what the order's reservations held there.
release_reserved_row :
    (o : ℕ) (rs : List Reservation) (daily : Stock) (s k t : ℕ)
    → release_reserved o rs daily s k t ≡ map_row (unreserve (held_by o s k t rs)) (daily s k t)
unfolding release_reserved
release_reserved_row o [] daily s k t = unreserve_zero (daily s k t)
release_reserved_row o (r ∷ rs) daily s k t = elim (Bool-cases (is_reserved_by o r)) [
  | inl e ↦
      let rest = held_by o s k t rs in
      let one = qty_if (at s k t r) r.quantity in
      rw e (
        release_reserved_row o rs (update_daily r (unreserve r.quantity) daily) s k t
        ∙ rw (update_daily-unreserve r daily s k t) (unreserve_twice (daily s k t) one rest))
  | inr e ↦ rw (e, zero-add) (release_reserved_row o rs daily s k t)
]

release_sold_row :
    (o : ℕ) (rs : List Reservation) (daily : Stock) (s k t : ℕ)
    → release_sold o rs daily s k t ≡ map_row (unsell (sold_by o s k t rs)) (daily s k t)
unfolding release_sold
release_sold_row o [] daily s k t = unsell_zero (daily s k t)
release_sold_row o (r ∷ rs) daily s k t = elim (Bool-cases (is_fulfilled_by o r)) [
  | inl e ↦
      let rest = sold_by o s k t rs in
      let one = qty_if (at s k t r) r.quantity in
      rw e (
        release_sold_row o rs (update_daily r (unsell r.quantity) daily) s k t
        ∙ rw (update_daily-unsell r daily s k t) (unsell_twice (daily s k t) one rest))
  | inr e ↦ rw (e, zero-add) (release_sold_row o rs daily s k t)
]

Agrees-released :
    (a : Option Daily) (h f g u : ℕ)
    → g ≤ h
    → u ≤ f
    → Agrees a h f
    → Agrees (map_row (unsell u) (map_row (unreserve g) a)) (h - g) (f - u)
Agrees-released none h f g u l m p = ground arith
Agrees-released (some d) h f g u l m p = ground arith

-- `releaseInventory` leaves the books in order.
pub release_inventory-Books : (order : ℕ) (db : Db) → Books db → Books (release_inventory order db)
unfolding release_inventory
release_inventory-Books order db b =
    let rs = db.reservations in
    let first = release_reserved order rs db.daily in
    record {
      agree = λ s k t.
          rw
            (
              held-mark_released order s k t rs,
              sold-mark_released order s k t rs,
              release_sold_row order rs first s k t,
              release_reserved_row order rs db.daily s k t,
            )
            (Agrees-released (db.daily s k t) (held s k t rs) (sold s k t rs)
              (held_by order s k t rs) (sold_by order s k t rs) (held_by-le order s k t rs)
              (sold_by-le order s k t rs) (b.agree s k t));
    }

module _ (o s k t : ℕ) where
  held_by-mark_released : (rs : List Reservation) → held_by o s k t (mark_released o rs) ≡ 0
  unfolding mark_released
  held_by-mark_released [] = refl
  held_by-mark_released (r ∷ rs) = ground (arith, held_by-mark_released rs)

  sold_by-mark_released : (rs : List Reservation) → sold_by o s k t (mark_released o rs) ≡ 0
  unfolding mark_released
  sold_by-mark_released [] = refl
  sold_by-mark_released (r ∷ rs) = ground (arith, sold_by-mark_released rs)

mark_released_twice :
    (o : ℕ) (rs : List Reservation) → mark_released o (mark_released o rs) ≡ mark_released o rs
unfolding mark_released
mark_released_twice o [] = refl
mark_released_twice o (r ∷ rs) = ground (arith, mark_released_twice o rs)

-- Releasing an order a second time changes neither a row of the stock nor a reservation.
pub release_inventory_twice :
    (o : ℕ) (db : Db) (s k t : ℕ)
    → let once = release_inventory o db in
      let twice = release_inventory o once in
      (twice.daily s k t ≡ once.daily s k t) × (twice.reservations ≡ once.reservations)
unfolding release_inventory
release_inventory_twice o db s k t =
    let once = release_inventory o db in
    let rs = once.reservations in
    (
      release_sold_row o rs (release_reserved o rs once.daily) s k t
          ∙ rw (
            sold_by-mark_released o s k t db.reservations,
            release_reserved_row o rs once.daily s k t,
            held_by-mark_released o s k t db.reservations,
            ← unreserve_zero (once.daily s k t),
            ← unsell_zero (once.daily s k t),
          ),
      mark_released_twice o db.reservations,
    )
