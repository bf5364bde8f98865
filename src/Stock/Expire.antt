-- ===== src/Stock/Expire.antt =====
-- internal/worker/worker.go: `releaseExpiredOrders` on the books of the stock.
use native.Mathlib.Nat.{zero-add}
use dishflow_glm.Prelude.{
  ℕ, ◌+◌, ◌-◌, ◌≤◌, ◌≡◌, refl, arith, Option, none, some, List, [], ◌∷◌, ok, err, >>=-eq-ok,
  Bool-cases, Option-cases, inl, inr, ◌⊎◌,
}
use dishflow_glm.Store.{Db, Daily, Reservation, Stock, set_daily, is_key}
use dishflow_glm.Orders.Reserve.{Traded}
use dishflow_glm.Orders.Release.{is_reserved_by}
use dishflow_glm.Worker.Expire.{
  unreserve_checked, expire_reserved, expire_with, expire_order, expire_all, select_expired,
  release_expired_orders, expire_capacity, cancel_expired,
}
use dishflow_glm.Stock.Books.{
  at, qty_if, held, sold, held_by, Agrees, Books, held_by-le, held-mark_expired, sold-mark_expired,
}

-- A row before and after `h` reserved units have been given back.
abbrev Returns : Option Daily → Option Daily → ℕ → Type 0
Returns none b h = b ≡ none
Returns (some d) b h =
    (h ≤ d.reserved_qty) × (b ≡ some (record d { reserved_qty = d.reserved_qty - h }))

Returns-zero : (a : Option Daily) → Returns a a 0
Returns-zero none = refl
Returns-zero (some d) = ground arith

Returns-trans :
    (a b c : Option Daily) (h g : ℕ) → Returns a b h → Returns b c g → Returns a c (h + g)
Returns-trans none b c h g p q = ground arith
Returns-trans (some d) none c h g p q = absurd (cc (p.1))
Returns-trans (some d) (some e) c h g p q = ground arith

unreserve_checked-Returns :
    (r : Reservation) (daily : Stock) {daily' : Stock} (s k t : ℕ)
    → unreserve_checked r daily ≡ ok daily'
    → Returns (daily s k t) (daily' s k t) (qty_if (at s k t r) r.quantity)
unfolding unreserve_checked
unreserve_checked-Returns r daily s k t h =
    elim (Option-cases (daily r.store_id r.sku_id r.business_date)) [
      | inl e ↦ ground arith
      | inr (d, e) ↦ ground arith
    ]

expire_reserved-Returns :
    (o : ℕ) (rs : List Reservation) (daily : Stock) {daily' : Stock} (s k t : ℕ)
    → expire_reserved o rs daily ≡ ok daily'
    → Returns (daily s k t) (daily' s k t) (held_by o s k t rs)
unfolding expire_reserved
expire_reserved-Returns o [] daily s k t h = ground (arith, Returns-zero (daily s k t))
expire_reserved-Returns o (r ∷ rs) daily {daily'} s k t h = elim (Bool-cases (is_reserved_by o r)) [
  | inl e ↦
      let (mid, first, rest) =
        >>=-eq-ok (unreserve_checked r daily) (λ d. expire_reserved o rs d) (rw e at h) in
      rw e (
        Returns-trans (daily s k t) (mid s k t) (daily' s k t) (qty_if (at s k t r) r.quantity)
          (held_by o s k t rs) (unreserve_checked-Returns r daily s k t first)
          (expire_reserved-Returns o rs mid s k t rest))
  | inr e ↦ rw (e, zero-add) (expire_reserved-Returns o rs daily s k t (rw e at h))
]

Agrees-Returns :
    (a b : Option Daily) (h f g : ℕ) → g ≤ h → Agrees a h f → Returns a b g → Agrees b (h - g) f
Agrees-Returns none b h f g l p q = ground arith
Agrees-Returns (some d) b h f g l p q = ground arith

expire_with-Books :
    (now order store : ℕ) (daily : Stock) (db : Db)
    → Books db
    → expire_reserved order db.reservations db.daily ≡ ok daily
    → Books (expire_with now order store daily db)
unfolding expire_with expire_capacity cancel_expired
expire_with-Books now order store daily db b h =
    let rs = db.reservations in
    record {
      agree = λ s k t.
          rw (held-mark_expired order s k t rs, sold-mark_expired order s k t rs)
            (Agrees-Returns (db.daily s k t) (daily s k t) (held s k t rs) (sold s k t rs)
              (held_by order s k t rs) (held_by-le order s k t rs) (b.agree s k t)
              (expire_reserved-Returns order rs db.daily s k t h));
    }

Traded-cases :
    (m : Traded Stock)
    → ((d : Stock) × (m ≡ ok d)) ⊎ ((e : dishflow_glm.Store.TradeError) × (m ≡ err e))
Traded-cases (ok d) = inl (d, refl)
Traded-cases (err e) = inr (e, refl)

expire_order-Books :
    (now order store : ℕ) (db : Db) → Books db → Books (expire_order now order store db)
unfolding expire_order
expire_order-Books now order store db b =
    elim (Traded-cases (expire_reserved order db.reservations db.daily)) [
      | inl (daily, e) ↦ rw (e, expire_order) (expire_with-Books now order store daily db b e)
      | inr (why, e) ↦ rw (e, expire_order) b
    ]

expire_all-Books :
    (now : ℕ) (ids : List (ℕ × ℕ)) (db : Db) → Books db → Books (expire_all now ids db)
unfolding expire_all
expire_all-Books now [] db b = b
expire_all-Books now ((order, store) ∷ ids) db b =
    expire_all-Books now ids (expire_order now order store db)
      (expire_order-Books now order store db b)

-- A round of the expiry task leaves the books in order.
pub release_expired_orders-Books :
    (now : ℕ) (db : Db) → Books db → Books (release_expired_orders now db)
unfolding release_expired_orders
release_expired_orders-Books now db b = expire_all-Books now (select_expired now 100 db.orders) db b
