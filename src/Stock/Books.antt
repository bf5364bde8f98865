-- ===== src/Stock/Books.antt =====
-- The quantities that reservations hold, and the invariant of the two stock tables.
use dishflow_glm.Prelude.{
  ℕ, ◌+◌, ◌-◌, ◌≤◌, ◌≡◌, refl, arith, if◌then◌else◌, Bool, true, false, ◌&&◌, Option, none, some,
  List, [], ◌∷◌, update_where,
}
use dishflow_glm.Store.{Db, Daily, Reservation, released, is_key}
use dishflow_glm.Orders.Release.{
  is_reserved, is_fulfilled, is_reserved_by, is_fulfilled_by, set_hold, mark_released,
}
use dishflow_glm.Worker.Payment.{mark_fulfilled}

-- The reservation is for the SKU `k` of the store `s` on the day `t`.
abbrev pub at : ℕ → ℕ → ℕ → Reservation → Bool
at s k t r = is_key r.store_id r.sku_id r.business_date s k t

abbrev pub qty_if : Bool → ℕ → ℕ
qty_if true q = q
qty_if false q = 0

-- The reserved and the sold quantity of a key.
abbrev pub held : ℕ → ℕ → ℕ → List Reservation → ℕ
held s k t [] = 0
held s k t (r ∷ rs) = qty_if (at s k t r && is_reserved r.state) r.quantity + held s k t rs

abbrev pub sold : ℕ → ℕ → ℕ → List Reservation → ℕ
sold s k t [] = 0
sold s k t (r ∷ rs) = qty_if (at s k t r && is_fulfilled r.state) r.quantity + sold s k t rs

-- The part of them that belongs to one order.
abbrev pub held_by : ℕ → ℕ → ℕ → ℕ → List Reservation → ℕ
held_by o s k t [] = 0
held_by o s k t (r ∷ rs) =
    (if is_reserved_by o r then qty_if (at s k t r) r.quantity else 0) + held_by o s k t rs

abbrev pub sold_by : ℕ → ℕ → ℕ → ℕ → List Reservation → ℕ
sold_by o s k t [] = 0
sold_by o s k t (r ∷ rs) =
    (if is_fulfilled_by o r then qty_if (at s k t r) r.quantity else 0) + sold_by o s k t rs

-- A row agrees with the reservations and does not exceed its target; without a row there are none.
abbrev pub Agrees : Option Daily → ℕ → ℕ → Type 0
Agrees none h f = (h ≡ 0) × (f ≡ 0)
Agrees (some d) h f = (d.reserved_qty ≡ h) × (d.sold_qty ≡ f) × (h + f ≤ d.target_qty)

pub record Books (db : Db) : Type 0 where
  pub agree :
      (s k t : ℕ)
      → Agrees (db.daily s k t) (held s k t db.reservations) (sold s k t db.reservations)

module _ (o s k t : ℕ) where
  pub held_by-le : (rs : List Reservation) → held_by o s k t rs ≤ held s k t rs
  held_by-le [] = omega arith
  held_by-le (r ∷ rs) = ground (arith, held_by-le rs)

  pub sold_by-le : (rs : List Reservation) → sold_by o s k t rs ≤ sold s k t rs
  sold_by-le [] = omega arith
  sold_by-le (r ∷ rs) = ground (arith, sold_by-le rs)

  -- Payment turns what the order holds into what it has bought.
  pub held-mark_fulfilled :
      (rs : List Reservation)
      → held s k t (mark_fulfilled o rs) ≡ held s k t rs - held_by o s k t rs
  unfolding mark_fulfilled
  held-mark_fulfilled [] = refl
  held-mark_fulfilled (r ∷ rs) = ground (arith, held-mark_fulfilled rs, held_by-le rs)

  pub sold-mark_fulfilled :
      (rs : List Reservation)
      → sold s k t (mark_fulfilled o rs) ≡ sold s k t rs + held_by o s k t rs
  unfolding mark_fulfilled
  sold-mark_fulfilled [] = refl
  sold-mark_fulfilled (r ∷ rs) = ground (arith, sold-mark_fulfilled rs)

  -- A release gives back both.
  pub held-mark_released :
      (rs : List Reservation) → held s k t (mark_released o rs) ≡ held s k t rs - held_by o s k t rs
  unfolding mark_released
  held-mark_released [] = refl
  held-mark_released (r ∷ rs) = ground (arith, held-mark_released rs, held_by-le rs)

  pub sold-mark_released :
      (rs : List Reservation) → sold s k t (mark_released o rs) ≡ sold s k t rs - sold_by o s k t rs
  unfolding mark_released
  sold-mark_released [] = refl
  sold-mark_released (r ∷ rs) = ground (arith, sold-mark_released rs, sold_by-le rs)

  pub held-mark_expired :
      (rs : List Reservation)
      → held s k t (update_where (is_reserved_by o) (set_hold released) rs)
        ≡ held s k t rs - held_by o s k t rs
  held-mark_expired [] = refl
  held-mark_expired (r ∷ rs) = ground (arith, held-mark_expired rs, held_by-le rs)

  pub sold-mark_expired :
      (rs : List Reservation)
      → sold s k t (update_where (is_reserved_by o) (set_hold released) rs) ≡ sold s k t rs
  sold-mark_expired [] = refl
  sold-mark_expired (r ∷ rs) = ground (arith, sold-mark_expired rs)
