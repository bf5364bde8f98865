-- ===== src/Stock/Adjust.antt =====
-- internal/inventory/store.go: a manual adjustment and the first row of a day keep the books in order.
use dishflow_glm.Prelude.{
  ℕ, ℤ, pos, negsuc, ◌+ℤ◌, ◌+◌, ◌≤◌, ltb, ◌≡◌, arith, some, ok, fail_if, >>=-eq-ok, Bool-cases,
  Option-cases, inl, inr, ◌==◌,
}
use dishflow_glm.Store.{Db, Daily, delta_zero, reason_required, idempotency_key_required}
use dishflow_glm.Inventory.{
  AdjustInput, ensure_daily, adjust, adjust_found, adjust_to, set_target, is_zero,
}
use dishflow_glm.Stock.Books.{Books}

-- A new row of the day starts with nothing reserved and nothing sold.
pub ensure_daily-Books :
    (store sku date qty : ℕ) (db : Db) → Books db → Books (ensure_daily store sku date qty db)
unfolding ensure_daily
ensure_daily-Books store sku date qty db b = elim (Option-cases (db.daily store sku date)) [
  | inl e ↦ rw (e, ensure_daily) (record { agree = λ s k t. ground (arith, b.agree s k t) })
  | inr (d, e) ↦ rw (e, ensure_daily) b
]

set_target-Books :
    (in_ : AdjustInput) (target : ℕ) (d : Daily) (db : Db) {db' : Db}
    → Books db
    → db.daily in_.store_id in_.sku_id in_.business_date ≡ some d
    → d.reserved_qty + d.sold_qty ≤ target
    → set_target in_ target d db ≡ ok db'
    → Books db'
unfolding set_target
set_target-Books in_ target d db b e fits h = record {
  agree = λ s k t. ground (arith, b.agree s k t);
}

-- An adjustment that is not refused keeps reserved and sold within the new target.
pub adjust-Books :
    (in_ : AdjustInput) (db : Db) {db' : Db} → Books db → adjust in_ db ≡ ok db' → Books db'
unfolding adjust adjust_found adjust_to
adjust-Books in_ db {db'} b h =
    let (nonzero, _, h₁) = >>=-eq-ok (fail_if (is_zero in_.delta) delta_zero) _ h in
    let (why, _, h₂) = >>=-eq-ok (fail_if (in_.reason == 0) reason_required) _ h₁ in
    let (key, _, h₃) =
      >>=-eq-ok (fail_if (in_.idempotency_key == 0) idempotency_key_required) _ h₂ in
    elim (Option-cases (db.daily in_.store_id in_.sku_id in_.business_date)) [
      | inl e ↦ absurd (cc (rw e at h₃))
      | inr (d, e) ↦ adjusted d e (pos d.target_qty +ℤ in_.delta) (rw e at h₃)
    ]
  where
    adjusted :
        (d : Daily)
        → db.daily in_.store_id in_.sku_id in_.business_date ≡ some d
        → (z : ℤ) → adjust_to in_ z d db ≡ ok db'
        → Books db'
    adjusted d e (negsuc n) g = cc
    adjusted d e (pos target) g = elim (Bool-cases (ltb target (d.reserved_qty + d.sold_qty))) [
      | inl low ↦ absurd (cc (rw low at g))
      | inr good ↦ set_target-Books in_ target d db b e (ground arith) (rw good at g)
    ]
