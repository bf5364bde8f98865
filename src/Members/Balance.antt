-- ===== src/Members/Balance.antt =====
-- internal/members/store.go: every operation keeps the balances in agreement with the ledger.
use dishflow_glm.Prelude.{
  ℕ, ℤ, pos, ◌^◌, ◌≤◌, ◌<◌, ◌+ℤ◌, pos_part, neg_part, wrap_range, ltb_ℤ, leb_ℤ, add64, mul64, ◌==◌,
  ◌≡◌, refl, subst, arith, ◌||◌, Option, none, some, ok, >>=-eq-ok, fail_if, find?, Bool-cases, inl,
  inr,
}
use dishflow_glm.Store.{Db, Membership}
use dishflow_glm.Inventory.{is_zero}
use dishflow_glm.Members.Points.{
  Pointed, post, insufficient_points, adjust_member, adjust_points, points_for, award_member,
  award_points, is_customer_of_store, is_member_of_store, delta_zero, reason_required,
  idempotency_key_required,
}
use dishflow_glm.Members.Points.{adjust_entry, earn_entry, award_active}
use dishflow_glm.Members.Ledger.{
  IsBalanced, Points, post-Points, found-IsBalanced, wrap_high, add_entry,
}

-- The range of Go's `int64`.
abbrev pub IsInt64 : ℤ → Type 0
IsInt64 a = (pos_part a < 2 ^ 63) × (neg_part a ≤ 2 ^ 63)

adjust_member-Points :
    (row : Option Membership) (customer : ℕ) (delta : ℤ) (key : ℕ) (db : Db) {balance : ℤ}
    {db' : Db}
    → ((m : Membership) → row ≡ some m → IsBalanced db.ledger m)
    → IsInt64 delta
    → Points db
    → adjust_member row customer delta key db ≡ ok (balance, db')
    → Points db'
unfolding adjust_member add64
adjust_member-Points none customer delta key db found r p h = absurd (cc)
adjust_member-Points (some m) customer delta key db {balance} {db'} found r p h =
    let entry = adjust_entry m customer delta key in
    let (_, _, h₁) =
      >>=-eq-ok (fail_if (ltb_ℤ (add64 m.points_balance delta) (pos 0)) insufficient_points) _ h in
    let (db₁, posted, h₂) = >>=-eq-ok (post entry db) _ h₁ in
    let state : db₁ ≡ db' = cc in
    subst Points state (
      post-Points entry db p (wrap_high (m.points_balance +ℤ delta)) r.0
        (λ low. add_entry db m delta (found m refl) r low) posted)

pub adjust_points-Points :
    (membership store customer : ℕ) (delta : ℤ) (reason key : ℕ) (db : Db) {balance : ℤ} {db' : Db}
    → IsInt64 delta
    → Points db
    → adjust_points membership store customer delta reason key db ≡ ok (balance, db')
    → Points db'
unfolding adjust_points
adjust_points-Points membership store customer delta reason key db r p h =
    let (_, _, h₁) = >>=-eq-ok (fail_if (is_zero delta) delta_zero) _ h in
    let (_, _, h₂) = >>=-eq-ok (fail_if (reason == 0) reason_required) _ h₁ in
    let (_, _, h₃) = >>=-eq-ok (fail_if (key == 0) idempotency_key_required) _ h₂ in
    adjust_member-Points (find? (is_member_of_store membership store) db.memberships) customer delta
      key db
      (λ m e.
        found-IsBalanced (is_member_of_store membership store) db.memberships db.ledger p.balanced
          e)
      r p h₃

award_active-Points :
    (m : Membership) (customer order : ℕ) (points : ℤ) (key : ℕ) (db : Db) {balance : ℤ} {db' : Db}
    → IsBalanced db.ledger m
    → IsInt64 points
    → Points db
    → award_active m customer order points key db ≡ ok (balance, db')
    → Points db'
unfolding award_active add64
award_active-Points m customer order points key db {balance} {db'} b r p h =
    let entry = earn_entry m customer order points key in
    let (db₁, posted, h₁) = >>=-eq-ok (post entry db) _ h in
    let state : db₁ ≡ db' = cc in
    subst Points state (
      post-Points entry db p (wrap_high (m.points_balance +ℤ points)) r.0
        (λ low. add_entry db m points b r low) posted)

award_member-Points :
    (row : Option Membership) (customer order : ℕ) (points : ℤ) (key : ℕ) (db : Db) {balance : ℤ}
    {db' : Db}
    → ((m : Membership) → row ≡ some m → IsBalanced db.ledger m)
    → IsInt64 points
    → Points db
    → award_member row customer order points key db ≡ ok (balance, db')
    → Points db'
unfolding award_member
award_member-Points none customer order points key db {db' = db'} found r p h =
    let state : db ≡ db' = cc in subst Points state p
award_member-Points (some m) customer order points key db {balance} {db'} found r p h =
    elim (Bool-cases m.is_active) [
      | inl e ↦
          let awarded : award_active m customer order points key db ≡ ok (balance, db') =
            ground arith in
          award_active-Points m customer order points key db (found m refl) r p awarded
      | inr e ↦ let state : db ≡ db' = ground arith in subst Points state p
    ]

pub award_points-Points :
    (store customer order : ℕ) (paid_cents points_per_yuan : ℤ) (key : ℕ) (db : Db) {balance : ℤ}
    {db' : Db}
    → Points db
    → award_points store customer order paid_cents points_per_yuan key db ≡ ok (balance, db')
    → Points db'
unfolding award_points points_for mul64
award_points-Points store customer order paid_cents points_per_yuan key db {balance} {db'} p h =
    let points = points_for paid_cents points_per_yuan in
    let row = find? (is_customer_of_store customer store) db.memberships in
    elim (Bool-cases
      (leb_ℤ paid_cents (pos 0) || leb_ℤ points_per_yuan (pos 0) || leb_ℤ points (pos 0))) [
        | inl e ↦
            let nothing : ◌≡◌ {A = Pointed (ℤ × Db)} (ok (pos 0, db)) (ok (balance, db')) =
              rw e at h in
            let state : db ≡ db' = cc in subst Points state p
        | inr e ↦
            let awarded : award_member row customer order points key db ≡ ok (balance, db') =
              rw e at h in
            award_member-Points row customer order points key db
              (λ m f.
                found-IsBalanced (is_customer_of_store customer store) db.memberships db.ledger
                  p.balanced f)
              (wrap_range _) p awarded
      ]
