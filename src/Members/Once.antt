-- ===== src/Members/Once.antt =====
-- internal/members/store.go: `AwardPoints` under a repeated idempotency key.
use dishflow_glm.Prelude.{
  ◌⊎◌, find?-update_where, ◌≢◌, ℕ, ℤ, pos, ltb_ℤ, leb_ℤ, ◌≡◌, refl, ◌∙◌, ap, arith, if◌then◌else◌,
  Bool, true, false, ◌||◌, none, some, ◌∷◌, ok, err, >>=-eq-ok, fail_if, find?, update_where,
  Bool-cases, Option-cases, inl, inr,
}
use dishflow_glm.Store.{Db, Membership, LedgerEntry}
use dishflow_glm.Inventory.{is_zero}
use dishflow_glm.Members.Points.{
  PointsError, Pointed, is_membership, set_balance, has_entry, post, check_violation, duplicate_key,
  points_for, award_member, award_points, is_customer_of_store,
}
use dishflow_glm.Members.Points.{earn_entry, award_active}

-- Posting keeps the member findable, and its key refuses a second entry.
has_entry_posted :
    (e f : LedgerEntry) (db : Db) {db' db'' : Db}
    → f.membership_id ≡ e.membership_id
    → f.idempotency_key ≡ e.idempotency_key
    → post e db ≡ ok db'
    → post f db' ≢ ok db''
unfolding post has_entry
has_entry_posted e f db {db'} {db''} m k h g =
    let (_, _, h₁) = >>=-eq-ok (fail_if (ltb_ℤ e.balance_after (pos 0)) check_violation) _ h in
    let (_, _, h₂) =
      >>=-eq-ok (fail_if (has_entry e.membership_id e.idempotency_key db.ledger) duplicate_key) _
        h₁ in
    let (_, _, h₃) = >>=-eq-ok (fail_if (is_zero e.delta) check_violation) _ h₂ in
    let rows : db'.ledger ≡ e ∷ db.ledger = ground arith in
    let (_, _, g₁) = >>=-eq-ok (fail_if (ltb_ℤ f.balance_after (pos 0)) check_violation) _ g in
    let (_, new, g₂) =
      >>=-eq-ok (fail_if (has_entry f.membership_id f.idempotency_key db'.ledger) duplicate_key) _
        g₁ in
    let fresh : has_entry f.membership_id f.idempotency_key db'.ledger ≡ false = ground arith in
    let none_yet : has_entry f.membership_id f.idempotency_key (e ∷ db.ledger) ≡ false =
      rw rows at fresh in
    ground arith

post-memberships :
    (e : LedgerEntry) (db : Db) {db' : Db}
    → post e db ≡ ok db'
    → db'.memberships
      ≡ update_where (is_membership e.membership_id) (set_balance e.balance_after) db.memberships
unfolding post
post-memberships e db h = ground arith

award_active_once :
    (m : Membership) (customer order : ℕ) (points : ℤ) (key : ℕ) (p : Membership → Bool) (db : Db)
    {b b' : ℤ} {db' db'' : Db}
    → ((n : ℤ) (x : Membership) → p (set_balance n x) ≡ p x)
    → find? p db.memberships ≡ some m
    → m.is_active ≡ true
    → award_active m customer order points key db ≡ ok (b, db')
    → award_member (find? p db'.memberships) customer order points key db' ≢ ok (b', db'')
unfolding award_active award_member
award_active_once m customer order points key p db {b} {b'} {db'} {db''} keep found on h g =
    let entry = earn_entry m customer order points key in
    let (db₁, posted, h₁) = >>=-eq-ok (post entry db) _ h in
    let state : db₁ ≡ db' = cc in
    let first : post entry db ≡ ok db' = rw (← state) posted in
    let later : Membership =
      if is_membership m.id m then set_balance entry.balance_after m else m in
    let again : find? p db'.memberships ≡ some later = rw (post-memberships entry db first) (
      find?-update_where p (is_membership m.id) (set_balance entry.balance_after) db.memberships
        (keep entry.balance_after) found) in
    let active : later.is_active ≡ true = ground arith in
    let second : award_active later customer order points key db' ≡ ok (b', db'') =
      rw active at (rw again at g) in
    let (db₂, reposted, g₁) =
      >>=-eq-ok (post (earn_entry later customer order points key) db') _ second in
    has_entry_posted entry (earn_entry later customer order points key) db (ground arith) refl first
      reposted

award_member_once :
    (customer order : ℕ) (points : ℤ) (key : ℕ) (p : Membership → Bool) (db : Db) {b b' : ℤ}
    {db' db'' : Db}
    → ((n : ℤ) (x : Membership) → p (set_balance n x) ≡ p x)
    → award_member (find? p db.memberships) customer order points key db ≡ ok (b, db')
    → award_member (find? p db'.memberships) customer order points key db' ≡ ok (b', db'')
    → db'' ≡ db'
unfolding award_member
award_member_once customer order points key p db {b} {b'} {db'} {db''} keep h g =
    elim (Option-cases (find? p db.memberships)) [
      | inl e ↦
          let nothing : ◌≡◌ {A = Pointed (ℤ × Db)} (ok (pos 0, db)) (ok (b, db')) = rw e at h in
          let state : db ≡ db' = cc in
          let same : find? p db'.memberships ≡ none = rw (← state) e in
          let again : ◌≡◌ {A = Pointed (ℤ × Db)} (ok (pos 0, db')) (ok (b', db'')) = rw same at g in
          cc
      | inr (m, e) ↦ elim (Bool-cases m.is_active) [
        | inl on ↦
            let awarded : award_active m customer order points key db ≡ ok (b, db') =
              rw on at (rw e at h) in
            absurd (award_active_once m customer order points key p db keep e on awarded g)
        | inr off ↦
            let nothing : ◌≡◌ {A = Pointed (ℤ × Db)} (ok (pos 0, db)) (ok (b, db')) =
              rw off at (rw e at h) in
            let state : db ≡ db' = cc in
            let same : find? p db'.memberships ≡ some m = rw (← state) e in
            let again : ◌≡◌ {A = Pointed (ℤ × Db)} (ok (pos 0, db')) (ok (b', db'')) =
              rw off at (rw same at g) in
            cc
      ]
    ]

award_points_same :
    (store customer order : ℕ) (paid_cents points_per_yuan : ℤ) (key : ℕ) (db : Db) {b b' : ℤ}
    {db' db'' : Db}
    → award_points store customer order paid_cents points_per_yuan key db ≡ ok (b, db')
    → award_points store customer order paid_cents points_per_yuan key db' ≡ ok (b', db'')
    → db'' ≡ db'
unfolding award_points
award_points_same store customer order paid_cents points_per_yuan key db {b} {b'} {db'} {db''} h g =
    let points = points_for paid_cents points_per_yuan in
    elim (Bool-cases
      (leb_ℤ paid_cents (pos 0) || leb_ℤ points_per_yuan (pos 0) || leb_ℤ points (pos 0))) [
        | inl e ↦
            let again : ◌≡◌ {A = Pointed (ℤ × Db)} (ok (pos 0, db')) (ok (b', db'')) = rw e at g in
            cc
        | inr e ↦
            award_member_once customer order points key (is_customer_of_store customer store) db
              (λ n x. refl) (rw e at h) (rw e at g)
      ]

Result-cases :
    (r : Pointed (ℤ × Db)) → ((x : ℤ × Db) × (r ≡ ok x)) ⊎ ((e : PointsError) × (r ≡ err e))
Result-cases (ok x) = inl (x, refl)
Result-cases (err e) = inr (e, refl)

-- Points are awarded once for an idempotency key: once an award has succeeded, the same award under the same
-- key fails, or succeeds without changing anything.
pub award_points_once :
    (store customer order : ℕ) (paid_cents points_per_yuan : ℤ) (key : ℕ) (db : Db) {b : ℤ}
    {db' : Db}
    → award_points store customer order paid_cents points_per_yuan key db ≡ ok (b, db')
    → let again = award_points store customer order paid_cents points_per_yuan key db' in
      ((b' : ℤ) × (again ≡ ok (b', db'))) ⊎ ((e : PointsError) × (again ≡ err e))
award_points_once store customer order paid_cents points_per_yuan key db {b} {db'} h =
    elim (Result-cases (award_points store customer order paid_cents points_per_yuan key db')) [
      | inl ((b', db''), e) ↦
          let same = award_points_same store customer order paid_cents points_per_yuan key db h e in
          inl (b', e ∙ ap (λ d. ok (b', d)) same)
      | inr refused ↦ inr refused
    ]
