-- ===== src/Members/History.antt =====
-- internal/members/store.go: `ReversePoints`, and the ledger along any history of the operations on points.
use dishflow_glm.Prelude.{
  ℕ, ℤ, pos, negsuc, ◌^◌, ◌<◌, ◌≤ℤ◌, ◌<ℤ◌, ◌+ℤ◌, ◌-ℤ◌, pos_part, wrap, leb_ℤ, sub64, ◌≡◌, refl,
  subst, arith, Bool, Option, none, some, List, [], ◌∷◌, ok, find?, All, Bool-cases, inl, inr,
}
use dishflow_glm.Store.{Db, Membership, LedgerEntry}
use dishflow_glm.Members.Points.{
  post, adjust_points, award_points, taken, left, reverse_earned, reverse_member, reverse_points,
  is_earned, is_customer_of_store,
}
use dishflow_glm.Members.Points.{reverse_entry}
use dishflow_glm.Members.Ledger.{total, IsBalanced, Points, post-Points, found-IsBalanced}
use dishflow_glm.Members.Balance.{IsInt64, adjust_points-Points, award_points-Points}

-- What is taken back is what was earned, or the whole balance where that is less.
pub reverse_sum :
    (b d t : ℤ)
    → b ≡ t
    → pos 0 ≤ℤ b
    → b <ℤ pos (2 ^ 63)
    → pos 0 ≤ℤ d
    → pos_part d < 2 ^ 63
    → (left b d ≡ sub64 (pos 0) (taken b d) +ℤ t)
      × (left b d <ℤ pos (2 ^ 63))
      × (pos_part (sub64 (pos 0) (taken b d)) < 2 ^ 63)
unfolding left taken sub64 wrap ◌+ℤ◌ ◌-ℤ◌
reverse_sum (pos b) (pos d) t e l h m s = ground arith
reverse_sum (pos b) (negsuc d) t e l h m s = absurd (omega arith)
reverse_sum (negsuc b) d t e l h m s = absurd (omega arith)

entry_small :
    (p : LedgerEntry → Bool) (es : List LedgerEntry) {e : LedgerEntry}
    → All (λ x. pos_part x.delta < 2 ^ 63) es
    → find? p es ≡ some e
    → pos_part e.delta < 2 ^ 63
entry_small p [] all h = absurd (cc)
entry_small p (x ∷ xs) {e} (b, bs) h = elim (Bool-cases (p x)) [
  | inl t ↦
      let found : some x ≡ some e = rw t at h in
      let this : x ≡ e = cc in subst (λ z. pos_part z.delta < 2 ^ 63) this b
  | inr t ↦ entry_small p xs bs (rw t at h)
]

reverse_earned-Points :
    (m : Membership) (row : Option LedgerEntry) (customer refund key : ℕ) (db : Db) {db' : Db}
    → IsBalanced db.ledger m
    → ((e : LedgerEntry) → row ≡ some e → pos_part e.delta < 2 ^ 63)
    → Points db
    → reverse_earned m row customer refund key db ≡ ok db'
    → Points db'
unfolding reverse_earned
reverse_earned-Points m none customer refund key db {db'} b small p h =
    let state : db ≡ db' = cc in subst Points state p
reverse_earned-Points m (some e) customer refund key db {db'} b small p h =
    elim (Bool-cases (leb_ℤ e.delta (pos 0))) [
      | inl f ↦ let state : db ≡ db' = ground arith in subst Points state p
      | inr f ↦
          let entry = reverse_entry m customer refund e.delta key in
          let posted : post entry db ≡ ok db' = rw f at h in
          let earned : pos 0 ≤ℤ e.delta = ground arith in
          let (sum, high, range) =
            reverse_sum m.points_balance e.delta (total m.id db.ledger) b.0 b.1 b.2 earned
              (small e refl) in
          post-Points entry db p high range (λ _. sum) posted
    ]

reverse_member-Points :
    (row : Option Membership) (customer refund order key : ℕ) (db : Db) {db' : Db}
    → ((m : Membership) → row ≡ some m → IsBalanced db.ledger m)
    → Points db
    → reverse_member row customer refund order key db ≡ ok db'
    → Points db'
unfolding reverse_member
reverse_member-Points none customer refund order key db {db'} found p h =
    let state : db ≡ db' = cc in subst Points state p
reverse_member-Points (some m) customer refund order key db found p h =
    reverse_earned-Points m (find? (is_earned customer order) db.ledger) customer refund key db
      (found m refl) (λ e f. entry_small (is_earned customer order) db.ledger p.int64 f) p h

pub reverse_points-Points :
    (store customer refund order key : ℕ) (db : Db) {db' : Db}
    → Points db
    → reverse_points store customer refund order key db ≡ ok db'
    → Points db'
unfolding reverse_points
reverse_points-Points store customer refund order key db p h =
    reverse_member-Points (find? (is_customer_of_store customer store) db.memberships) customer
      refund order key db
      (λ m f.
        found-IsBalanced (is_customer_of_store customer store) db.memberships db.ledger p.balanced
          f)
      p h

-- One committed change of the points.
pub data PointsStep (db : Db) (db' : Db) : Type 0 where
  adjusts_points :
      (membership store customer : ℕ) (delta : ℤ) (reason key : ℕ) (balance : ℤ)
      → IsInt64 delta
      → adjust_points membership store customer delta reason key db ≡ ok (balance, db')
      → PointsStep db db'
  awards_points :
      (store customer order : ℕ) (paid_cents points_per_yuan : ℤ) (key : ℕ) (balance : ℤ)
      → award_points store customer order paid_cents points_per_yuan key db ≡ ok (balance, db')
      → PointsStep db db'
  reverses_points :
      (store customer refund order key : ℕ)
      → reverse_points store customer refund order key db ≡ ok db'
      → PointsStep db db'

pub data PointsHistory (db : Db) : Db → Type 0 where
  no_points : PointsHistory db db
  and_points : {db₁ db₂ : Db} → PointsHistory db db₁ → PointsStep db₁ db₂ → PointsHistory db db₂

PointsStep-Points : (db db' : Db) → PointsStep db db' → Points db → Points db'
PointsStep-Points db db' (adjusts_points membership store customer delta reason key balance r e) p =
    adjust_points-Points membership store customer delta reason key db r p e
PointsStep-Points db db'
      (awards_points store customer order paid_cents points_per_yuan key balance e) p =
    award_points-Points store customer order paid_cents points_per_yuan key db p e
PointsStep-Points db db' (reverses_points store customer refund order key e) p =
    reverse_points-Points store customer refund order key db p e

-- After any history of adjustments, awards and reversals from a state in which every balance is the sum of
-- the entries of its ledger, is not negative and fits into 63 bits, and no entry exceeds that, it is so again.
-- (The deltas that are asked for are Go's `int64`.)
pub PointsHistory-Points : {db db' : Db} → Points db → PointsHistory db db' → Points db'
PointsHistory-Points p no_points = p
PointsHistory-Points p (and_points {db₁} {db₂} h s) =
    PointsStep-Points db₁ db₂ s (PointsHistory-Points p h)
