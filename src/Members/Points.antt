-- ===== src/Members/Points.antt =====
-- internal/members/store.go: `AdjustPoints`, `AwardPoints` and `ReversePoints`. Each call is atomic here.
use dishflow_glm.Prelude.{
  ℕ, ℤ, pos, ◌/◌, pos_part, ltb_ℤ, leb_ℤ, add64, sub64, mul64, ◌==◌, if◌then◌else◌, Bool, true,
  false, ◌&&◌, ◌||◌, Option, none, some, List, [], ◌∷◌, Result, ok, err, ◌>>=◌, ◌>>◌, fail_if,
  find?, update_where,
}
use dishflow_glm.Store.{Db, Membership, EntryType, earn, reverse, adjust, LedgerEntry}
use dishflow_glm.Inventory.{is_zero}

pub data PointsError : Type 0 where
  delta_zero reason_required idempotency_key_required no_rows insufficient_points : PointsError
  check_violation duplicate_key : PointsError

abbrev pub Pointed : Type 0 → Type 0
Pointed A = Result PointsError A

abbrev pub is_membership : ℕ → Membership → Bool
is_membership id m = m.id == id

abbrev pub set_balance : ℤ → Membership → Membership
set_balance n m = record m { points_balance = n }

-- The unique key of the ledger: membership and idempotency key.
unfoldable pub has_entry : ℕ → ℕ → List LedgerEntry → Bool
has_entry membership key [] = false
has_entry membership key (e ∷ es) =
    (e.membership_id == membership) && (e.idempotency_key == key) || has_entry membership key es

-- The two statements that every change of a balance makes, with the CHECKs of the two tables.
unfoldable pub post : LedgerEntry → Db → Pointed Db
unfolding has_entry
post e db = do
  fail_if (ltb_ℤ e.balance_after (pos 0)) check_violation
  fail_if (has_entry e.membership_id e.idempotency_key db.ledger) duplicate_key
  fail_if (is_zero e.delta) check_violation
  ok (record db {
    memberships =
        update_where (is_membership e.membership_id) (set_balance e.balance_after) db.memberships;
    ledger = e ∷ db.ledger;
  })

abbrev pub is_member_of_store : ℕ → ℕ → Membership → Bool
is_member_of_store id store m = (m.id == id) && (m.store_id == store)

abbrev pub adjust_entry : Membership → ℕ → ℤ → ℕ → LedgerEntry
adjust_entry m customer delta key = record {
  membership_id = m.id;
  customer_id = customer;
  delta = delta;
  balance_after = add64 m.points_balance delta;
  entry_type = adjust;
  order_id = none;
  refund_id = none;
  idempotency_key = key;
}

unfoldable pub adjust_member : Option Membership → ℕ → ℤ → ℕ → Db → Pointed (ℤ × Db)
unfolding post
adjust_member none customer delta key db = err no_rows
adjust_member (some m) customer delta key db = do
  let balance = add64 m.points_balance delta
  fail_if (ltb_ℤ balance (pos 0)) insufficient_points
  db' ← post (adjust_entry m customer delta key) db
  ok (balance, db')

unfoldable pub adjust_points : ℕ → ℕ → ℕ → ℤ → ℕ → ℕ → Db → Pointed (ℤ × Db)
unfolding adjust_member
adjust_points membership store customer delta reason key db = do
  fail_if (is_zero delta) delta_zero
  fail_if (reason == 0) reason_required
  fail_if (key == 0) idempotency_key_required
  adjust_member (find? (is_member_of_store membership store) db.memberships) customer delta key db

abbrev pub is_customer_of_store : ℕ → ℕ → Membership → Bool
is_customer_of_store customer store m = (m.customer_id == customer) && (m.store_id == store)

-- Whole yuan first, then the rate.
unfoldable pub points_for : ℤ → ℤ → ℤ
points_for paid_cents points_per_yuan = mul64 (pos (pos_part paid_cents / 100)) points_per_yuan

abbrev pub earn_entry : Membership → ℕ → ℕ → ℤ → ℕ → LedgerEntry
earn_entry m customer order points key = record {
  membership_id = m.id;
  customer_id = customer;
  delta = points;
  balance_after = add64 m.points_balance points;
  entry_type = earn;
  order_id = some order;
  refund_id = none;
  idempotency_key = key;
}

unfoldable pub award_active : Membership → ℕ → ℕ → ℤ → ℕ → Db → Pointed (ℤ × Db)
unfolding post
award_active m customer order points key db = do
  db' ← post (earn_entry m customer order points key) db
  ok (add64 m.points_balance points, db')

-- Without a membership, or with one that is frozen, nothing is awarded.
unfoldable pub award_member : Option Membership → ℕ → ℕ → ℤ → ℕ → Db → Pointed (ℤ × Db)
unfolding award_active
award_member none customer order points key db = ok (pos 0, db)
award_member (some m) customer order points key db =
    if m.is_active then award_active m customer order points key db else ok (pos 0, db)

unfoldable pub award_points : ℕ → ℕ → ℕ → ℤ → ℤ → ℕ → Db → Pointed (ℤ × Db)
unfolding points_for award_member
award_points store customer order paid_cents points_per_yuan key db =
    if leb_ℤ paid_cents (pos 0)
      || leb_ℤ points_per_yuan (pos 0)
      || leb_ℤ (points_for paid_cents points_per_yuan) (pos 0)
    then ok (pos 0, db)
    else award_member (find? (is_customer_of_store customer store) db.memberships) customer order
        (points_for paid_cents points_per_yuan) key db

abbrev pub is_earn : EntryType → Bool
is_earn earn = true
is_earn _ = false

abbrev pub is_order : ℕ → Option ℕ → Bool
is_order order none = false
is_order order (some k) = k == order

-- `customer_id=? AND order_id=? AND entry_type='EARN'`
abbrev pub is_earned : ℕ → ℕ → LedgerEntry → Bool
is_earned customer order e =
    (e.customer_id == customer) && is_order order e.order_id && is_earn e.entry_type

-- The points that go back, and what is left: never more than the balance has.
unfoldable pub taken : ℤ → ℤ → ℤ
taken balance points = if ltb_ℤ (sub64 balance points) (pos 0) then balance else points

unfoldable pub left : ℤ → ℤ → ℤ
left balance points = if ltb_ℤ (sub64 balance points) (pos 0) then pos 0 else sub64 balance points

abbrev pub reverse_entry : Membership → ℕ → ℕ → ℤ → ℕ → LedgerEntry
reverse_entry m customer refund points key = record {
  membership_id = m.id;
  customer_id = customer;
  delta = sub64 (pos 0) (taken m.points_balance points);
  balance_after = left m.points_balance points;
  entry_type = reverse;
  order_id = none;
  refund_id = some refund;
  idempotency_key = key;
}

unfoldable pub reverse_earned : Membership → Option LedgerEntry → ℕ → ℕ → ℕ → Db → Pointed Db
unfolding taken left post
reverse_earned m none customer refund key db = ok db
reverse_earned m (some e) customer refund key db =
    if leb_ℤ e.delta (pos 0) then ok db else post (reverse_entry m customer refund e.delta key) db

unfoldable pub reverse_member : Option Membership → ℕ → ℕ → ℕ → ℕ → Db → Pointed Db
unfolding reverse_earned
reverse_member none customer refund order key db = ok db
reverse_member (some m) customer refund order key db =
    reverse_earned m (find? (is_earned customer order) db.ledger) customer refund key db

unfoldable pub reverse_points : ℕ → ℕ → ℕ → ℕ → ℕ → Db → Pointed Db
unfolding reverse_member
reverse_points store customer refund order key db =
    reverse_member (find? (is_customer_of_store customer store) db.memberships) customer refund
      order key db
