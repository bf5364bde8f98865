-- ===== src/Tests/Members.antt =====
-- internal/members: a member earns points with a payment, and gives them back with the refund.
use dishflow_glm.Prelude.{
  ℤ, pos, negsuc, ◌+ℤ◌, ◌*ℤ◌, ◌-ℤ◌, ◌≡◌, refl, arith, wrap, mul64, add64, sub64, ◌⊎◌, true, none,
  some, [], ◌∷◌, ok, err,
}
use dishflow_glm.Store.{Db, Membership, LedgerEntry, earn, reverse}
use dishflow_glm.Members.Points.{
  PointsError, award_points, reverse_points, adjust_points, insufficient_points, duplicate_key,
}
use dishflow_glm.Members.Ledger.{total, Points}
use dishflow_glm.Members.History.{
  no_points, and_points, awards_points, reverses_points, PointsHistory-Points,
}
use dishflow_glm.Members.Once.{award_points_once}
use dishflow_glm.Tests.{empty}

abbrev member : ℤ → Membership
member balance = record {
  id = 8;
  store_id = 1;
  customer_id = 40;
  is_active = true;
  points_balance = balance;
}

abbrev joined : Db
joined = record empty { memberships = member (pos 0) ∷ [] }

abbrev entry : ℤ → ℤ → LedgerEntry
entry delta balance = record {
  membership_id = 8;
  customer_id = 40;
  delta = delta;
  balance_after = balance;
  entry_type = earn;
  order_id = some 1;
  refund_id = none;
  idempotency_key = 61;
}

abbrev earned : Db
earned = record joined { memberships = member (pos 38) ∷ []; ledger = entry (pos 38) (pos 38) ∷ [] }

abbrev returned : Db
returned = record earned {
  memberships = member (pos 0) ∷ [];
  ledger =
      record (entry (negsuc 37) (pos 0)) {
        entry_type = reverse;
        order_id = none;
        refund_id = some 4;
        idempotency_key = 62;
      }
      ∷ earned.ledger;
}

-- 19.99 yuan at two points for a yuan.
award_joined : award_points 1 40 1 (pos 1999) (pos 2) 61 joined ≡ ok (pos 38, earned)
unfolding award_points mul64 add64 wrap ◌+ℤ◌ ◌*ℤ◌
award_joined = refl

reverse_all : reverse_points 1 40 4 1 62 earned ≡ ok returned
unfolding reverse_points sub64 wrap ◌-ℤ◌
reverse_all = refl

overdraw : adjust_points 8 1 40 (negsuc 38) 5 63 earned ≡ err insufficient_points
unfolding adjust_points add64 wrap ◌+ℤ◌
overdraw = refl

joined-Points : Points joined
unfolding total
joined-Points = record { balanced = ((refl, omega arith, omega arith), tt); int64 = tt }

PointsHistory-Points_example : Points returned
PointsHistory-Points_example = PointsHistory-Points joined-Points (
    and_points
      (and_points no_points (awards_points 1 40 1 (pos 1999) (pos 2) 61 (pos 38) award_joined))
      (reverses_points 1 40 4 1 62 reverse_all))

-- A payment of less than one yuan, whose points are none.
award_nothing : award_points 1 40 1 (pos 99) (pos 2) 61 joined ≡ ok (pos 0, joined)
unfolding award_points mul64 add64 wrap ◌*ℤ◌
award_nothing = refl

award_points_once_example :
    ((b : ℤ) × (award_points 1 40 1 (pos 1999) (pos 2) 61 earned ≡ ok (b, earned)))
    ⊎ ((e : PointsError) × (award_points 1 40 1 (pos 1999) (pos 2) 61 earned ≡ err e))
award_points_once_example = award_points_once 1 40 1 (pos 1999) (pos 2) 61 joined award_joined

award_again : award_points 1 40 1 (pos 1999) (pos 2) 61 earned ≡ err duplicate_key
unfolding award_points mul64 add64 wrap ◌+ℤ◌ ◌*ℤ◌
award_again = refl
