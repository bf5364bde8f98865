-- ===== src/Members/Ledger.antt =====
-- internal/members/store.go: the balance of a member is the sum of the entries of the ledger.
use dishflow_glm.Prelude.{
  ℕ, ℤ, pos, negsuc, ◌^◌, ◌≤◌, ◌<◌, ◌≤ℤ◌, ◌<ℤ◌, ◌+ℤ◌, pos_part, neg_part, wrap, wrap_range,
  int_laws, ltb_ℤ, add64, ◌==◌, ◌≡◌, sym, ◌∙◌, ap, subst, arith, if◌then◌else◌, Bool, true, false,
  some, List, [], ◌∷◌, ok, >>=-eq-ok, fail_if, find?, update_where, All, Bool-cases, inl, inr,
}
use dishflow_glm.Store.{Db, Membership, LedgerEntry}
use dishflow_glm.Inventory.{is_zero}
use dishflow_glm.Members.Points.{
  is_membership, set_balance, has_entry, post, check_violation, duplicate_key,
}

-- The sum of the entries of a membership.
unfoldable pub total : ℕ → List LedgerEntry → ℤ
total m [] = pos 0
total m (e ∷ es) = (if e.membership_id == m then e.delta else pos 0) +ℤ total m es

-- A balance that agrees with the ledger, and is a natural number that fits into 63 bits.
abbrev pub IsBalanced : List LedgerEntry → Membership → Type 0
IsBalanced es m =
    (m.points_balance ≡ total m.id es)
    × (pos 0 ≤ℤ m.points_balance)
    × (m.points_balance <ℤ pos (2 ^ 63))

pub record Points (db : Db) : Type 0 where
  pub balanced : All (IsBalanced db.ledger) db.memberships
  pub int64 : All (λ e. pos_part e.delta < 2 ^ 63) db.ledger

IsBalanced-same :
    (e : LedgerEntry) (m : Membership) (es : List LedgerEntry)
    → m.id ≡ e.membership_id
    → pos 0 ≤ℤ e.balance_after
    → e.balance_after <ℤ pos (2 ^ 63)
    → e.balance_after ≡ e.delta +ℤ total e.membership_id es
    → IsBalanced (e ∷ es) (set_balance e.balance_after m)
unfolding total
IsBalanced-same e m es key low high same =
    let back : (e.membership_id == m.id) ≡ true = ground arith in
    (rw back (same ∙ ap (λ k. e.delta +ℤ total k es) (sym key)), low, high)

IsBalanced-other :
    (e : LedgerEntry) (m : Membership) (es : List LedgerEntry)
    → (m.id == e.membership_id) ≡ false
    → IsBalanced es m
    → IsBalanced (e ∷ es) m
unfolding total
IsBalanced-other e m es other b =
    let back : (e.membership_id == m.id) ≡ false = ground arith in
    (rw back (b.0 ∙ omega int_laws), b.1, b.2)

post-All :
    (e : LedgerEntry) (ms : List Membership) (es : List LedgerEntry)
    → All (IsBalanced es) ms
    → pos 0 ≤ℤ e.balance_after
    → e.balance_after <ℤ pos (2 ^ 63)
    → e.balance_after ≡ e.delta +ℤ total e.membership_id es
    → All
        (IsBalanced (e ∷ es))
        (update_where (is_membership e.membership_id) (set_balance e.balance_after) ms)
post-All e [] es b low high same = tt
post-All e (m ∷ ms) es (b, bs) low high same =
    let pick : Bool → Type 0 =
      λ t. IsBalanced (e ∷ es) (if t then set_balance e.balance_after m else m) in
    let head =
      elim (Bool-cases (m.id == e.membership_id)) as (λ _. pick (m.id == e.membership_id)) [
        | inl t ↦ subst pick (sym t) (IsBalanced-same e m es (ground arith) low high same)
        | inr t ↦ subst pick (sym t) (IsBalanced-other e m es t b)
      ] in
    (head, post-All e ms es bs low high same)

pub post-Points :
    (e : LedgerEntry) (db : Db) {db' : Db}
    → Points db
    → e.balance_after <ℤ pos (2 ^ 63)
    → pos_part e.delta < 2 ^ 63
    → (pos 0 ≤ℤ e.balance_after → e.balance_after ≡ e.delta +ℤ total e.membership_id db.ledger)
    → post e db ≡ ok db'
    → Points db'
unfolding post
post-Points e db {db'} p high small same h =
    let (_, low, h₁) = >>=-eq-ok (fail_if (ltb_ℤ e.balance_after (pos 0)) check_violation) _ h in
    let (_, _, h₂) =
      >>=-eq-ok (fail_if (has_entry e.membership_id e.idempotency_key db.ledger) duplicate_key) _
        h₁ in
    let (_, _, h₃) = >>=-eq-ok (fail_if (is_zero e.delta) check_violation) _ h₂ in
    let posted : Db = record db {
      memberships =
          update_where (is_membership e.membership_id) (set_balance e.balance_after) db.memberships;
      ledger = e ∷ db.ledger;
    } in
    let state : posted ≡ db' = cc in
    let nonneg : pos 0 ≤ℤ e.balance_after = ground arith in
    subst Points state (record {
      balanced = post-All e db.memberships db.ledger p.balanced nonneg high (same nonneg);
      int64 = (small, p.int64);
    })

pub found-IsBalanced :
    (p : Membership → Bool) (ms : List Membership) (es : List LedgerEntry) {m : Membership}
    → All (IsBalanced es) ms
    → find? p ms ≡ some m
    → IsBalanced es m
found-IsBalanced p [] es all h = absurd (cc)
found-IsBalanced p (x ∷ xs) es {m} (b, bs) h = elim (Bool-cases (p x)) [
  | inl e ↦
      let found : some x ≡ some m = rw e at h in
      let this : x ≡ m = cc in subst (IsBalanced es) this b
  | inr e ↦ found-IsBalanced p xs es bs (rw e at h)
]

-- A sum with a natural number of 63 bits that does not come out negative has not wrapped.
add64_nonneg :
    (a b : ℤ)
    → pos 0 ≤ℤ a
    → a <ℤ pos (2 ^ 63)
    → (pos_part b < 2 ^ 63) × (neg_part b ≤ 2 ^ 63)
    → pos 0 ≤ℤ add64 a b
    → add64 a b ≡ a +ℤ b
unfolding add64 wrap ◌+ℤ◌
add64_nonneg (pos a) (pos b) l h r n = ground arith
add64_nonneg (pos a) (negsuc b) l h r n = ground arith
add64_nonneg (negsuc a) b l h r n = absurd (omega arith)

pub wrap_high : (a : ℤ) → wrap a <ℤ pos (2 ^ 63)
wrap_high a = omega (arith, wrap_range a)

-- Adding to a balance that agrees with the ledger.
pub add_entry :
    (db : Db) (m : Membership) (delta : ℤ)
    → IsBalanced db.ledger m
    → (pos_part delta < 2 ^ 63) × (neg_part delta ≤ 2 ^ 63)
    → pos 0 ≤ℤ add64 m.points_balance delta
    → add64 m.points_balance delta ≡ delta +ℤ total m.id db.ledger
add_entry db m delta b r low =
    add64_nonneg m.points_balance delta b.1 b.2 r low ∙ ap (λ z. z +ℤ delta) b.0 ∙ omega int_laws
