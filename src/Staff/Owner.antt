-- ===== src/Staff/Owner.antt =====
-- internal/platform: a store has one owner at most, and an account one membership of a store.
use dishflow_glm.Prelude.{
  ℕ, ◌+◌, ◌≤◌, ltb, ◌==◌, ◌≡◌, refl, arith, subst, if◌then◌else◌, Bool, true, not, ◌&&◌, List, [],
  ◌∷◌, ok, ok_inj, fail_if-eq-ok, find?, count, count-update_where, update_where, Bool-cases,
  Option-cases, inl, inr,
}
use dishflow_glm.Staff.Members.{
  Role, staff, manager, owner, Member, duplicate_key, no_rows, bound_elsewhere, is_owner,
  is_owner_of, set_role, demote, demote_for, is_member_at, insert_member, is_changed,
  change_member_role, delete_members, remove_member, is_user, assign_store_owner,
}

pub record OneOwner (ms : List Member) : Type 0 where
  pub owners : (store : ℕ) → count (is_owner_of store) ms ≤ 1
  pub members : (store user : ℕ) → count (is_member_at store user) ms ≤ 1

demote_none : (store : ℕ) (ms : List Member) → count (is_owner_of store) (demote store ms) ≡ 0
unfolding demote
demote_none store [] = refl
demote_none store (m ∷ ms) = let rest = demote_none store ms in ground arith

demote_le :
    (store t : ℕ) (ms : List Member)
    → count (is_owner_of t) (demote store ms) ≤ count (is_owner_of t) ms
unfolding demote
demote_le store t [] = omega arith
demote_le store t (m ∷ ms) = let rest = demote_le store t ms in ground arith

demote_for-OneOwner :
    (role : Role) (store : ℕ) (ms : List Member)
    → OneOwner ms
    → OneOwner (demote_for role store ms)
      × (is_owner role ≡ true → count (is_owner_of store) (demote_for role store ms) ≡ 0)
demote_for-OneOwner owner store ms v = (
  record {
    owners = λ t. let less = demote_le store t ms in let one = v.owners t in omega arith;
    members = λ s u.
        unfold demote in
        rw
          (count-update_where (is_member_at s u) (is_owner_of store) (set_role manager) ms
            (λ m. refl))
          (v.members s u);
  },
  λ _. demote_none store ms,
)
demote_for-OneOwner staff store ms v = (v, λ e. absurd (cc))
demote_for-OneOwner manager store ms v = (v, λ e. absurd (cc))

pub insert_member-OneOwner :
    (store user : ℕ) (role : Role) (ms : List Member) {ms' : List Member}
    → OneOwner ms
    → insert_member store user role (demote_for role store ms) ≡ ok ms'
    → OneOwner ms'
unfolding insert_member
insert_member-OneOwner store user role ms {ms'} v h =
    let before = demote_for role store ms in
    let (new, h₁) =
      fail_if-eq-ok (ltb 0 (count (is_member_at store user) before)) duplicate_key _ h in
    let (w, free) = demote_for-OneOwner role store ms v in
    subst OneOwner (ok_inj h₁) (record {
      owners = λ t.
          let one = w.owners t in
          elim (Bool-cases (store == t)) [
            | inl e ↦
                let same : store ≡ t = ground arith in
                elim (Bool-cases (is_owner role)) [
                  | inl r ↦
                      let zero : count (is_owner_of t) before ≡ 0 = rw (← same) (free r) in
                      ground arith
                  | inr r ↦ ground arith
                ]
            | inr e ↦ ground arith
          ];
      members = λ s u. let one = w.members s u in ground arith;
    })

set_role-owners :
    (store user t : ℕ) (role : Role) (ms : List Member)
    → count (is_owner_of t) (update_where (is_member_at store user) (set_role role) ms)
      ≤ count (is_owner_of t) ms
        + (if (store == t) && is_owner role then count (is_member_at store user) ms else 0)
set_role-owners store user t role [] = omega arith
set_role-owners store user t role (m ∷ ms) =
    let rest = set_role-owners store user t role ms in ground arith

set_role-OneOwner :
    (store user : ℕ) (role : Role) (ms : List Member)
    → OneOwner ms
    → OneOwner (update_where (is_member_at store user) (set_role role) (demote_for role store ms))
set_role-OneOwner store user role ms v =
    let before = demote_for role store ms in
    let (w, free) = demote_for-OneOwner role store ms v in
    record {
      owners = λ t.
          let more = set_role-owners store user t role before in
          let one = w.owners t in
          let row = w.members store user in
          elim (Bool-cases (store == t)) [
            | inl e ↦
                let same : store ≡ t = ground arith in
                elim (Bool-cases (is_owner role)) [
                  | inl r ↦
                      let zero : count (is_owner_of t) before ≡ 0 = rw (← same) (free r) in
                      ground arith
                  | inr r ↦ ground arith
                ]
            | inr e ↦ ground arith
          ];
      members = λ s u.
          rw
            (count-update_where (is_member_at s u) (is_member_at store user) (set_role role) before
              (λ m. refl))
            (w.members s u);
    }

pub change_member_role-OneOwner :
    (store user : ℕ) (role : Role) (ms : List Member) {ms' : List Member}
    → OneOwner ms
    → change_member_role store user role ms ≡ ok ms'
    → OneOwner ms'
unfolding change_member_role
change_member_role-OneOwner store user role ms v h =
    let (_, h₁) =
      fail_if-eq-ok (count (is_changed store user role) (demote_for role store ms) == 0) no_rows _
        h in
    subst OneOwner (ok_inj h₁) (set_role-OneOwner store user role ms v)

delete_members-count :
    (p q : Member → Bool) (ms : List Member) → count p (delete_members q ms) ≤ count p ms
unfolding delete_members
delete_members-count p q [] = omega arith
delete_members-count p q (m ∷ ms) = let rest = delete_members-count p q ms in ground arith

pub remove_member-OneOwner :
    (store user : ℕ) (ms : List Member) {ms' : List Member}
    → OneOwner ms
    → remove_member store user ms ≡ ok ms'
    → OneOwner ms'
unfolding remove_member
remove_member-OneOwner store user ms v h =
    let (_, h₁) = fail_if-eq-ok (count (is_member_at store user) ms == 0) no_rows _ h in
    subst OneOwner (ok_inj h₁) (record {
      owners = λ t.
          let less = delete_members-count (is_owner_of t) (is_member_at store user) ms in
          let one = v.owners t in omega arith;
      members = λ s u.
          let less = delete_members-count (is_member_at s u) (is_member_at store user) ms in
          let one = v.members s u in omega arith;
    })

pub assign_store_owner-OneOwner :
    (store user : ℕ) (ms : List Member) {ms' : List Member}
    → OneOwner ms
    → assign_store_owner store user ms ≡ ok ms'
    → OneOwner ms'
unfolding assign_store_owner
assign_store_owner-OneOwner store user ms v h = elim (Option-cases (find? (is_user user) ms)) [
  | inl e ↦ insert_member-OneOwner store user owner ms v (rw e at h)
  | inr (m, e) ↦
      let (_, h₁) = fail_if-eq-ok (not (m.store_id == store)) bound_elsewhere _ (rw e at h) in
      subst OneOwner (ok_inj h₁) (set_role-OneOwner store user owner ms v)
]
