-- ===== src/Staff/History.antt =====
-- internal/platform: the members along any history of its operations.
use dishflow_glm.Prelude.{
  ℕ, ◌≡◌, arith, subst, ap, not, ok, ok_inj, >>=-eq-ok, fail_if-eq-ok, find?, Option-cases, inl,
  inr,
}
use dishflow_glm.Staff.Members.{
  Role, owner, Staff, not_pending, demote, demote_for, insert_member, add_member,
  change_member_role, remove_member, assign_store_owner,
}
use dishflow_glm.Staff.Applications.{
  approve_shop_application, approve_shop_join_request, is_application, is_join, is_pending_status,
  create_shop_application, reject_shop_application, create_shop_join_request,
  reject_shop_join_request,
}
use dishflow_glm.Staff.Owner.{
  OneOwner, insert_member-OneOwner, change_member_role-OneOwner, remove_member-OneOwner,
  assign_store_owner-OneOwner,
}

-- One committed operation.
pub data StaffStep (a : Staff) (b : Staff) : Type 0 where
  adds :
      (store user : ℕ) (role : Role)
      → add_member store user role a.members ≡ ok b.members
      → StaffStep a b
  changes_role :
      (store user : ℕ) (role : Role)
      → change_member_role store user role a.members ≡ ok b.members
      → StaffStep a b
  removes : (store user : ℕ) → remove_member store user a.members ≡ ok b.members → StaffStep a b
  assigns :
      (store user : ℕ) → assign_store_owner store user a.members ≡ ok b.members → StaffStep a b
  applies :
      (applicant name id : ℕ)
      → create_shop_application applicant name a ≡ ok (id, b)
      → StaffStep a b
  approves :
      (app reviewer store : ℕ)
      → approve_shop_application app reviewer a ≡ ok (store, b)
      → StaffStep a b
  rejects : (app reviewer : ℕ) → reject_shop_application app reviewer a ≡ ok b → StaffStep a b
  asks_to_join :
      (store applicant id : ℕ) (role : Role)
      → create_shop_join_request store applicant role a ≡ (id, b)
      → StaffStep a b
  approves_join :
      (req reviewer : ℕ) → approve_shop_join_request req reviewer a ≡ ok b → StaffStep a b
  rejects_join : (req reviewer : ℕ) → reject_shop_join_request req reviewer a ≡ ok b → StaffStep a b

pub data StaffHistory (a : Staff) : Staff → Type 0 where
  start : StaffHistory a a
  then_ : {b c : Staff} → StaffHistory a b → StaffStep b c → StaffHistory a c

approve-OneOwner :
    (app reviewer store : ℕ) (a : Staff) {b : Staff}
    → OneOwner a.members
    → approve_shop_application app reviewer a ≡ ok (store, b)
    → OneOwner b.members
unfolding approve_shop_application
approve-OneOwner app reviewer store a {b} v h =
    elim (Option-cases (find? (is_application app) a.applications)) [
      | inl e ↦ absurd (ground arith)
      | inr (x, e) ↦
          let (_, h₁) =
            fail_if-eq-ok (not (is_pending_status x.status)) not_pending _ (rw e at h) in
          let (members, made, h₂) =
            >>=-eq-ok (insert_member a.next_id x.applicant owner (demote a.next_id a.members)) _
              h₁ in
          let same : members ≡ b.members = ap (λ (y : ℕ × Staff). y.1.members) (ok_inj h₂) in
          subst OneOwner same (insert_member-OneOwner a.next_id x.applicant owner a.members v made)
    ]

approve_join-OneOwner :
    (req reviewer : ℕ) (a : Staff) {b : Staff}
    → OneOwner a.members
    → approve_shop_join_request req reviewer a ≡ ok b
    → OneOwner b.members
unfolding approve_shop_join_request
approve_join-OneOwner req reviewer a {b} v h = elim (Option-cases (find? (is_join req) a.joins)) [
  | inl e ↦ absurd (ground arith)
  | inr (x, e) ↦
      let (_, h₁) = fail_if-eq-ok (not (is_pending_status x.status)) not_pending _ (rw e at h) in
      let (members, made, h₂) =
        >>=-eq-ok
          (insert_member x.store_id x.applicant x.requested_role
            (demote_for x.requested_role x.store_id a.members))
          _ h₁ in
      let same : members ≡ b.members = ap (λ (y : Staff). y.members) (ok_inj h₂) in
      subst OneOwner same
        (insert_member-OneOwner x.store_id x.applicant x.requested_role a.members v made)
]

StaffStep-OneOwner : (a b : Staff) → StaffStep a b → OneOwner a.members → OneOwner b.members
unfolding add_member create_shop_application reject_shop_application create_shop_join_request
    reject_shop_join_request
StaffStep-OneOwner a b (adds store user role h) v =
    insert_member-OneOwner store user role a.members v h
StaffStep-OneOwner a b (changes_role store user role h) v =
    change_member_role-OneOwner store user role a.members v h
StaffStep-OneOwner a b (removes store user h) v = remove_member-OneOwner store user a.members v h
StaffStep-OneOwner a b (assigns store user h) v =
    assign_store_owner-OneOwner store user a.members v h
StaffStep-OneOwner a b (applies applicant name id h) v =
    let same : a.members ≡ b.members = ground arith in subst OneOwner same v
StaffStep-OneOwner a b (approves app reviewer store h) v = approve-OneOwner app reviewer store a v h
StaffStep-OneOwner a b (rejects app reviewer h) v =
    let same : a.members ≡ b.members = ground arith in subst OneOwner same v
StaffStep-OneOwner a b (asks_to_join store applicant id role h) v =
    let same : a.members ≡ b.members = ground arith in subst OneOwner same v
StaffStep-OneOwner a b (approves_join req reviewer h) v = approve_join-OneOwner req reviewer a v h
StaffStep-OneOwner a b (rejects_join req reviewer h) v =
    let same : a.members ≡ b.members = ground arith in subst OneOwner same v

-- Along any history of changes of the members, of assignments by the platform, and of applications to open or
-- to join a store, each store has one owner at most, and an account has one membership of a store at most.
pub StaffHistory-OneOwner :
    {a b : Staff} → OneOwner a.members → StaffHistory a b → OneOwner b.members
StaffHistory-OneOwner v start = v
StaffHistory-OneOwner v (then_ {b} {c} h s) = StaffStep-OneOwner b c s (StaffHistory-OneOwner v h)
