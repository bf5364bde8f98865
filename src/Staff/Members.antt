-- ===== src/Staff/Members.antt =====
-- internal/platform/members.go: `AddMember`, `ChangeMemberRole`, `RemoveMember` and `AssignStoreOwner`.
use dishflow_glm.Prelude.{
  ℕ, ltb, ◌==◌, if◌then◌else◌, Bool, true, false, not, ◌&&◌, Option, none, some, List, [], ◌∷◌,
  Result, ok, ◌>>◌, fail_if, find?, count, update_where,
}

-- internal/authn: `Role`.
pub data Role : Type 0 where
  staff manager owner : Role

-- `shop_members`
pub record Member : Type 0 where
  pub store_id : ℕ
  pub admin_user_id : ℕ
  pub role : Role

pub data ApplicationStatus : Type 0 where
  pending approved rejected : ApplicationStatus

-- `shop_applications`
pub record ShopApplication : Type 0 where
  pub id : ℕ
  pub applicant : ℕ
  pub status : ApplicationStatus
  pub reviewer : Option ℕ
  pub created_store_id : Option ℕ

-- `shop_join_requests`
pub record JoinRequest : Type 0 where
  pub id : ℕ
  pub store_id : ℕ
  pub applicant : ℕ
  pub requested_role : Role
  pub status : ApplicationStatus
  pub reviewer : Option ℕ

pub record Staff : Type 0 where
  pub members : List Member
  pub applications : List ShopApplication
  pub joins : List JoinRequest
  pub stores : List ℕ
  pub next_id : ℕ

pub data StaffError : Type 0 where
  duplicate_key no_rows bound_elsewhere not_pending name_required : StaffError

abbrev pub Staffed : Type 0 → Type 0
Staffed A = Result StaffError A

abbrev pub is_owner : Role → Bool
is_owner owner = true
is_owner _ = false

abbrev pub is_owner_of : ℕ → Member → Bool
is_owner_of store m = (m.store_id == store) && is_owner m.role

abbrev pub set_role : Role → Member → Member
set_role role m = record m { role = role }

-- `SET role = 'MANAGER' WHERE store_id = ? AND role = 'OWNER'`
unfoldable pub demote : ℕ → List Member → List Member
demote store ms = update_where (is_owner_of store) (set_role manager) ms

abbrev pub is_member_at : ℕ → ℕ → Member → Bool
is_member_at store user m = (m.store_id == store) && (m.admin_user_id == user)

-- The unique key is the store and the account.
unfoldable pub insert_member : ℕ → ℕ → Role → List Member → Staffed (List Member)
insert_member store user role ms = do
  fail_if (ltb 0 (count (is_member_at store user) ms)) duplicate_key
  ok (record { store_id = store; admin_user_id = user; role = role } ∷ ms)

abbrev pub demote_for : Role → ℕ → List Member → List Member
demote_for role store ms = if is_owner role then demote store ms else ms

unfoldable pub add_member : ℕ → ℕ → Role → List Member → Staffed (List Member)
unfolding demote insert_member
add_member store user role ms = insert_member store user role (demote_for role store ms)

abbrev pub same_role : Role → Role → Bool
same_role staff staff = true
same_role manager manager = true
same_role owner owner = true
same_role _ _ = false

-- A row whose role is the new one already does not count as affected.
abbrev pub is_changed : ℕ → ℕ → Role → Member → Bool
is_changed store user role m = is_member_at store user m && not (same_role m.role role)

unfoldable pub change_member_role : ℕ → ℕ → Role → List Member → Staffed (List Member)
unfolding demote
change_member_role store user role ms = do
  let ms' = demote_for role store ms
  fail_if (count (is_changed store user role) ms' == 0) no_rows
  ok (update_where (is_member_at store user) (set_role role) ms')

unfoldable pub delete_members : (Member → Bool) → List Member → List Member
delete_members p [] = []
delete_members p (m ∷ ms) = if p m then delete_members p ms else m ∷ delete_members p ms

unfoldable pub remove_member : ℕ → ℕ → List Member → Staffed (List Member)
unfolding delete_members
remove_member store user ms = do
  fail_if (count (is_member_at store user) ms == 0) no_rows
  ok (delete_members (is_member_at store user) ms)

abbrev pub is_user : ℕ → Member → Bool
is_user user m = m.admin_user_id == user

-- `LIMIT 1` has no order: here it is the first row.
abbrev pub assign_found : ℕ → ℕ → Option Member → List Member → Staffed (List Member)
assign_found store user none ms = insert_member store user owner (demote store ms)
assign_found store user (some m) ms = do
  fail_if (not (m.store_id == store)) bound_elsewhere
  ok (update_where (is_member_at store user) (set_role owner) (demote store ms))

unfoldable pub assign_store_owner : ℕ → ℕ → List Member → Staffed (List Member)
unfolding demote insert_member
assign_store_owner store user ms = assign_found store user (find? (is_user user) ms) ms
