-- ===== src/Staff/Applications.antt =====
-- internal/platform/applications.go: the applications to open a store and to join one. The logs are left out.
use dishflow_glm.Prelude.{
  ℕ, ◌+◌, ◌==◌, Bool, true, false, not, ◌&&◌, Option, none, some, List, ◌∷◌, ok, err, ◌>>=◌, ◌>>◌,
  fail_if, find?, count, update_where,
}
use dishflow_glm.Staff.Members.{
  Role, owner, Member, ApplicationStatus, pending, approved, rejected, ShopApplication, JoinRequest,
  Staff, not_pending, name_required, no_rows, Staffed, demote, demote_for, insert_member,
}

-- A name of spaces is 0 here.
unfoldable pub create_shop_application : ℕ → ℕ → Staff → Staffed (ℕ × Staff)
create_shop_application applicant store_name staff = do
  fail_if (store_name == 0) name_required
  let id = staff.next_id
  ok (
    id,
    record staff {
      applications =
          record {
            id = id;
            applicant = applicant;
            status = pending;
            reviewer = none;
            created_store_id = none;
          }
          ∷ staff.applications;
      next_id = id + 1;
    },
  )

abbrev pub is_application : ℕ → ShopApplication → Bool
is_application id a = a.id == id

abbrev pub is_pending_status : ApplicationStatus → Bool
is_pending_status pending = true
is_pending_status _ = false

abbrev pub approve_row : ℕ → ℕ → ShopApplication → ShopApplication
approve_row reviewer store a = record a {
  status = approved;
  reviewer = some reviewer;
  created_store_id = some store;
}

abbrev pub open_store : ℕ → ℕ → List Member → Staff → Staff
open_store app reviewer members staff = record staff {
  members = members;
  applications =
      update_where (is_application app) (approve_row reviewer staff.next_id) staff.applications;
  stores = staff.next_id ∷ staff.stores;
  next_id = staff.next_id + 1;
}

abbrev pub approve_found : ℕ → ℕ → Option ShopApplication → Staff → Staffed (ℕ × Staff)
approve_found app reviewer none staff = err no_rows
approve_found app reviewer (some a) staff = do
  fail_if (not (is_pending_status a.status)) not_pending
  let store = staff.next_id
  members ← insert_member store a.applicant owner (demote store staff.members)
  ok (store, open_store app reviewer members staff)

unfoldable pub approve_shop_application : ℕ → ℕ → Staff → Staffed (ℕ × Staff)
unfolding insert_member demote
approve_shop_application app reviewer staff =
    approve_found app reviewer (find? (is_application app) staff.applications) staff

abbrev pub is_open_application : ℕ → ShopApplication → Bool
is_open_application id a = is_application id a && is_pending_status a.status

abbrev pub reject_row : ℕ → ShopApplication → ShopApplication
reject_row reviewer a = record a { status = rejected; reviewer = some reviewer }

unfoldable pub reject_shop_application : ℕ → ℕ → Staff → Staffed Staff
reject_shop_application app reviewer staff = do
  fail_if (count (is_open_application app) staff.applications == 0) not_pending
  ok (record staff {
    applications = update_where (is_open_application app) (reject_row reviewer) staff.applications;
  })

unfoldable pub create_shop_join_request : ℕ → ℕ → Role → Staff → ℕ × Staff
create_shop_join_request store applicant role staff = (
  staff.next_id,
  record staff {
    joins =
        record {
          id = staff.next_id;
          store_id = store;
          applicant = applicant;
          requested_role = role;
          status = pending;
          reviewer = none;
        }
        ∷ staff.joins;
    next_id = staff.next_id + 1;
  },
)

abbrev pub is_join : ℕ → JoinRequest → Bool
is_join id r = r.id == id

abbrev pub approve_join_row : ℕ → JoinRequest → JoinRequest
approve_join_row reviewer r = record r { status = approved; reviewer = some reviewer }

abbrev pub approve_join_found : ℕ → ℕ → Option JoinRequest → Staff → Staffed Staff
approve_join_found req reviewer none staff = err no_rows
approve_join_found req reviewer (some r) staff = do
  fail_if (not (is_pending_status r.status)) not_pending
  members ←
      insert_member r.store_id r.applicant r.requested_role
        (demote_for r.requested_role r.store_id staff.members)
  ok (record staff {
    members = members;
    joins = update_where (is_join req) (approve_join_row reviewer) staff.joins;
  })

unfoldable pub approve_shop_join_request : ℕ → ℕ → Staff → Staffed Staff
unfolding insert_member demote
approve_shop_join_request req reviewer staff =
    approve_join_found req reviewer (find? (is_join req) staff.joins) staff

abbrev pub is_open_join : ℕ → JoinRequest → Bool
is_open_join id r = is_join id r && is_pending_status r.status

abbrev pub reject_join_row : ℕ → JoinRequest → JoinRequest
reject_join_row reviewer r = record r { status = rejected; reviewer = some reviewer }

unfoldable pub reject_shop_join_request : ℕ → ℕ → Staff → Staffed Staff
reject_shop_join_request req reviewer staff = do
  fail_if (count (is_open_join req) staff.joins == 0) not_pending
  ok (record staff {
    joins = update_where (is_open_join req) (reject_join_row reviewer) staff.joins;
  })
