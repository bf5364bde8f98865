-- ===== src/Access/Roles.antt =====
-- internal/authn: the ranks of the roles (session.go), and the guards that stand before the handlers (middleware.go).
use dishflow_glm.Prelude.{ℕ, leb, Bool, false, Option, none, some}
use dishflow_glm.Staff.Members.{Role, staff, manager, owner, Member}
use dishflow_glm.Menu.Rows.{is_set}
use dishflow_glm.Access.Sessions.{AdminUser}

abbrev pub role_rank : Role → ℕ
role_rank owner = 3
role_rank manager = 2
role_rank staff = 1

abbrev pub at_least : Role → Role → Bool
at_least r least = leb (role_rank least) (role_rank r)

abbrev pub require_platform_admin : Option AdminUser → Bool
require_platform_admin none = false
require_platform_admin (some u) = u.is_platform_admin

abbrev pub require_member : Option Member → Bool
require_member m = is_set m

abbrev pub require_role : Role → Option Member → Bool
require_role least none = false
require_role least (some m) = at_least m.role least

abbrev pub current_store_id : Option Member → Option ℕ
current_store_id none = none
current_store_id (some m) = some m.store_id
