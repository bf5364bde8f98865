-- ===== src/Tests/Staff.antt =====
-- internal/platform: an application is approved, and the store gets another owner.
use dishflow_glm.Prelude.{ℕ, ◌≡◌, refl, arith, none, [], ◌∷◌, ok, err}
use dishflow_glm.Staff.Members.{manager, owner, Staff, Staffed, pending, add_member}
use dishflow_glm.Staff.Applications.{approve_shop_application}
use dishflow_glm.Staff.Owner.{OneOwner}
use dishflow_glm.Staff.History.{StaffHistory, start, then_, approves, adds, StaffHistory-OneOwner}

abbrev waiting : Staff
waiting = record {
  members = [];
  applications =
      record { id = 1; applicant = 8; status = pending; reviewer = none; created_store_id = none }
      ∷ [];
  joins = [];
  stores = [];
  next_id = 2;
}

abbrev or_first : {A : Type 0} → A → Staffed A → A
or_first a (ok b) = b
or_first a (err e) = a

abbrev opened : ℕ × Staff
unfolding approve_shop_application
opened = or_first (0, waiting) (approve_shop_application 1 9 waiting)

abbrev handed_over : Staff
unfolding approve_shop_application add_member
handed_over = record opened.1 { members = or_first [] (add_member 2 11 owner opened.1.members) }

handed_over_members :
    handed_over.members
    ≡ record { store_id = 2; admin_user_id = 11; role = owner }
      ∷ record { store_id = 2; admin_user_id = 8; role = manager }
      ∷ []
unfolding approve_shop_application add_member
handed_over_members = refl

history : StaffHistory waiting handed_over
unfolding approve_shop_application add_member
history = then_ (then_ start (approves 1 9 2 refl)) (adds 2 11 owner refl)

waiting-OneOwner : OneOwner waiting.members
waiting-OneOwner = record { owners = λ s. omega arith; members = λ s u. omega arith }

StaffHistory-OneOwner_example : OneOwner handed_over.members
StaffHistory-OneOwner_example = StaffHistory-OneOwner waiting-OneOwner history
