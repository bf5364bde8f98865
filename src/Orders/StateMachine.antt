-- ===== src/Orders/StateMachine.antt =====
-- internal/orders/statemachine.go: the table of transitions and `CanTransition`.
use dishflow_glm.Prelude.{if◌then◌else◌, Bool, true, false, ◌||◌, Option, none, some}
use dishflow_glm.Store.{
  State, pending_payment, paid, accepted, preparing, ready, completed, cancelled, refunding,
  cancel_requested, Actor, customer, staff, system,
}

-- The map `transitions`.
unfoldable pub transitions : State → State → Option Actor
transitions paid accepted = some staff
transitions paid cancelled = some system
transitions paid refunding = some system
transitions accepted preparing = some staff
transitions accepted cancel_requested = some customer
transitions accepted refunding = some staff
transitions cancel_requested accepted = some staff
transitions cancel_requested refunding = some staff
transitions preparing ready = some staff
transitions preparing refunding = some staff
transitions ready completed = some staff
transitions ready refunding = some staff
transitions completed refunding = some staff
transitions _ _ = none

abbrev pub is_customer : Actor → Bool
is_customer customer = true
is_customer _ = false

abbrev pub is_staff : Actor → Bool
is_staff staff = true
is_staff _ = false

abbrev pub is_system : Actor → Bool
is_system system = true
is_system _ = false

abbrev pub is_unpaid_cancel : State → State → Bool
is_unpaid_cancel pending_payment cancelled = true
is_unpaid_cancel _ _ = false

-- The last tests of `CanTransition`, on what the table allows.
abbrev pub is_allowed : Option Actor → Actor → Bool
is_allowed none actor = false
is_allowed (some staff) actor = is_staff actor || is_system actor
is_allowed (some _) actor = true

unfoldable pub can_transition : State → State → Actor → Bool
unfolding transitions
can_transition from to actor =
    if is_unpaid_cancel from to
    then is_customer actor || is_system actor
    else is_allowed (transitions from to) actor
