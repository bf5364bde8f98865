-- ===== src/Tests/Trading.antt =====
-- internal/orders and internal/worker: a day opens, an order is created, paid, accepted and refunded.
use dishflow_glm.Prelude.{
  ℕ, ℤ, pos, ◌+◌, ◌==◌, ◌≡◌, ◌≢◌, refl, arith, if◌then◌else◌, true, false, none, some, [], ◌∷◌, ok,
  err,
}
use dishflow_glm.Pricing.Types.{pickup}
use dishflow_glm.Store.{
  Db, Order, cancelled, customer, accepted, staff, system, version_conflict, pickup_slot_full,
}
use dishflow_glm.Orders.Reserve.{Clock, Traded, reserve_slot_at}
use dishflow_glm.Orders.Create.{Quote, LineItemSnapshot, CreateInput, create, create_new}
use dishflow_glm.Orders.Replay.{create_replay}
use dishflow_glm.Orders.Cancel.{CancelInput, CancelResult, no_trigger, load_order, cancel}
use dishflow_glm.Orders.StateMachine.{can_transition}
use dishflow_glm.Orders.Transition.{TransitionInput, transition}
use dishflow_glm.Orders.Lock.{transition_lem, transition_race}
use dishflow_glm.Orders.Refusals.{create_new_duplicate, reserve_slot_at_once}
use dishflow_glm.Orders.Release.{find_order, release_inventory}
use dishflow_glm.Life.Rows.{Keyed}
use dishflow_glm.Life.Create.{Lives}
use dishflow_glm.Life.History.{History-Lives, History-final}
use dishflow_glm.Capacity.Updates.{Bounded}
use dishflow_glm.Capacity.History.{History-Bounded}
use dishflow_glm.Worker.Payment.{on_payment_success}
use dishflow_glm.Inventory.{ensure_daily}
use dishflow_glm.Tests.{empty}
use dishflow_glm.Stock.Books.{Books}
use dishflow_glm.Stock.Sell.{on_payment_success_total}
use dishflow_glm.Stock.Release.{release_inventory_twice}
use dishflow_glm.Stock.History.{
  History, start, then_, opens_day, creates, cancels, pays, moves, History-Books,
}

empty-Books : Books empty
empty-Books = record { agree = λ s k t. (refl, refl) }

abbrev clock : Clock
clock = record { parse_rfc3339 = λ t. if t == 99 then none else some t; parse_local = λ t. none }

abbrev line : ℕ → ℤ → LineItemSnapshot
line sku quantity = record {
  sku_id = sku;
  product_id = 1;
  unit_price_cents = pos 1000;
  quantity = quantity;
  packaging_fee_cents = pos 100;
  line_amount_cents = pos 2000;
}

abbrev quote : Quote
quote = record {
  token = 77;
  scenario = pickup;
  scheduled_for = 600;
  item_amount_cents = pos 2000;
  packaging_fee_cents = pos 200;
  discount_cents = pos 300;
  payable_cents = pos 1900;
  promotion_id = 1;
  customer_coupon_id = 0;
  expires_at = 500;
}

abbrev request : CreateInput
request = record {
  store_id = 1;
  customer_id = 40;
  quote = quote;
  cart = line 5 (pos 2) ∷ [];
  remark = 0;
  table_id = 0;
  table_label = 0;
  idempotency_key = 31;
  business_date = 20;
}

abbrev opened : Db
unfolding ensure_daily
opened = ensure_daily 1 5 20 10 empty

abbrev or_before : {A : Type 0} → A → Traded A → A
or_before a (ok b) = b
or_before a (err e) = a

abbrev created : Db
unfolding create
created = (or_before (0, opened) (create clock 400 12345 request opened)).1

create-opened : create clock 400 12345 request opened ≡ ok (1, created)
unfolding create opened
create-opened = refl

abbrev paid_up : Db
unfolding on_payment_success
paid_up = or_before created (on_payment_success 410 1 1 created)

pay_created : on_payment_success 410 1 1 created ≡ ok paid_up
unfolding on_payment_success created opened
pay_created = refl

abbrev accept : TransitionInput
accept = record {
  store_id = 1;
  order_id = 1;
  to = accepted;
  actor = staff;
  actor_user_id = 3;
  expected_version = 2;
}

abbrev accepted_order : Order
accepted_order = record {
  id = 1;
  store_id = 1;
  customer_id = 40;
  order_no = 12345;
  pickup_no = 1;
  business_date = 20;
  scenario = pickup;
  dining_table_id = none;
  table_label = 0;
  is_scheduled = true;
  scheduled_for = some 600;
  item_amount_cents = pos 2000;
  packaging_fee_cents = pos 200;
  discount_cents = pos 300;
  payable_cents = pos 1900;
  paid_cents = pos 1900;
  refunded_cents = pos 0;
  promotion_id = some 1;
  customer_coupon_id = none;
  remark = 0;
  state = accepted;
  version = 3;
  quote_token = 77;
  expires_at = 500;
  released_at = none;
  paid_at = some 410;
  accepted_at = some 420;
  completed_at = none;
  cancelled_at = none;
}

abbrev at_work : Db
unfolding transition
at_work = (or_before (accepted_order, paid_up) (transition 420 accept paid_up)).1

transition_paid : transition 420 accept paid_up ≡ ok (accepted_order, at_work)
unfolding transition create on_payment_success ensure_daily
transition_paid = refl

day : History empty at_work
unfolding ensure_daily
day =
    then_
      (then_
        (then_ (then_ start (opens_day 1 5 20 10 refl))
          (creates clock 400 12345 request 1 create-opened))
        (pays 410 1 1 pay_created))
      (moves 420 accept accepted_order transition_paid)

History-Books_example : Books at_work
History-Books_example = History-Books empty-Books day

created-Books : Books created
unfolding ensure_daily opened created
created-Books = History-Books empty-Books (
    then_ (then_ start (opens_day 1 5 20 10 refl))
      (creates clock 400 12345 request 1 create-opened))

on_payment_success_total_example : (db' : Db) × (on_payment_success 410 1 1 created ≡ ok db')
on_payment_success_total_example = on_payment_success_total 410 1 1 created created-Books

create_replay_example : create clock 480 54321 request created ≡ ok (1, created)
unfolding opened
create_replay_example =
    create_replay clock 400 480 12345 54321 request opened (omega arith) create-opened (omega arith)

release_inventory_twice_example :
    let once = release_inventory 1 paid_up in
    let twice = release_inventory 1 once in
    (twice.daily 1 5 20 ≡ once.daily 1 5 20) × (twice.reservations ≡ once.reservations)
release_inventory_twice_example = release_inventory_twice 1 paid_up 1 5 20

transition_lem_example :
    (o : Order) × (load_order 1 1 paid_up ≡ ok o)
    × (o.version ≡ 2)
    × (can_transition o.state accepted staff ≡ true)
    × (load_order 1 1 at_work ≡ ok accepted_order)
    × (accepted_order.state ≡ accepted)
    × (accepted_order.version ≡ 2 + 1)
transition_lem_example = transition_lem 420 accept paid_up transition_paid

transition_race_example :
    transition 430 (record accept { actor = system }) at_work ≡ err version_conflict
transition_race_example =
    transition_race 420 430 accept (record accept { actor = system }) paid_up transition_paid refl
      refl refl

create_new_duplicate_example :
    create_new clock 5 (record request { cart = line 5 (pos 1) ∷ line 5 (pos 2) ∷ [] }) opened
    ≢ ok (1, created)
create_new_duplicate_example =
    create_new_duplicate clock 5 (record request { cart = line 5 (pos 1) ∷ line 5 (pos 2) ∷ [] })
      opened [] (line 5 (pos 1)) [] (line 5 (pos 2)) [] 1 created refl refl

reserve_slot_at_once_example :
    (db' : Db) × (reserve_slot_at 1 600 opened ≡ ok db')
    × (reserve_slot_at 1 600 db' ≡ err pickup_slot_full)
unfolding opened
reserve_slot_at_once_example = reserve_slot_at_once 1 600 opened refl

empty-Keyed : Keyed empty
empty-Keyed = record { distinct = tt; fresh = tt }

History-Lives_example : Lives empty at_work
History-Lives_example = History-Lives empty-Keyed day

empty-Bounded : Bounded empty
empty-Bounded = record { fit = λ s t. tt }

History-Bounded_example : Bounded at_work
History-Bounded_example = History-Bounded empty-Bounded day

abbrev change_of_mind : CancelInput
change_of_mind = record { store_id = 1; order_id = 1; customer_id = 40; actor = customer }

abbrev done : CancelResult
done = record { new_state = cancelled; need_refund = false; refund_trigger_kind = no_trigger }

abbrev given_up : Db
unfolding cancel
given_up = (or_before (done, created) (cancel 405 change_of_mind created)).1

cancel-created : cancel 405 change_of_mind created ≡ ok (done, given_up)
unfolding cancel created opened
cancel-created = refl

abbrev given_up_order : Order
given_up_order = record accepted_order {
  state = cancelled;
  version = 2;
  paid_cents = pos 0;
  released_at = some 405;
  paid_at = none;
  accepted_at = none;
  cancelled_at = some 405;
}

given_up_found : find_order 1 given_up.orders ≡ some given_up_order
unfolding given_up created opened find_order
given_up_found = refl

given_up-Lives : Lives empty given_up
unfolding ensure_daily opened
given_up-Lives = History-Lives empty-Keyed (
    then_
      (then_ (then_ start (opens_day 1 5 20 10 refl))
        (creates clock 400 12345 request 1 create-opened))
      (cancels 405 change_of_mind done cancel-created))

abbrev late_payment : Db
unfolding on_payment_success
late_payment = or_before given_up (on_payment_success 410 1 1 given_up)

pay_given_up : on_payment_success 410 1 1 given_up ≡ ok late_payment
unfolding on_payment_success late_payment given_up created opened
pay_given_up = refl

-- A payment that arrives after the cancellation.
History-final_example :
    (o' : Order) × (find_order 1 late_payment.orders ≡ some o') × (o'.state ≡ given_up_order.state)
History-final_example =
    History-final 1 given_up_order given_up-Lives.keyed (then_ start (pays 410 1 1 pay_given_up))
      given_up_found refl
