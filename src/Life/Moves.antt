-- ===== src/Life/Moves.antt =====
-- internal/orders/statemachine.go: the documented moves of an order, as a relation, and `CanTransition`.
use dishflow_glm.Prelude.{◌≡◌, refl, Bool, true, false}
use dishflow_glm.Store.{
  State, pending_payment, paid, accepted, preparing, ready, completed, cancelled, refunding,
  refunded, cancel_requested, Actor,
}
use dishflow_glm.Orders.StateMachine.{can_transition}

-- The main chain, and the branches of cancellation and refund.
pub data Move : State → State → Type 0 where
  pay : Move pending_payment paid
  give_up : Move pending_payment cancelled
  accept : Move paid accepted
  prepare : Move accepted preparing
  finish : Move preparing ready
  hand_over : Move ready completed
  close : Move paid cancelled
  request_cancel : Move accepted cancel_requested
  reject_request : Move cancel_requested accepted
  refund_requested : Move cancel_requested refunding
  refund_paid : Move paid refunding
  refund_accepted : Move accepted refunding
  refund_preparing : Move preparing refunding
  refund_ready : Move ready refunding
  refund_completed : Move completed refunding
  refund_done : Move refunding refunded

-- Any number of moves.
pub data Moves (s : State) : State → Type 0 where
  stay : Moves s s
  move : {t u : State} → Moves s t → Move t u → Moves s u

pub Moves-trans : {s t u : State} → Moves s t → Moves t u → Moves s u
Moves-trans m stay = m
Moves-trans m (move n step) = move (Moves-trans m n) step

-- What `CanTransition` allows, to whomever, is a documented move.
pub can_transition-Move : (s t : State) (a : Actor) → can_transition s t a ≡ true → Move s t
unfolding can_transition
can_transition-Move pending_payment cancelled a h = give_up
can_transition-Move paid accepted a h = accept
can_transition-Move paid cancelled a h = close
can_transition-Move paid refunding a h = refund_paid
can_transition-Move accepted preparing a h = prepare
can_transition-Move accepted cancel_requested a h = request_cancel
can_transition-Move accepted refunding a h = refund_accepted
can_transition-Move cancel_requested accepted a h = reject_request
can_transition-Move cancel_requested refunding a h = refund_requested
can_transition-Move preparing ready a h = finish
can_transition-Move preparing refunding a h = refund_preparing
can_transition-Move ready completed a h = hand_over
can_transition-Move ready refunding a h = refund_ready
can_transition-Move completed refunding a h = refund_completed
can_transition-Move s t a h = absurd (cc)

abbrev pub is_final : State → Bool
is_final cancelled = true
is_final refunded = true
is_final _ = false

Move-is_final : {s t : State} → Move s t → is_final s ≡ false
Move-is_final pay = refl
Move-is_final give_up = refl
Move-is_final accept = refl
Move-is_final prepare = refl
Move-is_final finish = refl
Move-is_final hand_over = refl
Move-is_final close = refl
Move-is_final request_cancel = refl
Move-is_final reject_request = refl
Move-is_final refund_requested = refl
Move-is_final refund_paid = refl
Move-is_final refund_accepted = refl
Move-is_final refund_preparing = refl
Move-is_final refund_ready = refl
Move-is_final refund_completed = refl
Move-is_final refund_done = refl

-- No move leads out of the two final states.
pub Moves-is_final : {s t : State} → Moves s t → is_final s ≡ true → t ≡ s
Moves-is_final stay e = refl
Moves-is_final (move m step) e =
    let same = Moves-is_final m e in
    let open_ = Move-is_final step in absurd (cc (rw same at open_))
