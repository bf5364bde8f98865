-- ===== src/Tests/Outbox.antt =====
-- internal/worker: a payment is delivered, and an event that fails for ever.
use dishflow_glm.Prelude.{ℕ, pos, ◌+◌, ◌≡◌, refl, none, some, List, [], ◌∷◌, ◌++◌}
use dishflow_glm.Store.{Db, OutboxRow, payment_success, refund_success, pending, sent}
use dishflow_glm.Worker.Outbox.{Surroundings, process_outbox}
use dishflow_glm.Worker.Retry.{rounds, with_outbox}
use dishflow_glm.Stock.Books.{Books}
use dishflow_glm.Stock.Outbox.{process_outbox-Books}
use dishflow_glm.Tests.{empty}

abbrev surroundings : Surroundings
surroundings = record {
  points_per_yuan = λ s. some (pos 1);
  aggregate_order_id = λ s r. 1;
  earn_pay = λ o. 1000 + o;
  reverse_refund = λ r. 2000 + r;
}

abbrev event : OutboxRow
event = record {
  id = 1;
  store_id = 1;
  event = payment_success;
  aggregate_id = 1;
  status = pending;
  attempts = 0;
  next_attempt_at = none;
}

abbrev waiting : Db
waiting = record empty { outbox = event ∷ []; next_id = 2 }

waiting-Books : Books waiting
waiting-Books = record { agree = λ s k t. (refl, refl) }

process_outbox-Books_example : Books (process_outbox surroundings 100 waiting)
process_outbox-Books_example = process_outbox-Books surroundings 100 waiting waiting-Books

-- The refund of an order that is not there.
abbrev refund : OutboxRow
refund = record event { id = 2; event = refund_success 7 0 }

abbrev sent_row : OutboxRow
sent_row = record event { status = sent }

abbrev two_rounds : List ℕ
two_rounds = 100 ∷ 600000000100 ∷ []

abbrev tried_twice : OutboxRow
tried_twice = record refund { attempts = 2; next_attempt_at = some 602000000100 }

rounds-two_rounds :
    (rounds surroundings two_rounds (with_outbox empty ([] ++ refund ∷ sent_row ∷ []))).outbox
    ≡ tried_twice ∷ sent_row ∷ []
unfolding rounds
rounds-two_rounds = refl
