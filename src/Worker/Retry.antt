-- ===== src/Worker/Retry.antt =====
-- internal/worker/worker.go: an event that cannot be handled is given up.
use dishflow_glm.Prelude.{
  ℕ, ◌+◌, ◌*◌, ◌≤◌, leb, ◌≡◌, if◌then◌else◌, true, Option, some, List, [], ◌∷◌, err,
}
use dishflow_glm.Store.{Db, OutboxRow, TradeError}
use dishflow_glm.Worker.Queue.{second, is_pending_row, is_past, bump_row}
use dishflow_glm.Worker.Outbox.{Surroundings, handle_event, process_outbox}

-- The rounds of the worker at some instants.
unfoldable pub rounds : Surroundings → List ℕ → Db → Db
unfolding process_outbox
rounds env [] db = db
rounds env (now ∷ later) db = rounds env later (process_outbox env now db)

-- The tables with this outbox.
abbrev pub with_outbox : Db → List OutboxRow → Db
with_outbox db rows = record db { outbox = rows }

-- Ten minutes at least from one round to the next, which is the longest delay.
abbrev pub IsSpaced : List ℕ → Type 0
IsSpaced [] = Unit
IsSpaced (now ∷ []) = Unit
IsSpaced (now ∷ next ∷ later) = (now + 600 * second ≤ next) × IsSpaced (next ∷ later)

abbrev pub IsPastFirst : Option ℕ → List ℕ → Type 0
IsPastFirst at [] = Unit
IsPastFirst at (now ∷ later) = is_past now at ≡ true

-- The handler of the row's event returns an error, whatever else is in the outbox.
abbrev pub Fails : Surroundings → Db → OutboxRow → Type 0
Fails env db row =
    (now : ℕ) (rows : List OutboxRow)
    → (e : TradeError) × (handle_event env now row.event row.store_id row.aggregate_id
          (with_outbox db rows)
        ≡ err e)

abbrev postponed : ℕ → OutboxRow → OutboxRow
postponed now row = record row { next_attempt_at = some (now + 300 * second) }

abbrev failed_at : ℕ → OutboxRow → OutboxRow
failed_at now row = bump_row now row.attempts (postponed now row)

-- The row after its rounds.
pub record IsTried (id tries : ℕ) (r : OutboxRow) : Type 0 where
  pub same : r.id ≡ id
  pub waits : is_pending_row r ≡ leb tries 20
  pub tried : r.attempts ≡ (if leb tries 20 then tries else 21)
