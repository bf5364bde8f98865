-- ===== src/Worker/Queue.antt =====
-- internal/worker/worker.go: the rows of the outbox: `markOutboxSent`, `bumpOutboxAttempt`, and the batch that
-- `processOutbox` takes. Instants are numbers of nanoseconds.
use dishflow_glm.Prelude.{
  ℕ, zero, suc, ◌+◌, ◌*◌, ◌^◌, ltb, leb, ◌==◌, if◌then◌else◌, Bool, true, false, ◌&&◌, Option, none,
  some, List, [], ◌∷◌, foldl, update_where,
}
use dishflow_glm.Store.{Db, OutboxRow, OutboxStatus, pending, sent}

abbrev pub second : ℕ
second = 1000000000

-- Exponential backoff, at most ten minutes.
unfoldable pub backoff : ℕ → ℕ
backoff attempts =
    let delay = 2 ^ attempts * second in if ltb (600 * second) delay then 600 * second else delay

abbrev pub is_pending_row : OutboxRow → Bool
is_pending_row row = elim row.status [ pending ↦ true | _ ↦ false ]

abbrev pub is_row : ℕ → OutboxRow → Bool
is_row id row = row.id == id

abbrev pub send_row : OutboxRow → OutboxRow
send_row row = record row { status = sent }

unfoldable pub mark_outbox_sent : ℕ → Db → Db
mark_outbox_sent id db = record db { outbox = update_where (is_row id) send_row db.outbox }

-- The two UPDATEs after a failure; `attempts` is the number that the batch has read.
unfoldable pub bump_row : ℕ → ℕ → OutboxRow → OutboxRow
unfolding backoff
bump_row now attempts row =
    if leb 20 attempts
    then record row { status = dishflow_glm.Store.OutboxStatus.failed; attempts = attempts + 1 }
    else record row { attempts = attempts + 1; next_attempt_at = some (now + backoff attempts) }

unfoldable pub bump_outbox_attempt : ℕ → ℕ → ℕ → Db → Db
unfolding bump_row
bump_outbox_attempt now id attempts db = record db {
  outbox = update_where (is_row id) (bump_row now attempts) db.outbox;
}

abbrev pub is_past : ℕ → Option ℕ → Bool
is_past now none = true
is_past now (some t) = leb t now

-- `status='PENDING' AND (next_attempt_at IS NULL OR next_attempt_at <= now)`
abbrev pub is_due : ℕ → OutboxRow → Bool
is_due now row = is_pending_row row && is_past now row.next_attempt_at

unfoldable pub take_due : ℕ → ℕ → List OutboxRow → List OutboxRow
take_due now zero rows = []
take_due now (suc limit) [] = []
take_due now (suc limit) (row ∷ rows) = elim (is_due now row) [
  | true ↦ row ∷ take_due now limit rows
  | false ↦ take_due now (suc limit) rows
]

-- `ORDER BY id ASC LIMIT 50`: the list has the newest row, with the largest number, first.
unfoldable pub select_due : ℕ → List OutboxRow → List OutboxRow
unfolding take_due
select_due now rows = take_due now 50 (foldl (λ acc row. row ∷ acc) [] rows)

-- The rows of the batch are put off for five minutes.
unfoldable pub lock_batch : ℕ → List OutboxRow → Db → Db
lock_batch now [] db = db
lock_batch now (row ∷ rows) db = lock_batch now rows (record db {
  outbox =
      update_where (is_row row.id) (λ r. record r { next_attempt_at = some (now + 300 * second) })
        db.outbox;
})
