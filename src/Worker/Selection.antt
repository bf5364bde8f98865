-- ===== src/Worker/Selection.antt =====
-- internal/worker/worker.go: the batch of `processOutbox`, and an UPDATE of one row of the outbox.
use dishflow_glm.Prelude.{
  ℕ, zero, suc, ◌≡◌, refl, ◌∙◌, arith, true, false, List, [], ◌∷◌, ◌++◌, foldl, All, count,
  update_where,
}
use dishflow_glm.Store.{OutboxRow}
use dishflow_glm.Worker.Queue.{is_pending_row, is_due, is_row, take_due, select_due}

-- Rows that the worker is done with.
abbrev pub IsOther : ℕ → OutboxRow → Type 0
IsOther id r = (is_row id r ≡ false) × (is_pending_row r ≡ false)

none_due : (now id : ℕ) (rs : List OutboxRow) → All (IsOther id) rs → count (is_due now) rs ≡ 0
none_due now id [] h = refl
none_due now id (r ∷ rs) ((_, off), h) = rw off (omega (arith, none_due now id rs h))

update_none :
    (id : ℕ) (f : OutboxRow → OutboxRow) (rs : List OutboxRow)
    → All (IsOther id) rs
    → update_where (is_row id) f rs ≡ rs
update_none id f [] h = refl
update_none id f (r ∷ rs) ((other, _), h) = rw (other, update_none id f rs h) refl

pub update_one :
    (id : ℕ) (f : OutboxRow → OutboxRow) (before : List OutboxRow) (row : OutboxRow)
    (after : List OutboxRow)
    → All (IsOther id) before
    → All (IsOther id) after
    → is_row id row ≡ true
    → update_where (is_row id) f (before ++ row ∷ after) ≡ before ++ f row ∷ after
update_one id f [] row after b a this = rw (this, update_none id f after a) refl
update_one id f (r ∷ before) row after ((other, _), b) a this =
    rw (other, update_one id f before row after b a this) refl

take_due-skip :
    (now limit : ℕ) (row : OutboxRow) (rows : List OutboxRow)
    → is_due now row ≡ false
    → take_due now limit (row ∷ rows) ≡ take_due now limit rows
unfolding take_due
take_due-skip now zero row rows h = refl
take_due-skip now (suc limit) row rows h = rw (h, take_due) refl

-- The oldest rows, which are read first, where none of the newer ones is due.
pub take_due-foldl :
    (now limit : ℕ) (rows acc : List OutboxRow)
    → count (is_due now) rows ≡ 0
    → take_due now limit (foldl (λ acc row. row ∷ acc) acc rows) ≡ take_due now limit acc
take_due-foldl now limit [] acc h = refl
take_due-foldl now limit (r ∷ rows) acc h =
    take_due-foldl now limit rows (r ∷ acc) (omega arith)
    ∙ take_due-skip now limit r acc (ground arith)

foldl-append :
    (xs ys acc : List OutboxRow)
    → foldl (λ acc row. row ∷ acc) acc (xs ++ ys)
      ≡ foldl (λ acc row. row ∷ acc) (foldl (λ acc row. row ∷ acc) acc xs) ys
foldl-append [] ys acc = refl
foldl-append (x ∷ xs) ys acc = foldl-append xs ys (x ∷ acc)

take_due-none : (now limit : ℕ) → take_due now limit [] ≡ []
unfolding take_due
take_due-none now zero = refl
take_due-none now (suc limit) = refl

module _ (before : List OutboxRow) (row : OutboxRow) (after : List OutboxRow)
    (b : All (IsOther row.id) before) (a : All (IsOther row.id) after) where
  past_others : (now limit : ℕ) → take_due now limit (foldl (λ acc r. r ∷ acc) [] before) ≡ []
  past_others now limit =
      take_due-foldl now limit before [] (none_due now row.id before b) ∙ take_due-none now limit

  pub select_due-one :
      (now : ℕ) → is_due now row ≡ true → select_due now (before ++ row ∷ after) ≡ row ∷ []
  unfolding select_due take_due
  select_due-one now due = rw (foldl-append before (row ∷ after) []) (
      take_due-foldl now 50 after (row ∷ foldl (λ acc r. r ∷ acc) [] before)
        (none_due now row.id after a)
      ∙ rw (due, take_due) (rw (past_others now 49) refl))

  pub select_due-none :
      (now : ℕ) → is_pending_row row ≡ false → select_due now (before ++ row ∷ after) ≡ []
  unfolding select_due
  select_due-none now off =
      let not_due : is_due now row ≡ false = rw off refl in
      rw (foldl-append before (row ∷ after) []) (
        take_due-foldl now 50 after (row ∷ foldl (λ acc r. r ∷ acc) [] before)
          (none_due now row.id after a)
        ∙ take_due-skip now 50 row (foldl (λ acc r. r ∷ acc) [] before) not_due
        ∙ past_others now 50)
