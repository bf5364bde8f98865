-- ===== src/Purchases/Moves.antt =====
-- internal/materials/store.go: the moves of a purchase list, with the version that the caller has seen.
use dishflow_glm.Prelude.{
  ℕ, ◌==◌, ◌+◌, Bool, true, false, not, ◌&&◌, ◌||◌, Option, none, some, ◌∷◌, ℤ, pos, ltb_ℤ, ok, err,
  ◌>>=◌, ◌>>◌, fail_if, find?, update_where,
}
use dishflow_glm.Purchases.Lists.{
  ListStatus, PurchaseList, Purchasing, Purchased, is_list, draft, submitted, printed, completed,
  void, no_rows, version_conflict, state_conflict, check_violation,
}

abbrev pub same_status : ListStatus → ListStatus → Bool
same_status draft draft = true
same_status submitted submitted = true
same_status printed printed = true
same_status completed completed = true
same_status void void = true
same_status _ _ = false

abbrev pub is_list_of : ℕ → ℕ → PurchaseList → Bool
is_list_of store id l = (l.id == id) && (l.store_id == store)

abbrev pub set_status : ListStatus → PurchaseList → PurchaseList
set_status to l = record l { status = to; version = l.version + 1 }

abbrev pub move_list : ℕ → ListStatus → Purchasing → Purchasing
move_list id to p = record p { lists = update_where (is_list id) (set_status to) p.lists }

abbrev pub lock_found :
    ℕ → ℕ → ListStatus → ListStatus → Option PurchaseList → Purchasing → Purchased Purchasing
lock_found id expected to from none p = err no_rows
lock_found id expected to from (some l) p = do
  fail_if (not (l.version == expected)) version_conflict
  fail_if (not (same_status l.status from)) state_conflict
  ok (move_list id to p)

unfoldable pub lock_transition :
    ℕ → ℕ → ℕ → ListStatus → ListStatus → Purchasing → Purchased Purchasing
lock_transition store id expected to from p =
    lock_found id expected to from (find? (is_list_of store id) p.lists) p

abbrev pub is_over : ListStatus → Bool
is_over s = same_status s completed || same_status s void

abbrev pub lock_open : ℕ → ℕ → ListStatus → Option PurchaseList → Purchasing → Purchased Purchasing
lock_open id expected to none p = err no_rows
lock_open id expected to (some l) p = do
  fail_if (not (l.version == expected)) version_conflict
  fail_if (is_over l.status) state_conflict
  ok (move_list id to p)

unfoldable pub lock_transition_not_final :
    ℕ → ℕ → ℕ → ListStatus → Purchasing → Purchased Purchasing
lock_transition_not_final store id expected to p =
    lock_open id expected to (find? (is_list_of store id) p.lists) p

abbrev pub log_event : ℕ → ℕ → Option ListStatus → ListStatus → ℕ → Purchasing → Purchasing
log_event store id from to user p = record p {
  events =
      record {
        purchase_list_id = id;
        store_id = store;
        from_status = from;
        to_status = to;
        actor = user;
      }
      ∷ p.events;
}

unfoldable pub transition_list :
    ℕ → ℕ → ℕ → ℕ → ListStatus → ListStatus → Purchasing → Purchased Purchasing
unfolding lock_transition
transition_list store id user expected to from p = do
  moved ← lock_transition store id expected to from p
  ok (log_event store id (some from) to user moved)

unfoldable pub submit_list : ℕ → ℕ → ℕ → ℕ → Purchasing → Purchased Purchasing
unfolding transition_list
submit_list store id user expected p = transition_list store id user expected submitted draft p

abbrev pub change_list : ℕ → (PurchaseList → PurchaseList) → Purchasing → Purchasing
change_list id f p = record p { lists = update_where (is_list id) f p.lists }

abbrev pub count_print : PurchaseList → PurchaseList
count_print l = record l { print_count = l.print_count + 1 }

unfoldable pub mark_printed : ℕ → ℕ → ℕ → ℕ → Purchasing → Purchased Purchasing
unfolding lock_transition
mark_printed store id user expected p = do
  moved ← lock_transition store id expected printed submitted p
  ok (log_event store id (some submitted) printed user (change_list id count_print moved))

abbrev pub set_total : ℤ → PurchaseList → PurchaseList
set_total total l = record l { total_amount_cents = total }

unfoldable pub complete_list : ℕ → ℕ → ℕ → ℕ → ℤ → Purchasing → Purchased Purchasing
unfolding lock_transition
complete_list store id user expected total p = do
  moved ← lock_transition store id expected completed printed p
  fail_if (ltb_ℤ total (pos 0)) check_violation
  ok (log_event store id (some printed) completed user (change_list id (set_total total) moved))

abbrev pub set_reason : ℕ → PurchaseList → PurchaseList
set_reason reason l = record l { void_reason = reason }

unfoldable pub void_list : ℕ → ℕ → ℕ → ℕ → ℕ → Purchasing → Purchased Purchasing
unfolding lock_transition_not_final
void_list store id user expected reason p = do
  moved ← lock_transition_not_final store id expected void p
  ok (log_event store id none void user (change_list id (set_reason reason) moved))
