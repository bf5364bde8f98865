-- ===== src/Purchases/Keeps.antt =====
-- internal/materials: each operation keeps the log in step with the lists.
use dishflow_glm.Prelude.{
  ℕ, ltb, ◌==◌, ◌≡◌, ◌<◌, refl, sym, arith, true, false, Option, none, some, List, [], ◌∷◌, All,
  All-map, find?, count, update_where-twice, Option-cases, inl, inr, ap, subst, ok, >>=-eq-ok,
  fail_if-eq-ok, ok_inj, ltb_ℤ, leb_ℤ, pos, ℤ,
}
use dishflow_glm.Migrate.Split.{Text, trim_space}
use dishflow_glm.Menu.Rows.{is_blank}
use dishflow_glm.Purchases.Lists.{
  ListStatus, draft, submitted, printed, completed, void, PurchaseList, ListEvent, Purchasing,
  is_list, create_material, create_list, add_item, name_required, duplicate_key, bad_quantity,
  foreign_key, check_violation, is_named, is_numbered, is_material, is_item_for,
}
use dishflow_glm.Purchases.Moves.{
  is_over, is_list_of, set_status, move_list, lock_transition, lock_transition_not_final, log_event,
  change_list, submit_list, mark_printed, complete_list, void_list, transition_list, count_print,
  set_total, set_reason,
}
use dishflow_glm.Purchases.Replay.{
  may_follow, is_event_of, is_print_of, status_after, Replayed, Moves, move-Replayed,
  lock_transition-found, lock_open-found, may_follow-from,
}

-- A move and the change that goes with it, where the moved tables are given.
moved-Replayed :
    (store id user : ℕ) (from : Option ListStatus) (to : ListStatus)
    (f : PurchaseList → PurchaseList) (l : PurchaseList) (p moved : Purchasing)
    → ((x : PurchaseList) → (f x).id ≡ x.id)
    → Moves to (λ x. f (set_status to x))
    → find? (is_list_of store id) p.lists ≡ some l
    → may_follow l.status to ≡ true
    → move_list id to p ≡ moved
    → Replayed p
    → Replayed (log_event store id from to user (change_list id f moved))
moved-Replayed store id user from to f l p moved keeps moves found allowed same r =
    let twice = update_where-twice (is_list id) (set_status to) f p.lists (λ x. refl) in
    let one : Replayed
        (log_event store id from to user (change_list id (λ x. f (set_status to x)) p)) =
      move-Replayed store id user from to (λ x. f (set_status to x)) l p moves found allowed r in
    rw (← same) (
      subst (λ ls. Replayed (log_event store id from to user (record p { lists = ls }))) (sym twice)
        one)

pub submit_list-Replayed :
    (store id user expected : ℕ) (p : Purchasing) {b : Purchasing}
    → Replayed p
    → submit_list store id user expected p ≡ ok b
    → Replayed b
unfolding submit_list transition_list
submit_list-Replayed store id user expected p r h =
    let (moved, locked, made) =
      >>=-eq-ok (lock_transition store id expected submitted draft p) _ h in
    let (l, found, from, same) = lock_transition-found store id expected submitted draft p locked in
    subst Replayed (ok_inj made) (
      rw (← same) (
        move-Replayed store id user (some draft) submitted (set_status submitted) l p
          (record {
            id = λ x. refl;
            status = λ x. refl;
            version = λ x. refl;
            prints = λ x. omega arith;
          })
          found (may_follow-from l.status draft submitted from refl) r))

pub mark_printed-Replayed :
    (store id user expected : ℕ) (p : Purchasing) {b : Purchasing}
    → Replayed p
    → mark_printed store id user expected p ≡ ok b
    → Replayed b
unfolding mark_printed
mark_printed-Replayed store id user expected p r h =
    let (moved, locked, made) =
      >>=-eq-ok (lock_transition store id expected printed submitted p) _ h in
    let (l, found, from, same) =
      lock_transition-found store id expected printed submitted p locked in
    subst Replayed (ok_inj made) (
      moved-Replayed store id user (some submitted) printed count_print l p moved (λ x. refl)
        (record { id = λ x. refl; status = λ x. refl; version = λ x. refl; prints = λ x. refl })
        found (may_follow-from l.status submitted printed from refl) same r)

pub complete_list-Replayed :
    (store id user expected : ℕ) (total : ℤ) (p : Purchasing) {b : Purchasing}
    → Replayed p
    → complete_list store id user expected total p ≡ ok b
    → Replayed b
unfolding complete_list
complete_list-Replayed store id user expected total p r h =
    let (moved, locked, checked) =
      >>=-eq-ok (lock_transition store id expected completed printed p) _ h in
    let (l, found, from, same) =
      lock_transition-found store id expected completed printed p locked in
    let made = (fail_if-eq-ok (ltb_ℤ total (pos 0)) check_violation _ checked).1 in
    subst Replayed (ok_inj made) (
      moved-Replayed store id user (some printed) completed (set_total total) l p moved (λ x. refl)
        (record {
          id = λ x. refl;
          status = λ x. refl;
          version = λ x. refl;
          prints = λ x. omega arith;
        })
        found (may_follow-from l.status printed completed from refl) same r)

may_void : (s : ListStatus) → is_over s ≡ false → may_follow s void ≡ true
may_void draft h = refl
may_void submitted h = refl
may_void printed h = refl
may_void completed h = absurd (cc)
may_void void h = absurd (cc)

pub void_list-Replayed :
    (store id user expected reason : ℕ) (p : Purchasing) {b : Purchasing}
    → Replayed p
    → void_list store id user expected reason p ≡ ok b
    → Replayed b
unfolding void_list
void_list-Replayed store id user expected reason p r h =
    let (moved, locked, made) =
      >>=-eq-ok (lock_transition_not_final store id expected void p) _ h in
    let (l, found, live, same) = lock_open-found store id expected void p locked in
    subst Replayed (ok_inj made) (
      moved-Replayed store id user none void (set_reason reason) l p moved (λ x. refl)
        (record {
          id = λ x. refl;
          status = λ x. refl;
          version = λ x. refl;
          prints = λ x. omega arith;
        })
        found (may_void l.status live) same r)

-- A new list, of which the log knows nothing.
unlogged :
    (id : ℕ) (es : List ListEvent)
    → All (λ e. e.purchase_list_id < id) es
    → (status_after id es ≡ draft)
      × (count (is_event_of id) es ≡ 0)
      × (count (is_print_of id) es ≡ 0)
unlogged id [] h = (refl, refl, refl)
unlogged id (e ∷ es) (below, h) =
    let apart : is_event_of id e ≡ false = ground arith in
    let (status, events, prints) = unlogged id es h in
    (rw apart status, rw apart (omega (arith, events)), rw apart (omega (arith, prints)))

pub create_list-Replayed :
    (store list_no business_date title created_by id : ℕ) (p : Purchasing) {b : Purchasing}
    → Replayed p
    → create_list store list_no business_date title created_by p ≡ ok (id, b)
    → Replayed b
unfolding create_list
create_list-Replayed store list_no business_date title created_by id p r h =
    let made =
      (fail_if-eq-ok (ltb 0 (count (is_numbered store list_no) p.lists)) duplicate_key _ h).1 in
    let (status, events, prints) = unlogged p.next_list p.events r.known in
    subst Replayed (ap (λ (x : ℕ × Purchasing). x.1) (ok_inj made)) (record {
      rows = (
        record {
          status = sym status;
          version = omega (arith, events);
          prints = sym prints;
          known = omega arith;
        },
        All-map p.lists
            (λ l t. record {
              status = t.status;
              version = t.version;
              prints = t.prints;
              known = omega (arith, t.known);
            })
            r.rows,
      );
      log = r.log;
      known = All-map p.events (λ e k. omega (arith, k)) r.known;
    })

pub create_material-Replayed :
    (store : ℕ) (name unit category : Text) (id : ℕ) (p : Purchasing) {b : Purchasing}
    → Replayed p
    → create_material store name unit category p ≡ ok (id, b)
    → Replayed b
unfolding create_material
create_material-Replayed store name unit category id p r h =
    let named = (fail_if-eq-ok (is_blank (trim_space name)) name_required _ h).1 in
    let made =
      (fail_if-eq-ok (ltb 0 (count (is_named store (trim_space name)) p.materials)) duplicate_key _
        named).1 in
    subst Replayed (ap (λ (x : ℕ × Purchasing). x.1) (ok_inj made))
      (record { rows = r.rows; log = r.log; known = r.known })

pub add_item-Replayed :
    (store list material : ℕ) (quantity : ℤ) (note : ℕ) (p : Purchasing) {b : Purchasing}
    → Replayed p
    → add_item store list material quantity note p ≡ ok b
    → Replayed b
unfolding add_item
add_item-Replayed store list material quantity note p r h =
    let some_quantity = (fail_if-eq-ok (leb_ℤ quantity (pos 0)) bad_quantity _ h).1 in
    elim (Option-cases (find? (is_material store material) p.materials)) [
      | inl nothing ↦ absurd (let bad = rw nothing at some_quantity in cc)
      | inr (m, found) ↦
          let known =
            (fail_if-eq-ok (count (is_list list) p.lists == 0) foreign_key _
              (rw found at some_quantity)).1 in
          let made =
            (fail_if-eq-ok (ltb 0 (count (is_item_for list material) p.items)) duplicate_key _
              known).1 in
          subst Replayed (ok_inj made) (record { rows = r.rows; log = r.log; known = r.known })
    ]
