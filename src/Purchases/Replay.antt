-- ===== src/Purchases/Replay.antt =====
-- internal/materials: the log of a purchase list against its row.
use dishflow_glm.Prelude.{
  ℕ, ◌==◌, ◌+◌, ◌≡◌, ◌<◌, refl, arith, if◌then◌else◌, Bool, true, false, not, ◌&&◌, Option, some,
  List, [], ◌∷◌, All, All-update_cases, find?, find?-All, find?_holds, count, Option-cases, inl,
  inr, ap, subst, ok, fail_if-eq-ok, ok_inj,
}
use dishflow_glm.Purchases.Lists.{
  ListStatus, draft, submitted, printed, completed, void, PurchaseList, ListEvent, Purchasing,
  is_list, version_conflict, state_conflict,
}
use dishflow_glm.Purchases.Moves.{
  same_status, is_over, is_list_of, move_list, lock_transition, lock_transition_not_final,
  log_event, change_list,
}

-- The moves that the package documents: forward one at a time, and void from every status that is not final.
abbrev pub may_follow : ListStatus → ListStatus → Bool
may_follow draft submitted = true
may_follow submitted printed = true
may_follow printed completed = true
may_follow draft void = true
may_follow submitted void = true
may_follow printed void = true
may_follow _ _ = false

abbrev pub is_event_of : ℕ → ListEvent → Bool
is_event_of id e = e.purchase_list_id == id

abbrev pub is_print_of : ℕ → ListEvent → Bool
is_print_of id e = is_event_of id e && same_status e.to_status printed

-- What the log says of a list.
abbrev pub status_after : ℕ → List ListEvent → ListStatus
status_after id [] = draft
status_after id (e ∷ es) = if is_event_of id e then e.to_status else status_after id es

abbrev pub IsDocumented : List ListEvent → Type 0
IsDocumented [] = Unit
IsDocumented (e ∷ es) =
    (may_follow (status_after e.purchase_list_id es) e.to_status ≡ true) × IsDocumented es

pub record Tells (next : ℕ) (events : List ListEvent) (l : PurchaseList) : Type 0 where
  pub status : l.status ≡ status_after l.id events
  pub version : l.version ≡ 1 + count (is_event_of l.id) events
  pub prints : l.print_count ≡ count (is_print_of l.id) events
  pub known : l.id < next

pub record Replayed (p : Purchasing) : Type 0 where
  pub rows : All (Tells p.next_list p.events) p.lists
  pub log : IsDocumented p.events
  pub known : All (λ e. e.purchase_list_id < p.next_list) p.events

abbrev pub prints_once : ListStatus → ℕ
prints_once to = if same_status to printed then 1 else 0

-- What a move makes of a row.
pub record Moves (to : ListStatus) (g : PurchaseList → PurchaseList) : Type 0 where
  pub id : (l : PurchaseList) → (g l).id ≡ l.id
  pub status : (l : PurchaseList) → (g l).status ≡ to
  pub version : (l : PurchaseList) → (g l).version ≡ l.version + 1
  pub prints : (l : PurchaseList) → (g l).print_count ≡ l.print_count + prints_once to

other_row :
    (next id : ℕ) (e : ListEvent) (es : List ListEvent) (l : PurchaseList)
    → e.purchase_list_id ≡ id
    → is_list id l ≡ false
    → Tells next es l
    → Tells next (e ∷ es) l
other_row next id e es l at other t =
    let apart : is_event_of l.id e ≡ false = ground arith in
    record {
      status = rw apart t.status;
      version = rw apart (omega (arith, t.version));
      prints = rw apart (omega (arith, t.prints));
      known = t.known;
    }

moved_row :
    (next id : ℕ) (to : ListStatus) (g : PurchaseList → PurchaseList) (e : ListEvent)
    (es : List ListEvent) (l : PurchaseList)
    → Moves to g
    → e.purchase_list_id ≡ id
    → e.to_status ≡ to
    → is_list id l ≡ true
    → Tells next es l
    → Tells next (e ∷ es) (g l)
moved_row next id to g e es l moves at goal this t =
    let here : is_event_of l.id e ≡ true = ground arith in
    let same_count = ap (λ n. count (is_event_of n) (e ∷ es)) (moves.id l) in
    let one_more : count (is_event_of l.id) (e ∷ es) ≡ 1 + count (is_event_of l.id) es =
      rw here refl in
    let same_prints = ap (λ n. count (is_print_of n) (e ∷ es)) (moves.id l) in
    let more_prints : count (is_print_of l.id) (e ∷ es)
        ≡ prints_once to + count (is_print_of l.id) es =
      rw (here, goal) refl in
    record {
      status = rw (moves.status l, moves.id l, here, goal) refl;
      version = omega (arith, same_count, one_more, moves.version l, t.version);
      prints = omega (arith, same_prints, more_prints, moves.prints l, t.prints);
      known = rw (moves.id l) t.known;
    }

pub move-Replayed :
    (store id user : ℕ) (from : Option ListStatus) (to : ListStatus)
    (g : PurchaseList → PurchaseList) (l : PurchaseList) (p : Purchasing)
    → Moves to g
    → find? (is_list_of store id) p.lists ≡ some l
    → may_follow l.status to ≡ true
    → Replayed p
    → Replayed (log_event store id from to user (change_list id g p))
move-Replayed store id user from to g l p moves found allowed r =
    let holds = find?_holds (is_list_of store id) p.lists found in
    let same : l.id ≡ id = ground arith in
    let told = find?-All (Tells p.next_list p.events) (is_list_of store id) p.lists r.rows found in
    let e : ListEvent = record {
      purchase_list_id = id;
      store_id = store;
      from_status = from;
      to_status = to;
      actor = user;
    } in
    record {
      rows =
          All-update_cases (is_list id) g p.lists
            (λ x other t. other_row p.next_list id e p.events x refl other t)
            (λ x this t. moved_row p.next_list id to g e p.events x moves refl refl this t) r.rows;
      log = (
        subst (λ n. may_follow (status_after n p.events) to ≡ true) same
            (rw told.status at allowed),
        r.log,
      );
      known = (omega (arith, told.known, same), r.known);
    }

-- A row that has moved, and then the change that goes with the move.
pub lock_transition-found :
    (store id expected : ℕ) (to from : ListStatus) (p : Purchasing) {moved : Purchasing}
    → lock_transition store id expected to from p ≡ ok moved
    → (l : PurchaseList) × (find? (is_list_of store id) p.lists ≡ some l)
      × (same_status l.status from ≡ true)
      × (move_list id to p ≡ moved)
unfolding lock_transition
lock_transition-found store id expected to from p h =
    elim (Option-cases (find? (is_list_of store id) p.lists)) [
      | inl nothing ↦ absurd (let bad = rw nothing at h in cc)
      | inr (l, found) ↦
          let (right_version, rest) =
            fail_if-eq-ok (not (l.version == expected)) version_conflict _ (rw found at h) in
          let (right_status, made) =
            fail_if-eq-ok (not (same_status l.status from)) state_conflict _ rest in
          (l, found, ground arith, ok_inj made)
    ]

pub lock_open-found :
    (store id expected : ℕ) (to : ListStatus) (p : Purchasing) {moved : Purchasing}
    → lock_transition_not_final store id expected to p ≡ ok moved
    → (l : PurchaseList) × (find? (is_list_of store id) p.lists ≡ some l)
      × (is_over l.status ≡ false)
      × (move_list id to p ≡ moved)
unfolding lock_transition_not_final
lock_open-found store id expected to p h =
    elim (Option-cases (find? (is_list_of store id) p.lists)) [
      | inl nothing ↦ absurd (let bad = rw nothing at h in cc)
      | inr (l, found) ↦
          let (right_version, rest) =
            fail_if-eq-ok (not (l.version == expected)) version_conflict _ (rw found at h) in
          let (still_open, made) = fail_if-eq-ok (is_over l.status) state_conflict _ rest in
          (l, found, still_open, ok_inj made)
    ]

pub may_follow-from :
    (s from to : ListStatus)
    → same_status s from ≡ true
    → may_follow from to ≡ true
    → may_follow s to ≡ true
may_follow-from s from to e h = grind arith
