-- ===== src/Tests/Purchases.antt =====
-- internal/materials: a purchase list that is submitted, printed and completed, without a single item.
use dishflow_glm.Prelude.{ℕ, ◌≡◌, refl, map, pos, ok, err, [], ◌∷◌}
use dishflow_glm.Purchases.Lists.{Purchasing, Purchased, completed, state_conflict, create_list}
use dishflow_glm.Purchases.Moves.{
  submit_list, mark_printed, complete_list, void_list, transition_list, lock_transition,
  lock_transition_not_final,
}
use dishflow_glm.Purchases.Replay.{Replayed}
use dishflow_glm.Purchases.History.{
  PurchaseHistory, start, then_, creates, submits, prints, completes, PurchaseHistory-Replayed,
}

abbrev no_lists : Purchasing
no_lists = record {
  materials = [];
  lists = [];
  items = [];
  events = [];
  next_material = 1;
  next_list = 1;
}

abbrev or_same : Purchasing → Purchased Purchasing → Purchasing
or_same a (ok b) = b
or_same a (err e) = a

abbrev or_first : Purchasing → Purchased (ℕ × Purchasing) → Purchasing
or_first a (ok b) = b.1
or_first a (err e) = a

abbrev drafted : Purchasing
unfolding create_list
drafted = or_first no_lists (create_list 1 77 20 5 9 no_lists)

abbrev sent : Purchasing
unfolding create_list submit_list transition_list lock_transition
sent = or_same drafted (submit_list 1 1 9 1 drafted)

abbrev on_paper : Purchasing
unfolding create_list submit_list transition_list lock_transition mark_printed
on_paper = or_same sent (mark_printed 1 1 9 2 sent)

abbrev bought : Purchasing
unfolding create_list submit_list transition_list lock_transition mark_printed complete_list
bought = or_same on_paper (complete_list 1 1 9 3 (pos 8800) on_paper)

history : PurchaseHistory no_lists bought
unfolding create_list submit_list transition_list lock_transition mark_printed complete_list
history =
    then_
      (then_ (then_ (then_ start (creates 1 77 20 5 9 1 refl)) (submits 1 1 9 1 refl))
        (prints 1 1 9 2 refl))
      (completes 1 1 9 3 (pos 8800) refl)

no_lists-Replayed : Replayed no_lists
no_lists-Replayed = record { rows = tt; log = tt; known = tt }

PurchaseHistory-Replayed_example : Replayed bought
PurchaseHistory-Replayed_example = PurchaseHistory-Replayed no_lists-Replayed history

bought_status : (map (λ l. l.status) bought.lists ≡ completed ∷ []) × (bought.items ≡ [])
unfolding create_list submit_list transition_list lock_transition mark_printed complete_list
bought_status = (refl, refl)

void_completed : void_list 1 1 9 4 0 bought ≡ err state_conflict
unfolding create_list submit_list transition_list lock_transition mark_printed complete_list
    void_list lock_transition_not_final
void_completed = refl
