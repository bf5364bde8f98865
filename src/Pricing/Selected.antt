-- ===== src/Pricing/Selected.antt =====
-- internal/pricing/engine.go: the options that a cart chooses of a group, and their number in `validateOptionGroups`.
use dishflow_glm.Prelude.{
  ℕ, ◌+◌, ◌≤◌, ◌==◌, ◌≡◌, ◌⊎◌, refl, arith, if◌then◌else◌, true, false, Option, some, List, [], ◌∷◌,
  All, All-map, length, Bool-cases, Option-cases, inl, inr, subst,
}
use dishflow_glm.Pricing.Types.{Input, CartItem, OptionItemInput}
use dishflow_glm.Pricing.Validate.{
  Selected, is_pair, is_marked, mark, mark_option, mark_options, mark_cart, selected_count,
}

abbrev pub IsIn : {A : Type 0} → A → List A → Type 0
IsIn x [] = ⊥
IsIn x (y ∷ ys) = (x ≡ y) ⊎ IsIn x ys

-- Some line of the cart names the option, and it is one of the group.
pub record Chosen (in_ : Input) (group oid : ℕ) : Type 0 where
  pub line : CartItem
  pub in_cart : IsIn line in_.cart
  pub named : IsIn oid line.option_ids
  pub item : OptionItemInput
  pub listed : in_.option_items oid ≡ some item
  pub of_group : item.option_group_id ≡ group

-- No option twice.
abbrev pub AreDistinct : List ℕ → Type 0
AreDistinct [] = Unit
AreDistinct (o ∷ os) = All (λ p. (p == o) ≡ false) os × AreDistinct os

unfoldable unmark : ℕ → ℕ → Selected → Selected
unmark g oid [] = []
unmark g oid (p ∷ ps) = if is_pair g oid p then unmark g oid ps else p ∷ unmark g oid ps

selected_count-unmark :
    (g oid : ℕ) (sel : Selected) → selected_count g (unmark g oid sel) ≤ selected_count g sel
unfolding selected_count unmark
selected_count-unmark g oid [] = omega arith
selected_count-unmark g oid ((h, o) ∷ ps) = ground (arith, selected_count-unmark g oid ps)

selected_count-marked :
    (g oid : ℕ) (sel : Selected)
    → is_marked g oid sel ≡ true
    → selected_count g (unmark g oid sel) + 1 ≤ selected_count g sel
unfolding selected_count unmark is_marked
selected_count-marked g oid [] m = absurd (cc)
selected_count-marked g oid ((h, o) ∷ ps) m = elim (Bool-cases (is_pair g oid (h, o))) [
  | inl e ↦ ground (arith, selected_count-unmark g oid ps)
  | inr e ↦ ground (arith, selected_count-marked g oid ps (rw e at m))
]

is_marked-unmark :
    (g oid other : ℕ) (sel : Selected)
    → (other == oid) ≡ false
    → is_marked g other sel ≡ true
    → is_marked g other (unmark g oid sel) ≡ true
unfolding unmark is_marked
is_marked-unmark g oid other [] n m = m
is_marked-unmark g oid other ((h, o) ∷ ps) n m = elim (Bool-cases (is_pair g other (h, o))) [
  | inl e ↦ ground arith
  | inr e ↦ ground (arith, is_marked-unmark g oid other ps n (rw e at m))
]

-- The others stay marked.
module _ (g oid : ℕ) (sel : Selected) where
  unmarked :
      (os : List ℕ)
      → All (λ p. (p == oid) ≡ false) os
      → All (λ o. is_marked g o sel ≡ true) os
      → All (λ o. is_marked g o (unmark g oid sel) ≡ true) os
  unmarked [] n m = tt
  unmarked (p ∷ os) (n, ns) (m, ms) = (is_marked-unmark g oid p sel n m, unmarked os ns ms)

-- Marked options that differ are no more than are counted.
pub length-selected_count :
    (g : ℕ) (os : List ℕ) (sel : Selected)
    → AreDistinct os
    → All (λ o. is_marked g o sel ≡ true) os
    → length os ≤ selected_count g sel
length-selected_count g [] sel d m = omega arith
length-selected_count g (o ∷ os) sel (n, d) (m, ms) =
    let rest = length-selected_count g os (unmark g o sel) d (unmarked g o sel os n ms) in
    omega (arith, rest, selected_count-marked g o sel m)

module _ (items : ℕ → Option OptionItemInput) (g oid : ℕ) where
  mark_option-keeps :
      (other : ℕ) (sel : Selected)
      → is_marked g oid sel ≡ true
      → is_marked g oid (mark_option (items other) other sel) ≡ true
  unfolding mark_option mark is_marked
  mark_option-keeps other sel m = ground arith

  mark_options-keeps :
      (os : List ℕ) (sel : Selected)
      → is_marked g oid sel ≡ true
      → is_marked g oid (mark_options items os sel) ≡ true
  unfolding mark_options
  mark_options-keeps [] sel m = m
  mark_options-keeps (o ∷ os) sel m = mark_options-keeps os _ (mark_option-keeps o sel m)

  mark_cart-keeps :
      (cart : List CartItem) (sel : Selected)
      → is_marked g oid sel ≡ true
      → is_marked g oid (mark_cart items cart sel) ≡ true
  unfolding mark_cart
  mark_cart-keeps [] sel m = m
  mark_cart-keeps (ci ∷ cart) sel m =
      mark_cart-keeps cart _ (mark_options-keeps ci.option_ids sel m)

  module _ (item : OptionItemInput) (listed : items oid ≡ some item)
      (of_group : item.option_group_id ≡ g) where
    mark_options-marks :
        (os : List ℕ) (sel : Selected)
        → IsIn oid os
        → is_marked g oid (mark_options items os sel) ≡ true
    unfolding mark_options
    mark_options-marks [] sel i = absurd i
    mark_options-marks (o ∷ os) sel (inl e) =
        let marked : is_marked g oid (mark_option (items oid) oid sel) ≡ true =
          unfold mark_option mark is_marked in rw (listed, of_group) (ground arith) in
        mark_options-keeps os _
          (subst (λ p. is_marked g oid (mark_option (items p) p sel) ≡ true) e marked)
    mark_options-marks (o ∷ os) sel (inr i) = mark_options-marks os _ i

    mark_cart-marks :
        (cart : List CartItem) (sel : Selected) (line : CartItem)
        → IsIn line cart
        → IsIn oid line.option_ids
        → is_marked g oid (mark_cart items cart sel) ≡ true
    unfolding mark_cart
    mark_cart-marks [] sel line i j = absurd i
    mark_cart-marks (ci ∷ cart) sel line (inl e) j =
        mark_cart-keeps cart _ (
          mark_options-marks ci.option_ids sel
            (subst (λ (l : CartItem). IsIn oid l.option_ids) e j))
    mark_cart-marks (ci ∷ cart) sel line (inr i) j = mark_cart-marks cart _ line i j

pub Chosen-is_marked :
    (in_ : Input) (g oid : ℕ)
    → Chosen in_ g oid
    → is_marked g oid (mark_cart in_.option_items in_.cart []) ≡ true
Chosen-is_marked in_ g oid c =
    mark_cart-marks in_.option_items g oid c.item c.listed c.of_group in_.cart [] c.line c.in_cart
      c.named

abbrev AreChosen : Input → Selected → Type 0
AreChosen in_ sel = All (λ (p : ℕ × ℕ). Chosen in_ p.0 p.1) sel

module _ (in_ : Input) where
  mark_options-AreChosen :
      (line : CartItem) (os : List ℕ) (sel : Selected)
      → IsIn line in_.cart
      → ((o : ℕ) → IsIn o os → IsIn o line.option_ids)
      → AreChosen in_ sel
      → AreChosen in_ (mark_options in_.option_items os sel)
  unfolding mark_options
  mark_options-AreChosen line [] sel i named h = h
  mark_options-AreChosen line (o ∷ os) sel i named h =
      mark_options-AreChosen line os _ i (λ p j. named p (inr j))
        (elim (Option-cases (in_.option_items o)) [
          | inl e ↦ unfold mark_option in rw e h
          | inr (item, e) ↦
              let new : Chosen in_ item.option_group_id o = record {
                line = line;
                in_cart = i;
                named = named o (inl refl);
                item = item;
                listed = e;
                of_group = refl;
              } in
              unfold mark_option mark in
              elim (Bool-cases (is_marked item.option_group_id o sel)) [
                | inl m ↦ rw (e, m) h
                | inr m ↦ rw (e, m) (new, h)
              ]
        ])

  mark_cart-AreChosen :
      (cart : List CartItem) (sel : Selected)
      → ((line : CartItem) → IsIn line cart → IsIn line in_.cart)
      → AreChosen in_ sel
      → AreChosen in_ (mark_cart in_.option_items cart sel)
  unfolding mark_cart
  mark_cart-AreChosen [] sel within h = h
  mark_cart-AreChosen (ci ∷ cart) sel within h =
      mark_cart-AreChosen cart _ (λ line j. within line (inr j))
        (mark_options-AreChosen ci ci.option_ids sel (within ci (inl refl)) (λ o j. j) h)

  some-Chosen :
      (g : ℕ) (sel : Selected)
      → AreChosen in_ sel
      → 1 ≤ selected_count g sel
      → (oid : ℕ) × Chosen in_ g oid
  unfolding selected_count
  some-Chosen g [] h l = absurd (omega arith)
  some-Chosen g ((k, o) ∷ sel) (c, h) l = elim (Bool-cases (g == k)) [
    | inl e ↦ let same : k ≡ g = ground arith in (o, subst (λ x. Chosen in_ x o) same c)
    | inr e ↦ some-Chosen g sel h (ground arith)
  ]

  pub selected_count-Chosen :
      (g : ℕ)
      → 1 ≤ selected_count g (mark_cart in_.option_items in_.cart [])
      → (oid : ℕ) × Chosen in_ g oid
  selected_count-Chosen g l = some-Chosen g _ (mark_cart-AreChosen in_.cart [] (λ line j. j) tt) l

  pub Chosen-selected_count :
      (g : ℕ) (os : List ℕ)
      → AreDistinct os
      → All (Chosen in_ g) os
      → length os ≤ selected_count g (mark_cart in_.option_items in_.cart [])
  Chosen-selected_count g os d h =
      length-selected_count g os (mark_cart in_.option_items in_.cart []) d
        (All-map os (λ o c. Chosen-is_marked in_ g o c) h)
