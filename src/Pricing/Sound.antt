-- ===== src/Pricing/Sound.antt =====
-- internal/pricing/engine.go: what a cart has been checked for when `Validate` returns no error.
use dishflow_glm.Prelude.{
  ℕ, pos, ◌≤ℤ◌, ◌≡◌, ◌≢◌, ◌==◌, arith, ok, true, false, not, ◌&&◌, some, List, [], ◌∷◌, All,
  Option-cases, Bool-cases, inl, inr, ltb, length, fail_if-eq-ok, >>=-eq-ok,
}
use dishflow_glm.Pricing.Types.{
  Input, CartItem, SkuInput, OptionItemInput, OptionGroupInput, Scenario, dine_in, pickup,
  unknown_scenario, daily, single, multi, invalid_option, missing_required_option,
}
use dishflow_glm.Pricing.Selected.{
  Chosen, AreDistinct, selected_count-Chosen, Chosen-selected_count,
}
use dishflow_glm.Pricing.Validate.{
  check_scenario, is_selectable, check_options, check_stock, check_item, check_items, Selected,
  mark_cart, selected_count, exceeds, check_group, check_groups, validate_option_groups, validate,
}

-- The option exists and is enabled.
pub record IsOffered (in_ : Input) (oid : ℕ) : Type 0 where
  pub item : OptionItemInput
  pub listed : in_.option_items oid ≡ some item
  pub enabled : item.enabled ≡ true

-- 1 to 99 of a listed SKU, not more than its stock if it has a daily one, with options that are offered.
pub record IsOrderable (in_ : Input) (ci : CartItem) : Type 0 where
  pub quantity_ge : pos 1 ≤ℤ ci.quantity
  pub quantity_le : ci.quantity ≤ℤ pos 99
  pub sku : SkuInput
  pub listed : in_.skus ci.sku_id ≡ some sku
  pub stocked :
      sku.inventory_mode ≡ daily → pos 0 ≤ℤ sku.available_qty → ci.quantity ≤ℤ sku.available_qty
  pub options : All (IsOffered in_) ci.option_ids

offered : (in_ : Input) (oid : ℕ) → is_selectable (in_.option_items oid) ≡ true → IsOffered in_ oid
unfolding is_selectable
offered in_ oid h = elim (Option-cases (in_.option_items oid)) [
  | inl e ↦ absurd (let bad = rw e at h in cc)
  | inr (it, e) ↦ record { item = it; listed = e; enabled = rw e at h }
]

check_options-All :
    (in_ : Input) (oids : List ℕ)
    → check_options in_.option_items oids ≡ ok tt
    → All (IsOffered in_) oids
unfolding check_options
check_options-All in_ [] h = tt
check_options-All in_ (oid ∷ oids) h =
    let (known, rest) =
      fail_if-eq-ok (not (is_selectable (in_.option_items oid))) invalid_option _ h in
    (offered in_ oid (ground arith), check_options-All in_ oids rest)

check_item-IsOrderable :
    (in_ : Input) (ci : CartItem) → check_item in_ ci ≡ ok tt → IsOrderable in_ ci
unfolding check_item check_stock
check_item-IsOrderable in_ ci h = elim (Option-cases (in_.skus ci.sku_id)) [
  | inl missing ↦ absurd (ground arith)
  | inr (sk, found) ↦ record {
    quantity_ge = ground arith;
    quantity_le = ground arith;
    sku = sk;
    listed = found;
    stocked = λ d n. ground arith;
    options = check_options-All in_ ci.option_ids (ground arith);
  }
]

check_items-All :
    (in_ : Input) (cart : List CartItem) → check_items in_ cart ≡ ok tt → All (IsOrderable in_) cart
unfolding check_items
check_items-All in_ [] h = tt
check_items-All in_ (ci ∷ cart) h =
    (check_item-IsOrderable in_ ci (ground arith), check_items-All in_ cart (ground arith))

-- The options that the lines of the cart choose of a group: at least one if the group is required, no two of a single
-- choice, and no more different ones of a multiple choice than its maximum.
pub record IsSatisfied (in_ : Input) (g : OptionGroupInput) : Type 0 where
  pub required : g.is_required ≡ true → (oid : ℕ) × Chosen in_ g.id oid
  pub one : g.selection_type ≡ single → (o p : ℕ) → Chosen in_ g.id o → Chosen in_ g.id p → o ≡ p
  pub within :
      g.selection_type ≡ multi
      → (os : List ℕ) → AreDistinct os
      → All (Chosen in_ g.id) os
      → pos (length os) ≤ℤ g.max_select

abbrev marks : Input → Selected
marks in_ = mark_cart in_.option_items in_.cart []

check_group-IsSatisfied :
    (in_ : Input) (g : OptionGroupInput) → check_group (marks in_) g ≡ ok tt → IsSatisfied in_ g
unfolding check_group
check_group-IsSatisfied in_ g h =
    let n = selected_count g.id (marks in_) in
    let (some_option, rest) =
      fail_if-eq-ok (g.is_required && ltb n 1) missing_required_option _ h in
    let enough : exceeds g.selection_type n g.max_select ≡ false = ground arith in
    record {
      required = λ r. selected_count-Chosen in_ g.id (ground arith);
      one = λ s o p c d. elim (Bool-cases (p == o)) [
        | inl e ↦ ground arith
        | inr e ↦
            let two =
              Chosen-selected_count in_ g.id (o ∷ p ∷ []) ((e, tt), (tt, tt)) (c, (d, tt)) in
            absurd (let few = rw s at enough in ground (arith, two))
      ];
      within = λ s os d c.
          let many = Chosen-selected_count in_ g.id os d c in
          let few = rw s at enough in ground (arith, many);
    }

check_groups-All :
    (in_ : Input) (gs : List OptionGroupInput)
    → check_groups (marks in_) gs ≡ ok tt
    → All (IsSatisfied in_) gs
unfolding check_groups
check_groups-All in_ [] h = tt
check_groups-All in_ (g ∷ gs) h =
    let (u, first, rest) = >>=-eq-ok (check_group (marks in_) g) _ h in
    (check_group-IsSatisfied in_ g first, check_groups-All in_ gs rest)

-- A scenario that passed: a table and no reserved time for dine-in.
abbrev pub IsServed : Scenario → ℕ → ℕ → Type 0
IsServed dine_in table_token scheduled_for = (table_token ≢ 0) × (scheduled_for ≡ 0)
IsServed pickup table_token scheduled_for = Unit
IsServed (unknown_scenario _) table_token scheduled_for = ⊥

check_scenario-IsServed :
    (s : Scenario) (table_token scheduled_for : ℕ)
    → check_scenario s table_token scheduled_for ≡ ok tt
    → IsServed s table_token scheduled_for
unfolding check_scenario
check_scenario-IsServed dine_in t s h = (λ e. ground arith, ground arith)
check_scenario-IsServed pickup t s h = tt
check_scenario-IsServed (unknown_scenario n) t s h = cc

pub record IsValid (in_ : Input) : Type 0 where
  pub served : IsServed in_.scenario in_.table_token in_.scheduled_for
  pub not_empty : in_.cart ≢ []
  pub orderable : All (IsOrderable in_) in_.cart
  pub satisfied : All (IsSatisfied in_) in_.option_groups

-- An input that `Validate` accepts has a known scenario, with a table and no reserved time for dine-in; a cart that is
-- not empty; in each line 1 to 99 of a listed SKU, not more than a daily stock that is not negative, and only options
-- that exist and are enabled; and for each listed group, over the options that all lines of the cart choose, at least
-- one if it is required, no two different ones of a single choice, and at most max_select different ones of a multiple
-- choice. The least number of choices is not tested, and the stock line by line only.
pub validate-IsValid : (in_ : Input) → validate in_ ≡ ok tt → IsValid in_
unfolding validate validate_option_groups
validate-IsValid in_ h = record {
  served = check_scenario-IsServed in_.scenario in_.table_token in_.scheduled_for (ground arith);
  not_empty = λ e. ground arith;
  orderable = check_items-All in_ in_.cart (ground arith);
  satisfied = check_groups-All in_ in_.option_groups (ground arith);
}
