-- ===== src/Pricing/Validate.antt =====
-- internal/pricing/engine.go: `Input.Validate` and `validateOptionGroups`.
use dishflow_glm.Prelude.{
  ℕ, ℤ, pos, ltb, ltb_ℤ, leb_ℤ, ◌==◌, if◌then◌else◌, Bool, true, false, not, ◌&&◌, ◌||◌, Option,
  none, some, List, [], ◌∷◌, ok, err, ◌>>◌, fail_if, count,
}
use dishflow_glm.Pricing.Types.{
  Scenario, dine_in, pickup, unknown_scenario, InventoryMode, unlimited, daily, SelectionType,
  single, multi, SkuInput, OptionItemInput, OptionGroupInput, CartItem, Input, invalid_scenario,
  dine_in_requires_table, dine_in_scheduled, empty_cart, invalid_sku, invalid_option,
  invalid_quantity, insufficient_stock, missing_required_option, too_many_selected, Priced,
}

abbrev pub is_daily : InventoryMode → Bool
is_daily unlimited = false
is_daily daily = true

-- The three tests on the scenario.
unfoldable pub check_scenario : Scenario → ℕ → ℕ → Priced (Unit {0})
check_scenario (unknown_scenario _) table_token scheduled_for = err invalid_scenario
check_scenario dine_in table_token scheduled_for = do
  fail_if (table_token == 0) dine_in_requires_table
  fail_if (not (scheduled_for == 0)) dine_in_scheduled
check_scenario pickup table_token scheduled_for = ok tt

-- `!ok || !oi.Enabled`, negated.
unfoldable pub is_selectable : Option OptionItemInput → Bool
is_selectable none = false
is_selectable (some item) = item.enabled

module _ (option_items : ℕ → Option OptionItemInput) where
  unfoldable pub check_options : List ℕ → Priced (Unit {0})
  unfolding is_selectable
  check_options [] = ok tt
  check_options (oid ∷ oids) = do
    fail_if (not (is_selectable (option_items oid))) invalid_option
    check_options oids

unfoldable pub check_stock : CartItem → Option SkuInput → Priced (Unit {0})
check_stock ci none = err invalid_sku
check_stock ci (some sk) =
    fail_if
      (is_daily sk.inventory_mode
        && leb_ℤ (pos 0) sk.available_qty
        && ltb_ℤ sk.available_qty ci.quantity)
      insufficient_stock

-- One round of the loop over the cart.
unfoldable pub check_item : Input → CartItem → Priced (Unit {0})
unfolding check_stock check_options
check_item in_ ci = do
  fail_if (ltb_ℤ ci.quantity (pos 1) || ltb_ℤ (pos 99) ci.quantity) invalid_quantity
  check_stock ci (in_.skus ci.sku_id)
  check_options in_.option_items ci.option_ids

unfoldable pub check_items : Input → List CartItem → Priced (Unit {0})
unfolding check_item
check_items in_ [] = ok tt
check_items in_ (ci ∷ cart) = do check_item in_ ci; check_items in_ cart

-- `groupSelectedDistinct`, a map from groups to sets of options, as its set of (group, option) pairs.
abbrev pub Selected : Type 0
Selected = List (ℕ × ℕ)

abbrev pub is_pair : ℕ → ℕ → ℕ × ℕ → Bool
is_pair g oid (h, o) = (g == h) && (oid == o)

unfoldable pub is_marked : ℕ → ℕ → Selected → Bool
is_marked g oid [] = false
is_marked g oid (p ∷ ps) = is_pair g oid p || is_marked g oid ps

-- `groupSelectedDistinct[g][oid] = true`
unfoldable pub mark : ℕ → ℕ → Selected → Selected
unfolding is_marked
mark g oid sel = if is_marked g oid sel then sel else (g, oid) ∷ sel

unfoldable pub mark_option : Option OptionItemInput → ℕ → Selected → Selected
unfolding mark
mark_option none oid sel = sel
mark_option (some item) oid sel = mark item.option_group_id oid sel

module _ (option_items : ℕ → Option OptionItemInput) where
  unfoldable pub mark_options : List ℕ → Selected → Selected
  unfolding mark_option
  mark_options [] sel = sel
  mark_options (oid ∷ oids) sel = mark_options oids (mark_option (option_items oid) oid sel)

  unfoldable pub mark_cart : List CartItem → Selected → Selected
  unfolding mark_options
  mark_cart [] sel = sel
  mark_cart (ci ∷ cart) sel = mark_cart cart (mark_options ci.option_ids sel)

-- `len(groupSelectedDistinct[g])`
unfoldable pub selected_count : ℕ → Selected → ℕ
selected_count g sel = count (λ p. g == p.0) sel

abbrev pub exceeds : SelectionType → ℕ → ℤ → Bool
exceeds single sel max_select = ltb 1 sel
exceeds multi sel max_select = ltb_ℤ max_select (pos sel)

unfoldable pub check_group : Selected → OptionGroupInput → Priced (Unit {0})
unfolding selected_count
check_group selected g = do
  fail_if (g.is_required && ltb (selected_count g.id selected) 1) missing_required_option
  fail_if (exceeds g.selection_type (selected_count g.id selected) g.max_select) too_many_selected

unfoldable pub check_groups : Selected → List OptionGroupInput → Priced (Unit {0})
unfolding check_group
check_groups selected [] = ok tt
check_groups selected (g ∷ groups) = do check_group selected g; check_groups selected groups

unfoldable pub validate_option_groups : Input → Priced (Unit {0})
unfolding mark_cart check_groups
validate_option_groups in_ = check_groups (mark_cart in_.option_items in_.cart []) in_.option_groups

abbrev pub is_empty {ℓ} : {A : Type ℓ} → List A → Bool
is_empty [] = true
is_empty (x ∷ xs) = false

unfoldable pub validate : Input → Priced (Unit {0})
unfolding check_scenario check_items validate_option_groups
validate in_ = do
  check_scenario in_.scenario in_.table_token in_.scheduled_for
  fail_if (is_empty in_.cart) empty_cart
  check_items in_ in_.cart
  validate_option_groups in_
