-- ===== src/Menu/Options.antt =====
-- internal/menu/dishes.go: the input of a new dish, and the validation of its options and SKUs.
use dishflow_glm.Prelude.{
  ℕ, ltb, ◌==◌, Bool, not, ◌&&◌, ◌||◌, List, [], ◌∷◌, ℤ, pos, ltb_ℤ, ok, err, ◌>>=◌, ◌>>◌, fail_if,
  count,
}
use dishflow_glm.Migrate.Split.{Text}
use dishflow_glm.Pricing.Types.{InventoryMode, unlimited, SelectionType, single, multi}
use dishflow_glm.Menu.Rows.{
  Menued, invalid_mode, negative_stock, invalid_type, invalid_range, many_defaults,
  disabled_default, Field, blank, unknown, known,
}

pub record NewSku : Type 0 where
  pub name : Text
  pub price_cents : ℤ
  pub inventory_mode : Field InventoryMode
  pub daily_stock : ℤ
  pub enabled : Bool
  pub is_default : Bool
  pub sort_order : ℤ

pub record NewItem : Type 0 where
  pub name : Text
  pub price_modifier_cents : ℤ
  pub enabled : Bool
  pub is_default : Bool
  pub sort_order : ℤ

pub record NewGroup : Type 0 where
  pub name : Text
  pub selection_type : Field SelectionType
  pub is_required : Bool
  pub min_select : ℤ
  pub max_select : ℤ
  pub sort_order : ℤ
  pub items : List NewItem

pub record CreateProductInput : Type 0 where
  pub store_id : ℕ
  pub category_id : ℕ
  pub code : Text
  pub name : Text
  pub description : Text
  pub image_url : Text
  pub enabled : Bool
  pub manually_sold_out : Bool
  pub sort_order : ℤ
  pub packaging_fee_cents : ℤ
  pub skus : List NewSku
  pub option_groups : List NewGroup

abbrev pub is_negative : ℤ → Bool
is_negative z = ltb_ℤ z (pos 0)

abbrev pub is_default_item : NewItem → Bool
is_default_item i = i.is_default

abbrev pub is_enabled_default : NewItem → Bool
is_enabled_default i = i.is_default && i.enabled

-- `""` is `"SINGLE"`.
abbrev pub type_of : Field SelectionType → Menued SelectionType
type_of blank = ok single
type_of unknown = err invalid_type
type_of (known t) = ok t

-- The most defaults that a group may have.
abbrev pub check_defaults : SelectionType → ℤ → ℕ → Menued (Unit {0})
check_defaults single max_select defaults = fail_if (ltb 1 defaults) many_defaults
check_defaults multi max_select defaults = fail_if (ltb_ℤ max_select (pos defaults)) many_defaults

abbrev pub has_bad_range : NewGroup → Bool
has_bad_range g =
    is_negative g.min_select || ltb_ℤ g.max_select (pos 1) || ltb_ℤ g.max_select g.min_select

unfoldable pub validate_group : NewGroup → Menued (Unit {0})
validate_group g = do
  t ← type_of g.selection_type
  fail_if (has_bad_range g) invalid_range
  let defaults = count is_default_item g.items
  check_defaults t g.max_select defaults
  fail_if (not (defaults == count is_enabled_default g.items)) disabled_default

unfoldable pub validate_groups : List NewGroup → Menued (Unit {0})
unfolding validate_group
validate_groups [] = ok tt
validate_groups (g ∷ gs) = validate_group g >> validate_groups gs

-- `""` is `"UNLIMITED"`.
abbrev pub mode_of : Field InventoryMode → Menued InventoryMode
mode_of blank = ok unlimited
mode_of unknown = err invalid_mode
mode_of (known m) = ok m

unfoldable pub check_skus : List NewSku → Menued (Unit {0})
check_skus [] = ok tt
check_skus (s ∷ ss) = do
  mode ← mode_of s.inventory_mode
  fail_if (is_negative s.daily_stock) negative_stock
  check_skus ss
