-- ===== src/Menu/File.antt =====
-- internal/export/store.go: what an imported file holds.
use dishflow_glm.Prelude.{Bool, Option, List, ℤ, ok, err}
use dishflow_glm.Migrate.Split.{Text}
use dishflow_glm.Pricing.Types.{InventoryMode, unlimited, SelectionType, single}
use dishflow_glm.Menu.Rows.{Menued, check_violation, Field, blank, unknown, known}

pub record ExportSku : Type 0 where
  pub name : Text
  pub price_cents : ℤ
  pub inventory_mode : Field InventoryMode
  pub daily_stock : ℤ
  pub sort_order : ℤ

pub record ExportOptItem : Type 0 where
  pub name : Text
  pub price_modifier_cents : ℤ
  pub sort_order : ℤ

pub record ExportOptGroup : Type 0 where
  pub name : Text
  pub selection_type : Field SelectionType
  pub is_required : Bool
  pub min_select : ℤ
  pub max_select : ℤ
  pub items : List ExportOptItem

pub record ExportProduct : Type 0 where
  pub name : Text
  pub description : Text
  pub image_url : Text
  pub sort_order : ℤ
  pub packaging_fee_cents : ℤ
  pub skus : List ExportSku
  pub option_groups : List ExportOptGroup

pub record ExportCategory : Type 0 where
  pub name : Text
  pub sort_order : ℤ
  pub products : List ExportProduct

-- The fields that `Import` reads; `none` for a file without a menu.
pub record File : Type 0 where
  pub format : Text
  pub version : ℤ
  pub menu : Option (List ExportCategory)

-- `""` is `"UNLIMITED"`, and another text than the two is refused by the CHECK of the column.
abbrev pub column_mode : Field InventoryMode → Menued InventoryMode
column_mode blank = ok unlimited
column_mode unknown = err check_violation
column_mode (known m) = ok m

abbrev pub column_type : Field SelectionType → Menued SelectionType
column_type blank = ok single
column_type unknown = err check_violation
column_type (known t) = ok t
