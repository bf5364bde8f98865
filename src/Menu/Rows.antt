-- ===== src/Menu/Rows.antt =====
-- internal/menu and migrations/0002_menu.up.sql: the rows of the menu, and the texts and the order of the queries.
-- Column widths, the columns of times kept for audit and the foreign keys on stores are left out.
use dishflow_glm.Prelude.{
  ℕ, ltb, ◌==◌, ◌-◌, ◌/◌, if◌then◌else◌, Bool, true, false, not, ◌&&◌, ◌||◌, Option, none, some,
  List, [], ◌∷◌, ℤ, ltb_ℤ, Result,
}
use dishflow_glm.Migrate.Split.{Text}
use dishflow_glm.Pricing.Types.{InventoryMode, SelectionType}

-- `delete_batch_id` is a random number here, and 0 the empty text.
pub record Category : Type 0 where
  pub id : ℕ
  pub store_id : ℕ
  pub name : Text
  pub enabled : Bool
  pub sort_order : ℤ
  pub deleted_at : Option ℕ
  pub delete_batch_id : ℕ

pub record Product : Type 0 where
  pub id : ℕ
  pub store_id : ℕ
  pub category_id : ℕ
  pub code : Text
  pub name : Text
  pub description : Text
  pub image_url : Text
  pub enabled : Bool
  pub manually_sold_out : Bool
  pub sort_order : ℤ
  pub packaging_fee_cents : ℤ
  pub deleted_at : Option ℕ
  pub delete_batch_id : ℕ

pub record Sku : Type 0 where
  pub id : ℕ
  pub store_id : ℕ
  pub product_id : ℕ
  pub name : Text
  pub price_cents : ℤ
  pub inventory_mode : InventoryMode
  pub daily_stock : ℤ
  pub enabled : Bool
  pub is_default : Bool
  pub sort_order : ℤ
  pub deleted_at : Option ℕ

pub record OptionGroup : Type 0 where
  pub id : ℕ
  pub store_id : ℕ
  pub product_id : ℕ
  pub name : Text
  pub selection_type : SelectionType
  pub is_required : Bool
  pub min_select : ℤ
  pub max_select : ℤ
  pub sort_order : ℤ
  pub deleted_at : Option ℕ

pub record OptionItem : Type 0 where
  pub id : ℕ
  pub store_id : ℕ
  pub option_group_id : ℕ
  pub name : Text
  pub price_modifier_cents : ℤ
  pub enabled : Bool
  pub is_default : Bool
  pub sort_order : ℤ
  pub deleted_at : Option ℕ

-- The tables, with their counters.
pub record Menu : Type 0 where
  pub categories : List Category
  pub products : List Product
  pub skus : List Sku
  pub option_groups : List OptionGroup
  pub option_items : List OptionItem
  pub next_category : ℕ
  pub next_product : ℕ
  pub next_sku : ℕ
  pub next_group : ℕ
  pub next_item : ℕ

pub data MenuError : Type 0 where
  name_required sku_required no_rows already_deleted not_deleted window_expired parent_deleted :
      MenuError
  invalid_mode negative_stock invalid_type invalid_range many_defaults disabled_default : MenuError
  check_violation unsupported_format appid_conflict : MenuError

abbrev pub Menued : Type 0 → Type 0
Menued A = Result MenuError A

-- The texts 'SINGLE' and 'MULTI', or 'UNLIMITED' and 'DAILY', in an input: empty, one of the two, or another text.
pub data Field (A : Type 0) : Type 0 where
  blank unknown : Field A
  known : A → Field A

abbrev pub is_blank : {A : Type 0} → List A → Bool
is_blank [] = true
is_blank (x ∷ xs) = false

abbrev pub is_set : {A : Type 0} → Option A → Bool
is_set none = false
is_set (some a) = true

abbrev pub same_text : Text → Text → Bool
same_text [] [] = true
same_text [] (d ∷ t) = false
same_text (c ∷ s) [] = false
same_text (c ∷ s) (d ∷ t) = (c == d) && same_text s t

abbrev pub same_bool : Bool → Bool → Bool
same_bool true b = b
same_bool false b = not b

abbrev pub same_ℤ : ℤ → ℤ → Bool
same_ℤ a b = not (ltb_ℤ a b) && not (ltb_ℤ b a)

-- Times are in milliseconds.
abbrev pub day : ℕ
day = 86400000

unfoldable pub time_since_days : ℕ → ℕ → ℕ
time_since_days now t = if ltb now t then 0 else (now - t) / day

abbrev pub recycle_window_days : ℕ
recycle_window_days = 30

-- `WHERE`
abbrev pub rows_where {ℓ} : {A : Type ℓ} → (A → Bool) → List A → List A
rows_where p [] = []
rows_where p (x ∷ xs) = if p x then x ∷ rows_where p xs else rows_where p xs

-- `ORDER BY`
abbrev pub insert_row {ℓ} : {A : Type ℓ} → (A → A → Bool) → A → List A → List A
insert_row before x [] = x ∷ []
insert_row before x (y ∷ ys) = if before y x then y ∷ insert_row before x ys else x ∷ y ∷ ys

abbrev pub order_rows {ℓ} : {A : Type ℓ} → (A → A → Bool) → List A → List A
order_rows before [] = []
order_rows before (x ∷ xs) = insert_row before x (order_rows before xs)

-- `ORDER BY sort_order, id`
abbrev pub before_by : ℤ → ℕ → ℤ → ℕ → Bool
before_by s i s' i' = ltb_ℤ s s' || (same_ℤ s s' && ltb i i')
