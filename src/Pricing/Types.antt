-- ===== src/Pricing/Types.antt =====
-- internal/pricing/engine.go: the input and output types of the pricing engine.
-- Identifiers are the database's unsigned keys and texts are only compared, so both are numbers; 0 is
-- the empty text. Amounts and quantities are Go's signed integers.
use dishflow_glm.Prelude.{ℕ, ℤ, Bool, Option, List, Result}

pub data Scenario : Type 0 where
  dine_in pickup : Scenario
  unknown_scenario : ℕ → Scenario

pub data InventoryMode : Type 0 where
  unlimited daily : InventoryMode

pub data SelectionType : Type 0 where
  single multi : SelectionType

pub record SkuInput : Type 0 where
  pub price_cents : ℤ
  pub packaging_fee_cents : ℤ
  pub inventory_mode : InventoryMode
  pub available_qty : ℤ

pub record OptionItemInput : Type 0 where
  pub option_group_id : ℕ
  pub price_modifier_cents : ℤ
  pub enabled : Bool

pub record OptionGroupInput : Type 0 where
  pub id : ℕ
  pub selection_type : SelectionType
  pub is_required : Bool
  pub min_select : ℤ
  pub max_select : ℤ

pub record CartItem : Type 0 where
  pub sku_id : ℕ
  pub quantity : ℤ
  pub option_ids : List ℕ

pub record PromotionInput : Type 0 where
  pub id : ℕ
  pub name : ℕ
  pub threshold_cents : ℤ
  pub discount_cents : ℤ

pub record CouponInput : Type 0 where
  pub customer_coupon_id : ℕ
  pub discount_cents : ℤ
  pub min_spend_cents : ℤ

-- The maps of the input are functions: a missing key is `none`.
pub record Input : Type 0 where
  pub scenario : Scenario
  pub table_token : ℕ
  pub scheduled_for : ℕ
  pub skus : ℕ → Option SkuInput
  pub option_items : ℕ → Option OptionItemInput
  pub option_groups : List OptionGroupInput
  pub cart : List CartItem
  pub promotions : List PromotionInput
  pub coupon : Option CouponInput

pub record LineItem : Type 0 where
  pub sku_id : ℕ
  pub quantity : ℤ
  pub unit_price_cents : ℤ
  pub option_ids : List ℕ
  pub line_amount_cents : ℤ

-- `Kind` of a discount; the zero value is the empty text.
pub data Kind : Type 0 where
  no_kind promotion coupon : Kind

pub data Reason : Type 0 where
  no_reason below_minimum_spend promotion_is_better : Reason

pub record DiscountDetail : Type 0 where
  pub kind : Kind
  pub id : ℕ
  pub name : ℕ
  pub amount_cents : ℤ
  pub unavailable_reason : Reason

pub record PriceResult : Type 0 where
  pub lines : List LineItem
  pub item_amount_cents : ℤ
  pub packaging_fee_cents : ℤ
  pub discount : Option DiscountDetail
  pub discount_cents : ℤ
  pub payable_cents : ℤ
  pub scenario : Scenario

-- The errors of `Validate`, by their texts.
pub data PriceError : Type 0 where
  invalid_scenario dine_in_requires_table dine_in_scheduled empty_cart : PriceError
  invalid_sku invalid_option invalid_quantity insufficient_stock : PriceError
  missing_required_option too_many_selected : PriceError

abbrev pub Priced : Type 0 → Type 0
Priced A = Result PriceError A
