-- ===== src/Purchases/Lists.antt =====
-- internal/materials/store.go, with the tables of migrations/0007_procurement.up.sql. A quantity is given in hundredths,
-- as its column holds it, and texts that are only stored are numbers.
use dishflow_glm.Prelude.{
  ℕ, ltb, ◌==◌, ◌+◌, Bool, ◌&&◌, Option, none, some, List, ◌∷◌, ℤ, pos, leb_ℤ, Result, ok, err,
  ◌>>◌, fail_if, find?, count,
}
use dishflow_glm.Migrate.Split.{Text, trim_space}
use dishflow_glm.Menu.Rows.{is_blank, same_text}

pub record Material : Type 0 where
  pub id : ℕ
  pub store_id : ℕ
  pub name : Text
  pub unit : Text
  pub category : Text

pub data ListStatus : Type 0 where
  draft submitted printed completed void : ListStatus

pub record PurchaseList : Type 0 where
  pub id : ℕ
  pub store_id : ℕ
  pub list_no : ℕ
  pub business_date : ℕ
  pub title : ℕ
  pub status : ListStatus
  pub total_amount_cents : ℤ
  pub version : ℕ
  pub print_count : ℕ
  pub void_reason : ℕ
  pub created_by : ℕ

-- `purchase_list_items`, with the name and the unit that the material had.
pub record ListItem : Type 0 where
  pub purchase_list_id : ℕ
  pub store_id : ℕ
  pub material_id : ℕ
  pub material_name : Text
  pub unit : Text
  pub quantity : ℤ
  pub note : ℕ

-- `purchase_list_events`, the latest first.
pub record ListEvent : Type 0 where
  pub purchase_list_id : ℕ
  pub store_id : ℕ
  pub from_status : Option ListStatus
  pub to_status : ListStatus
  pub actor : ℕ

pub record Purchasing : Type 0 where
  pub materials : List Material
  pub lists : List PurchaseList
  pub items : List ListItem
  pub events : List ListEvent
  pub next_material : ℕ
  pub next_list : ℕ

pub data PurchaseError : Type 0 where
  name_required bad_quantity material_not_found no_rows version_conflict state_conflict :
      PurchaseError
  duplicate_key foreign_key check_violation : PurchaseError

abbrev pub Purchased : Type 0 → Type 0
Purchased A = Result PurchaseError A

-- The unique key of `materials`; names are compared letter by letter.
abbrev pub is_named : ℕ → Text → Material → Bool
is_named store name m = (m.store_id == store) && same_text m.name name

unfoldable pub create_material : ℕ → Text → Text → Text → Purchasing → Purchased (ℕ × Purchasing)
unfolding trim_space
create_material store name unit category p = do
  fail_if (is_blank (trim_space name)) name_required
  fail_if (ltb 0 (count (is_named store (trim_space name)) p.materials)) duplicate_key
  let id = p.next_material
  ok (
    id,
    record p {
      materials =
          record {
            id = id;
            store_id = store;
            name = trim_space name;
            unit = unit;
            category = category;
          }
          ∷ p.materials;
      next_material = id + 1;
    },
  )

abbrev pub is_numbered : ℕ → ℕ → PurchaseList → Bool
is_numbered store list_no l = (l.store_id == store) && (l.list_no == list_no)

-- The number of the list is random.
unfoldable pub create_list : ℕ → ℕ → ℕ → ℕ → ℕ → Purchasing → Purchased (ℕ × Purchasing)
create_list store list_no business_date title created_by p = do
  fail_if (ltb 0 (count (is_numbered store list_no) p.lists)) duplicate_key
  let id = p.next_list
  ok (
    id,
    record p {
      lists =
          record {
            id = id;
            store_id = store;
            list_no = list_no;
            business_date = business_date;
            title = title;
            status = draft;
            total_amount_cents = pos 0;
            version = 1;
            print_count = 0;
            void_reason = 0;
            created_by = created_by;
          }
          ∷ p.lists;
      next_list = id + 1;
    },
  )

abbrev pub is_material : ℕ → ℕ → Material → Bool
is_material store id m = (m.id == id) && (m.store_id == store)

abbrev pub is_list : ℕ → PurchaseList → Bool
is_list id l = l.id == id

abbrev pub is_item_for : ℕ → ℕ → ListItem → Bool
is_item_for list material i = (i.purchase_list_id == list) && (i.material_id == material)

abbrev pub add_found : ℕ → ℕ → ℕ → ℤ → ℕ → Option Material → Purchasing → Purchased Purchasing
add_found store list material quantity note none p = err material_not_found
add_found store list material quantity note (some m) p = do
  fail_if (count (is_list list) p.lists == 0) foreign_key
  fail_if (ltb 0 (count (is_item_for list material) p.items)) duplicate_key
  ok (record p {
    items =
        record {
          purchase_list_id = list;
          store_id = store;
          material_id = material;
          material_name = m.name;
          unit = m.unit;
          quantity = quantity;
          note = note;
        }
        ∷ p.items;
  })

unfoldable pub add_item : ℕ → ℕ → ℕ → ℤ → ℕ → Purchasing → Purchased Purchasing
add_item store list material quantity note p = do
  fail_if (leb_ℤ quantity (pos 0)) bad_quantity
  add_found store list material quantity note (find? (is_material store material) p.materials) p
