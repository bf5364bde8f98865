-- ===== src/Menu/Categories.antt =====
-- internal/menu/store.go: the operations on categories. The time and the random batch are arguments.
use dishflow_glm.Prelude.{
  ℕ, ltb, ◌==◌, ◌+◌, if◌then◌else◌, Bool, true, false, not, ◌&&◌, ◌||◌, Option, none, some, List,
  ◌∷◌, ℤ, ok, err, ◌>>=◌, ◌>>◌, fail_if, find?, count, update_where,
}
use dishflow_glm.Migrate.Split.{Text, trim_space}
use dishflow_glm.Menu.Rows.{
  Category, Product, Menu, Menued, name_required, no_rows, already_deleted, not_deleted,
  window_expired, is_blank, is_set, same_text, same_bool, same_ℤ, time_since_days,
  recycle_window_days, rows_where, order_rows, before_by,
}

pub record CreateCategoryInput : Type 0 where
  pub store_id : ℕ
  pub name : Text
  pub enabled : Bool
  pub sort_order : ℤ

unfoldable pub create_category : CreateCategoryInput → Menu → Menued (ℕ × Menu)
unfolding trim_space
create_category in_ menu = do
  let name = trim_space in_.name
  fail_if (is_blank name) name_required
  let id = menu.next_category
  ok (
    id,
    record menu {
      categories =
          record {
            id = id;
            store_id = in_.store_id;
            name = name;
            enabled = in_.enabled;
            sort_order = in_.sort_order;
            deleted_at = none;
            delete_batch_id = 0;
          }
          ∷ menu.categories;
      next_category = id + 1;
    },
  )

-- Enabled ones first.
abbrev pub before_category : Category → Category → Bool
before_category c d =
    if same_bool c.enabled d.enabled
    then before_by c.sort_order c.id d.sort_order d.id
    else c.enabled

abbrev pub is_listed_category : ℕ → Bool → Category → Bool
is_listed_category store include_deleted c =
    (c.store_id == store) && (include_deleted || not (is_set c.deleted_at))

unfoldable pub list_categories : ℕ → Bool → Menu → List Category
list_categories store include_deleted menu =
    order_rows before_category
      (rows_where (is_listed_category store include_deleted) menu.categories)

pub record UpdateCategoryInput : Type 0 where
  pub name : Option Text
  pub enabled : Option Bool
  pub sort_order : Option ℤ

abbrev pub given {ℓ} : {A : Type ℓ} → Option A → A → A
given none old = old
given (some a) old = a

abbrev pub trimmed_name : Option Text → Menued (Option Text)
unfolding trim_space
trimmed_name none = ok none
trimmed_name (some name) = do
  fail_if (is_blank (trim_space name)) name_required
  ok (some (trim_space name))

abbrev pub set_fields : Option Text → UpdateCategoryInput → Category → Category
set_fields name in_ c = record c {
  name = given name c.name;
  enabled = given in_.enabled c.enabled;
  sort_order = given in_.sort_order c.sort_order;
}

abbrev pub is_category : ℕ → ℕ → Category → Bool
is_category store id c = (c.id == id) && (c.store_id == store)

-- A row that has the values already does not count as affected.
abbrev pub is_affected : ℕ → ℕ → Option Text → UpdateCategoryInput → Category → Bool
is_affected store id name in_ c =
    is_category store id c
    && not (is_set c.deleted_at)
    && not (
        same_text (given name c.name) c.name
        && same_bool (given in_.enabled c.enabled) c.enabled
        && same_ℤ (given in_.sort_order c.sort_order) c.sort_order)

unfoldable pub update_category : ℕ → ℕ → UpdateCategoryInput → Menu → Menued Menu
update_category store id in_ menu = do
  name ← trimmed_name in_.name
  if not (is_set name || is_set in_.enabled || is_set in_.sort_order) then ok menu else (do
    fail_if (count (is_affected store id name in_) menu.categories == 0) no_rows
    ok (record menu {
      categories =
          update_where (is_affected store id name in_) (set_fields name in_) menu.categories;
    }))

-- `NewHexID`, whose result is not the empty text.
abbrev pub new_batch : ℕ → ℕ
new_batch draw = draw + 1

abbrev pub recycle_category : ℕ → ℕ → Category → Category
recycle_category batch now c = record c {
  deleted_at = some now;
  delete_batch_id = batch;
  enabled = false;
}

abbrev pub recycle_product : ℕ → ℕ → Product → Product
recycle_product batch now p = record p {
  deleted_at = some now;
  delete_batch_id = batch;
  enabled = false;
}

-- `WHERE category_id = ? AND store_id = ? AND deleted_at IS NULL`
abbrev pub is_live_in : ℕ → ℕ → Product → Bool
is_live_in store category p =
    (p.category_id == category) && (p.store_id == store) && not (is_set p.deleted_at)

abbrev pub delete_found : ℕ → ℕ → ℕ → ℕ → Option Category → Menu → Menued (ℕ × Menu)
delete_found store id draw now none menu = err no_rows
delete_found store id draw now (some c) menu = do
  fail_if (is_set c.deleted_at) already_deleted
  let batch = new_batch draw
  ok (
    batch,
    record menu {
      categories = update_where (is_category store id) (recycle_category batch now) menu.categories;
      products = update_where (is_live_in store id) (recycle_product batch now) menu.products;
    },
  )

unfoldable pub delete_category : ℕ → ℕ → ℕ → ℕ → Menu → Menued (ℕ × Menu)
delete_category store id draw now menu =
    delete_found store id draw now (find? (is_category store id) menu.categories) menu

abbrev pub bring_back_category : Category → Category
bring_back_category c = record c { deleted_at = none; delete_batch_id = 0; enabled = true }

abbrev pub bring_back_product : Product → Product
bring_back_product p = record p { deleted_at = none; delete_batch_id = 0 }

abbrev pub is_of_batch : ℕ → ℕ → Product → Bool
is_of_batch store batch p = (p.store_id == store) && (p.delete_batch_id == batch)

-- The test that opens both restorations.
abbrev pub check_deleted : ℕ → Option ℕ → Menued (Unit {0})
check_deleted now none = err not_deleted
check_deleted now (some t) =
    fail_if (ltb recycle_window_days (time_since_days now t)) window_expired

abbrev pub restore_found : ℕ → ℕ → ℕ → Option Category → Menu → Menued Menu
restore_found store id now none menu = err no_rows
restore_found store id now (some c) menu = do
  check_deleted now c.deleted_at
  ok (record menu {
    categories = update_where (is_category store id) bring_back_category menu.categories;
    products = update_where (is_of_batch store c.delete_batch_id) bring_back_product menu.products;
  })

unfoldable pub restore_category : ℕ → ℕ → ℕ → Menu → Menued Menu
restore_category store id now menu =
    restore_found store id now (find? (is_category store id) menu.categories) menu
