-- ===== src/Menu/Import.antt =====
-- internal/export/store.go: `Import`, which puts the menu of a store into the recycle bin and writes that of a file.
use dishflow_glm.Prelude.{
  ℕ, ◌+◌, ◌==◌, Bool, true, false, not, ◌&&◌, ◌||◌, Option, none, some, List, [], ◌∷◌, pos, ltb_ℤ,
  ok, ◌>>=◌, ◌>>◌, fail_if, update_where,
}
use dishflow_glm.Printing.Receipt.{codes}
use dishflow_glm.Menu.Rows.{
  Category, Product, Menu, Menued, check_violation, unsupported_format, appid_conflict, is_set,
  same_text, same_ℤ,
}
use dishflow_glm.Menu.File.{
  ExportSku, ExportOptItem, ExportOptGroup, ExportProduct, ExportCategory, File, column_mode,
  column_type,
}
use dishflow_glm.Menu.Categories.{new_batch, recycle_category, recycle_product}
use dishflow_glm.Menu.Options.{is_negative}

unfoldable pub import_sku : ℕ → ℕ → ExportSku → Menu → Menued Menu
import_sku store product s menu = do
  mode ← column_mode s.inventory_mode
  fail_if (is_negative s.price_cents || is_negative s.daily_stock) check_violation
  ok (record menu {
    skus =
        record {
          id = menu.next_sku;
          store_id = store;
          product_id = product;
          name = s.name;
          price_cents = s.price_cents;
          inventory_mode = mode;
          daily_stock = s.daily_stock;
          enabled = true;
          is_default = false;
          sort_order = s.sort_order;
          deleted_at = none;
        }
        ∷ menu.skus;
    next_sku = menu.next_sku + 1;
  })

unfoldable pub import_skus : ℕ → ℕ → List ExportSku → Menu → Menued Menu
unfolding import_sku
import_skus store product [] menu = ok menu
import_skus store product (s ∷ ss) menu = do
  menu' ← import_sku store product s menu
  import_skus store product ss menu'

unfoldable pub import_item : ℕ → ℕ → ExportOptItem → Menu → Menued Menu
import_item store group i menu = do
  fail_if (is_negative i.price_modifier_cents) check_violation
  ok (record menu {
    option_items =
        record {
          id = menu.next_item;
          store_id = store;
          option_group_id = group;
          name = i.name;
          price_modifier_cents = i.price_modifier_cents;
          enabled = true;
          is_default = false;
          sort_order = i.sort_order;
          deleted_at = none;
        }
        ∷ menu.option_items;
    next_item = menu.next_item + 1;
  })

unfoldable pub import_items : ℕ → ℕ → List ExportOptItem → Menu → Menued Menu
unfolding import_item
import_items store group [] menu = ok menu
import_items store group (i ∷ is) menu = do
  menu' ← import_item store group i menu
  import_items store group is menu'

-- The CHECK `chk_og_select`.
abbrev pub has_range : ExportOptGroup → Bool
has_range g =
    not (is_negative g.min_select)
    && not (ltb_ℤ g.max_select (pos 1))
    && not (ltb_ℤ g.max_select g.min_select)

unfoldable pub import_group : ℕ → ℕ → ExportOptGroup → Menu → Menued Menu
import_group store product g menu = do
  t ← column_type g.selection_type
  fail_if (not (has_range g)) check_violation
  ok (record menu {
    option_groups =
        record {
          id = menu.next_group;
          store_id = store;
          product_id = product;
          name = g.name;
          selection_type = t;
          is_required = g.is_required;
          min_select = g.min_select;
          max_select = g.max_select;
          sort_order = pos 0;
          deleted_at = none;
        }
        ∷ menu.option_groups;
    next_group = menu.next_group + 1;
  })

unfoldable pub import_groups : ℕ → ℕ → List ExportOptGroup → Menu → Menued Menu
unfolding import_group import_items
import_groups store product [] menu = ok menu
import_groups store product (g ∷ gs) menu = do
  with_group ← import_group store product g menu
  menu' ← import_items store menu.next_group g.items with_group
  import_groups store product gs menu'

abbrev pub imported_product : ℕ → ℕ → ℕ → ExportProduct → Product
imported_product store category id p = record {
  id = id;
  store_id = store;
  category_id = category;
  code = [];
  name = p.name;
  description = p.description;
  image_url = p.image_url;
  enabled = true;
  manually_sold_out = false;
  sort_order = p.sort_order;
  packaging_fee_cents = p.packaging_fee_cents;
  deleted_at = none;
  delete_batch_id = 0;
}

unfoldable pub import_product : ℕ → ℕ → ExportProduct → Menu → Menued Menu
unfolding import_skus import_groups
import_product store category p menu = do
  fail_if (is_negative p.packaging_fee_cents) check_violation
  let id = menu.next_product
  with_skus ← import_skus store id p.skus (record menu {
    products = imported_product store category id p ∷ menu.products;
    next_product = id + 1;
  })
  import_groups store id p.option_groups with_skus

unfoldable pub import_products : ℕ → ℕ → List ExportProduct → Menu → Menued Menu
unfolding import_product
import_products store category [] menu = ok menu
import_products store category (p ∷ ps) menu = do
  menu' ← import_product store category p menu
  import_products store category ps menu'

abbrev pub imported_category : ℕ → ℕ → ExportCategory → Category
imported_category store id c = record {
  id = id;
  store_id = store;
  name = c.name;
  enabled = true;
  sort_order = c.sort_order;
  deleted_at = none;
  delete_batch_id = 0;
}

unfoldable pub import_categories : ℕ → List ExportCategory → Menu → Menued Menu
unfolding import_products
import_categories store [] menu = ok menu
import_categories store (c ∷ cs) menu = do
  let id = menu.next_category
  menu' ← import_products store id c.products (record menu {
    categories = imported_category store id c ∷ menu.categories;
    next_category = id + 1;
  })
  import_categories store cs menu'

abbrev pub is_live_category : ℕ → Category → Bool
is_live_category store c = (c.store_id == store) && not (is_set c.deleted_at)

abbrev pub is_live_dish : ℕ → Product → Bool
is_live_dish store p = (p.store_id == store) && not (is_set p.deleted_at)

-- The whole menu goes into the recycle bin, in one batch.
unfoldable pub replace_menu : ℕ → ℕ → ℕ → Menu → Menu
replace_menu store draw now menu = record menu {
  categories =
      update_where (is_live_category store) (recycle_category (new_batch draw) now) menu.categories;
  products = update_where (is_live_dish store) (recycle_product (new_batch draw) now) menu.products;
}

abbrev pub import_menu : ℕ → Option (List ExportCategory) → Menu → Menued Menu
import_menu store none menu = ok menu
import_menu store (some cs) menu = import_categories store cs menu

-- `appid_taken` is what the query on the mini-program configurations of other stores has found, with an AppID to
-- write. The UPDATE of that table is left out.
unfoldable pub import_file : ℕ → File → Bool → ℕ → ℕ → Menu → Menued Menu
unfolding replace_menu import_categories
import_file store f appid_taken draw now menu = do
  fail_if
      (not (same_text f.format (codes "dishflow.store-export")) || not (same_ℤ f.version (pos 1)))
      unsupported_format
  fail_if appid_taken appid_conflict
  import_menu store f.menu (replace_menu store draw now menu)
