-- ===== src/Menu/Dishes.antt =====
-- internal/menu/dishes.go: `CreateProduct`, `DeleteProduct` and `RestoreProduct`.
use dishflow_glm.Prelude.{
  ℕ, ◌==◌, ◌+◌, Bool, not, ◌&&◌, Option, none, some, List, [], ◌∷◌, ok, err, ◌>>=◌, ◌>>◌, fail_if,
  find?, count, update_where,
}
use dishflow_glm.Migrate.Split.{Text, trim_space}
use dishflow_glm.Pricing.Types.{SelectionType}
use dishflow_glm.Menu.Rows.{
  Category, Product, Menu, Menued, name_required, sku_required, no_rows, parent_deleted,
  check_violation, is_blank, is_set,
}
use dishflow_glm.Menu.Categories.{
  is_category, new_batch, recycle_product, bring_back_product, check_deleted,
}
use dishflow_glm.Menu.Options.{
  NewSku, NewItem, NewGroup, CreateProductInput, is_negative, type_of, validate_groups, mode_of,
  check_skus,
}

-- The CHECK on the price; those on the mode and the stock repeat the tests above.
abbrev pub insert_sku : ℕ → ℕ → NewSku → Menu → Menued Menu
insert_sku store product s menu = do
  mode ← mode_of s.inventory_mode
  fail_if (is_negative s.price_cents) check_violation
  let id = menu.next_sku
  ok (record menu {
    skus =
        record {
          id = id;
          store_id = store;
          product_id = product;
          name = s.name;
          price_cents = s.price_cents;
          inventory_mode = mode;
          daily_stock = s.daily_stock;
          enabled = s.enabled;
          is_default = s.is_default;
          sort_order = s.sort_order;
          deleted_at = none;
        }
        ∷ menu.skus;
    next_sku = id + 1;
  })

unfoldable pub insert_skus : ℕ → ℕ → List NewSku → Menu → Menued Menu
insert_skus store product [] menu = ok menu
insert_skus store product (s ∷ ss) menu =
    insert_sku store product s menu >>= λ menu'. insert_skus store product ss menu'

abbrev pub insert_item : ℕ → ℕ → NewItem → Menu → Menued Menu
insert_item store group i menu = do
  fail_if (is_negative i.price_modifier_cents) check_violation
  let id = menu.next_item
  ok (record menu {
    option_items =
        record {
          id = id;
          store_id = store;
          option_group_id = group;
          name = i.name;
          price_modifier_cents = i.price_modifier_cents;
          enabled = i.enabled;
          is_default = i.is_default;
          sort_order = i.sort_order;
          deleted_at = none;
        }
        ∷ menu.option_items;
    next_item = id + 1;
  })

unfoldable pub insert_items : ℕ → ℕ → List NewItem → Menu → Menued Menu
insert_items store group [] menu = ok menu
insert_items store group (i ∷ is) menu =
    insert_item store group i menu >>= λ menu'. insert_items store group is menu'

-- The row of a group; the CHECKs on it repeat the tests above.
abbrev pub add_group : ℕ → ℕ → NewGroup → SelectionType → Menu → Menu
add_group store product g t menu = record menu {
  option_groups =
      record {
        id = menu.next_group;
        store_id = store;
        product_id = product;
        name = g.name;
        selection_type = t;
        is_required = g.is_required;
        min_select = g.min_select;
        max_select = g.max_select;
        sort_order = g.sort_order;
        deleted_at = none;
      }
      ∷ menu.option_groups;
  next_group = menu.next_group + 1;
}

unfoldable pub insert_groups : ℕ → ℕ → List NewGroup → Menu → Menued Menu
unfolding insert_items
insert_groups store product [] menu = ok menu
insert_groups store product (g ∷ gs) menu = do
  t ← type_of g.selection_type
  menu' ← insert_items store menu.next_group g.items (add_group store product g t menu)
  insert_groups store product gs menu'

abbrev pub add_product : CreateProductInput → Text → Menu → Menu
add_product in_ name menu = record menu {
  products =
      record {
        id = menu.next_product;
        store_id = in_.store_id;
        category_id = in_.category_id;
        code = in_.code;
        name = name;
        description = in_.description;
        image_url = in_.image_url;
        enabled = in_.enabled;
        manually_sold_out = in_.manually_sold_out;
        sort_order = in_.sort_order;
        packaging_fee_cents = in_.packaging_fee_cents;
        deleted_at = none;
        delete_batch_id = 0;
      }
      ∷ menu.products;
  next_product = menu.next_product + 1;
}

unfoldable pub create_product : CreateProductInput → Menu → Menued (ℕ × Menu)
unfolding trim_space validate_groups check_skus insert_skus insert_groups
create_product in_ menu = do
  let name = trim_space in_.name
  fail_if (is_blank name) name_required
  fail_if (is_blank in_.skus) sku_required
  validate_groups in_.option_groups
  check_skus in_.skus
  fail_if (is_negative in_.packaging_fee_cents) check_violation
  let id = menu.next_product
  with_skus ← insert_skus in_.store_id id in_.skus (add_product in_ name menu)
  done ← insert_groups in_.store_id id in_.option_groups with_skus
  ok (id, done)

abbrev pub is_product : ℕ → ℕ → Product → Bool
is_product store id p = (p.id == id) && (p.store_id == store)

abbrev pub is_live_product : ℕ → ℕ → Product → Bool
is_live_product store id p = is_product store id p && not (is_set p.deleted_at)

unfoldable pub delete_product : ℕ → ℕ → ℕ → ℕ → Menu → Menued (ℕ × Menu)
delete_product store id draw now menu = do
  fail_if (count (is_live_product store id) menu.products == 0) no_rows
  ok (
    new_batch draw,
    record menu {
      products =
          update_where (is_live_product store id) (recycle_product (new_batch draw) now)
            menu.products;
    },
  )

abbrev pub check_parent : Option Category → Menued (Unit {0})
check_parent none = err no_rows
check_parent (some c) = fail_if (is_set c.deleted_at) parent_deleted

abbrev pub restore_product_found : ℕ → ℕ → ℕ → Option Product → Menu → Menued Menu
restore_product_found store id now none menu = err no_rows
restore_product_found store id now (some p) menu = do
  check_deleted now p.deleted_at
  check_parent (find? (is_category store p.category_id) menu.categories)
  ok (record menu {
    products = update_where (is_product store id) bring_back_product menu.products;
  })

unfoldable pub restore_product : ℕ → ℕ → ℕ → Menu → Menued Menu
restore_product store id now menu =
    restore_product_found store id now (find? (is_product store id) menu.products) menu
