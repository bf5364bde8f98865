-- ===== src/Tests/Menu.antt =====
-- internal/menu: a category with a dish is deleted and restored.
use dishflow_glm.Prelude.{
  ℕ, ◌≡◌, refl, arith, true, false, none, some, count, ◌+◌, [], ◌∷◌, pos, ◌≤◌, map, update_where,
  ok, err,
}
use dishflow_glm.Pricing.Types.{daily, multi}
use dishflow_glm.Printing.Receipt.{codes}
use dishflow_glm.Migrate.Split.{trim_space}
use dishflow_glm.Menu.Rows.{
  Menu, Menued, blank, known, time_since_days, window_expired, many_defaults,
}
use dishflow_glm.Menu.Categories.{
  CreateCategoryInput, create_category, is_category, is_live_in, delete_category, restore_category,
}
use dishflow_glm.Menu.Options.{NewItem, NewGroup, CreateProductInput, validate_group}
use dishflow_glm.Menu.Dishes.{create_product}
use dishflow_glm.Menu.Lists.{list_products}
use dishflow_glm.Menu.Recycle.{take_down, put_back, restore_category-delete_category}
use dishflow_glm.Menu.File.{File}
use dishflow_glm.Menu.Import.{import_file}
use dishflow_glm.Menu.Tidy.{Tidy, is_bare}
use dishflow_glm.Menu.History.{
  MenuHistory, start, then_, creates_category, creates_product, deletes_category, restores_category,
  imports, bare_imports, MenuHistory-Tidy,
}

abbrev empty_menu : Menu
empty_menu = record {
  categories = [];
  products = [];
  skus = [];
  option_groups = [];
  option_items = [];
  next_category = 1;
  next_product = 1;
  next_sku = 1;
  next_group = 1;
  next_item = 1;
}

abbrev soups : CreateCategoryInput
soups = record { store_id = 1; name = codes " soups "; enabled = true; sort_order = pos 0 }

abbrev chili : NewItem
chili = record {
  name = codes "chili";
  price_modifier_cents = pos 50;
  enabled = true;
  is_default = true;
  sort_order = pos 0;
}

abbrev sesame : NewItem
sesame = record {
  name = codes "sesame";
  price_modifier_cents = pos 0;
  enabled = true;
  is_default = true;
  sort_order = pos 1;
}

abbrev toppings : NewGroup
toppings = record {
  name = codes "toppings";
  selection_type = known multi;
  is_required = false;
  min_select = pos 0;
  max_select = pos 2;
  sort_order = pos 0;
  items = chili ∷ sesame ∷ [];
}

abbrev noodle_soup : CreateProductInput
noodle_soup = record {
  store_id = 1;
  category_id = 1;
  code = [];
  name = codes "noodle soup";
  description = [];
  image_url = [];
  enabled = true;
  manually_sold_out = false;
  sort_order = pos 0;
  packaging_fee_cents = pos 100;
  skus =
      record {
        name = [];
        price_cents = pos 1800;
        inventory_mode = known daily;
        daily_stock = pos 30;
        enabled = true;
        is_default = true;
        sort_order = pos 0;
      }
      ∷ [];
  option_groups = toppings ∷ [];
}

abbrev or_same : {A : Type 0} → A → Menued A → A
or_same a (ok b) = b
or_same a (err e) = a

abbrev opened : ℕ × Menu
unfolding create_category trim_space
opened = or_same (0, empty_menu) (create_category soups empty_menu)

abbrev filled : ℕ × Menu
unfolding create_product create_category trim_space
filled = or_same (0, empty_menu) (create_product noodle_soup opened.1)

abbrev binned : ℕ × Menu
unfolding create_product create_category delete_category trim_space
binned = or_same (0, empty_menu) (delete_category 1 1 7 1000 filled.1)

abbrev restored : Menu
unfolding create_product create_category delete_category restore_category trim_space time_since_days
restored = or_same empty_menu (restore_category 1 1 2000 binned.1)

filled_count : (filled.1.next_product ≡ 2) × (filled.1.next_item ≡ 3)
unfolding create_product create_category trim_space
filled_count = (refl, refl)

-- A file with a tea that lists no SKU.
abbrev tea : File
tea = record {
  format = codes "dishflow.store-export";
  version = pos 1;
  menu = some (
      record {
        name = codes "drinks";
        sort_order = pos 0;
        products =
            record {
              name = codes "tea";
              description = [];
              image_url = [];
              sort_order = pos 0;
              packaging_fee_cents = pos 0;
              skus = [];
              option_groups = [];
            }
            ∷ [];
      }
      ∷ []);
}

abbrev imported : Menu
unfolding create_product create_category delete_category restore_category import_file trim_space
    time_since_days
imported = or_same restored (import_file 1 tea false 9 3000 restored)

history : MenuHistory empty_menu imported
unfolding create_product create_category delete_category restore_category import_file trim_space
    time_since_days
history =
    then_
      (then_
        (then_
          (then_ (then_ start (creates_category soups 1 refl)) (creates_product noodle_soup 1 refl))
          (deletes_category 1 1 7 1000 8 refl))
        (restores_category 1 1 2000 refl))
      (imports 1 tea false 9 3000 refl)

empty_menu-Tidy : Tidy 0 empty_menu
empty_menu-Tidy = record {
  categories = tt;
  products = tt;
  skus = tt;
  groups = tt;
  items = tt;
  fees = tt;
  bare = omega arith;
}

MenuHistory-Tidy_example : Tidy (0 + bare_imports history) imported
MenuHistory-Tidy_example = MenuHistory-Tidy 0 empty_menu-Tidy history

-- The tea is there, with nothing to sell.
imported_bare : count (is_bare imported.skus) imported.products ≡ 1
unfolding create_product create_category delete_category restore_category import_file trim_space
    time_since_days
imported_bare = refl

recent : time_since_days 2000 1000 ≤ 30
unfolding time_since_days
recent = omega arith

deletion : delete_category 1 1 7 1000 filled.1 ≡ ok (8, binned.1)
unfolding create_product create_category delete_category trim_space
deletion = refl

restore_category-delete_category_example :
    restore_category 1 1 2000 binned.1
    ≡ ok (record filled.1 {
      categories = update_where (is_category 1 1) put_back filled.1.categories;
      products = update_where (is_live_in 1 1) take_down filled.1.products;
    })
unfolding create_product create_category delete_category trim_space
restore_category-delete_category_example =
    restore_category-delete_category 1 1 7 1000 2000 8 filled.1 binned.1 (refl, tt) (refl, tt)
      recent deletion

-- The dish was on sale, and no longer is.
taken_down :
    (map (λ p. p.enabled) filled.1.products ≡ true ∷ [])
    × (map (λ p. p.enabled) restored.products ≡ false ∷ [])
unfolding create_product create_category delete_category restore_category trim_space time_since_days
taken_down = (refl, refl)

-- A day of grace: at 30 days and 23 hours the window is still open, at 31 days it is closed.
window_closed :
    (time_since_days 2674800000 0 ≡ 30)
    × (restore_category 1 1 2678401000 binned.1 ≡ err window_expired)
unfolding create_product create_category delete_category restore_category trim_space time_since_days
window_closed = (refl, refl)

-- A dish that is created in a deleted category is live there.
dish_in_bin :
    map
      (λ p. p.deleted_at)
      (list_products 1 1 false (or_same (0, binned.1) (create_product noodle_soup binned.1)).1)
    ≡ none ∷ []
unfolding create_product create_category delete_category list_products trim_space
dish_in_bin = refl

one_default_too_many :
    validate_group (record toppings { selection_type = blank }) ≡ err many_defaults
unfolding validate_group
one_default_too_many = refl
