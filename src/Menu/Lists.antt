-- ===== src/Menu/Lists.antt =====
-- internal/menu/dishes.go: the lists of dishes, and a dish in detail.
use dishflow_glm.Prelude.{
  ℕ, ltb, ◌==◌, Bool, not, ◌&&◌, ◌||◌, Option, none, some, List, [], ◌∷◌, ok, err, find?,
}
use dishflow_glm.Menu.Rows.{
  Product, Sku, OptionGroup, OptionItem, Menu, Menued, no_rows, is_set, rows_where, order_rows,
  before_by,
}
use dishflow_glm.Menu.Dishes.{is_live_product}

abbrev pub is_listed_product : ℕ → ℕ → Bool → Product → Bool
is_listed_product store category include_deleted p =
    (p.store_id == store)
    && (not (ltb 0 category) || (p.category_id == category))
    && (include_deleted || not (is_set p.deleted_at))

abbrev pub before_product : Product → Product → Bool
before_product p q = before_by p.sort_order p.id q.sort_order q.id

unfoldable pub list_products : ℕ → ℕ → Bool → Menu → List Product
list_products store category include_deleted menu =
    order_rows before_product
      (rows_where (is_listed_product store category include_deleted) menu.products)

abbrev pub is_sku_of : ℕ → ℕ → Sku → Bool
is_sku_of store product s =
    (s.store_id == store) && (s.product_id == product) && not (is_set s.deleted_at)

abbrev pub before_sku : Sku → Sku → Bool
before_sku s t = before_by s.sort_order s.id t.sort_order t.id

unfoldable pub list_skus : ℕ → ℕ → Menu → List Sku
list_skus store product menu =
    order_rows before_sku (rows_where (is_sku_of store product) menu.skus)

abbrev pub is_group_of : ℕ → ℕ → OptionGroup → Bool
is_group_of store product g =
    (g.store_id == store) && (g.product_id == product) && not (is_set g.deleted_at)

abbrev pub before_group : OptionGroup → OptionGroup → Bool
before_group g h = before_by g.sort_order g.id h.sort_order h.id

abbrev pub is_item_of : ℕ → OptionItem → Bool
is_item_of group i = (i.option_group_id == group) && not (is_set i.deleted_at)

abbrev pub before_item : OptionItem → OptionItem → Bool
before_item i j = before_by i.sort_order i.id j.sort_order j.id

-- The map from a group to its items, for the groups that are listed.
abbrev pub with_items : List OptionItem → List OptionGroup → List (OptionGroup × List OptionItem)
with_items items [] = []
with_items items (g ∷ gs) =
    (g, order_rows before_item (rows_where (is_item_of g.id) items)) ∷ with_items items gs

unfoldable pub list_option_groups : ℕ → ℕ → Menu → List (OptionGroup × List OptionItem)
list_option_groups store product menu =
    with_items menu.option_items
      (order_rows before_group (rows_where (is_group_of store product) menu.option_groups))

abbrev pub detail_found :
    ℕ → Option Product → Menu → Menued (Product × List Sku × List (OptionGroup × List OptionItem))
unfolding list_skus list_option_groups
detail_found store none menu = err no_rows
detail_found store (some p) menu =
    ok (p, list_skus store p.id menu, list_option_groups store p.id menu)

unfoldable pub get_product_detail :
    ℕ → ℕ → Menu → Menued (Product × List Sku × List (OptionGroup × List OptionItem))
get_product_detail store id menu =
    detail_found store (find? (is_live_product store id) menu.products) menu
