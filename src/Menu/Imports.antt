-- ===== src/Menu/Imports.antt =====
-- internal/export/store.go: an import keeps the menu tidy, but for the dishes that its file lists without SKUs.
use dishflow_glm.Prelude.{
  ℕ, ◌+◌, ◌≡◌, refl, arith, Bool, true, not, ◌||◌, Option, none, some, List, [], ◌∷◌, pos, ok,
  >>=-eq-ok, fail_if-eq-ok, ok_inj, count, subst,
}
use dishflow_glm.Printing.Receipt.{codes}
use dishflow_glm.Menu.Rows.{
  Menu, check_violation, unsupported_format, appid_conflict, same_text, same_ℤ,
}
use dishflow_glm.Menu.Categories.{new_batch, recycle_category, recycle_product}
use dishflow_glm.Menu.Options.{is_negative}
use dishflow_glm.Menu.File.{
  ExportSku, ExportOptItem, ExportOptGroup, ExportProduct, ExportCategory, File, column_mode,
  column_type,
}
use dishflow_glm.Menu.Import.{
  import_sku, import_skus, import_item, import_items, has_range, import_group, import_groups,
  imported_product, import_product, import_products, imported_category, import_categories,
  is_live_category, is_live_dish, replace_menu, import_menu, import_file,
}
use dishflow_glm.Menu.Tidy.{Tidy, WithSkus, WithSkus-then, WithGroups, WithGroups-then}
use dishflow_glm.Menu.Keeps.{Tidy-update, update-IsTidyCategory}
use dishflow_glm.Menu.Created.{bare_of, added-Tidy}

import_sku-WithSkus :
    (store product : ℕ) (s : ExportSku) (a : Menu) {b : Menu}
    → import_sku store product s a ≡ ok b
    → WithSkus product 1 a b
unfolding import_sku
import_sku-WithSkus store product s a {b} h =
    let (mode, known_mode, body) = >>=-eq-ok (column_mode s.inventory_mode) _ h in
    let (fine, made) =
      fail_if-eq-ok (is_negative s.price_cents || is_negative s.daily_stock) check_violation _
        body in
    subst (WithSkus product 1 a) (ok_inj made) (record {
      rest = (refl, refl, refl, refl);
      tidy = λ t. ((ground arith, ground arith), t);
      counts = λ p. ground arith;
      fresh = ground arith;
    })

import_skus-WithSkus :
    (store product : ℕ) (ss : List ExportSku) (a : Menu) {b : Menu}
    → import_skus store product ss a ≡ ok b
    → WithSkus product (count (λ s. true) ss) a b
unfolding import_skus
import_skus-WithSkus store product [] a h = subst (WithSkus product 0 a) (ok_inj h) (record {
  rest = (refl, refl, refl, refl);
  tidy = λ t. t;
  counts = λ p. omega arith;
  fresh = omega arith;
})
import_skus-WithSkus store product (s ∷ ss) a {b} h =
    let (mid, first, then_) = >>=-eq-ok (import_sku store product s a) _ h in
    WithSkus-then product 1 (count (λ s. true) ss) (import_sku-WithSkus store product s a first)
      (import_skus-WithSkus store product ss mid then_)

import_items-WithGroups :
    (store group : ℕ) (is : List ExportOptItem) (a : Menu) {b : Menu}
    → import_items store group is a ≡ ok b
    → WithGroups a b
unfolding import_items import_item
import_items-WithGroups store group [] a h =
    subst (WithGroups a) (ok_inj h)
      (record { rest = (refl, refl, refl); groups = λ t. t; items = λ t. t })
import_items-WithGroups store group (i ∷ is) a {b} h =
    let (mid, first, then_) = >>=-eq-ok (import_item store group i a) _ h in
    let (price, made) =
      fail_if-eq-ok (is_negative i.price_modifier_cents) check_violation _ first in
    let one : WithGroups a mid =
      subst (WithGroups a) (ok_inj made)
        (record { rest = (refl, refl, refl); groups = λ t. t; items = λ t. (ground arith, t) }) in
    WithGroups-then one (import_items-WithGroups store group is mid then_)

import_group-WithGroups :
    (store product : ℕ) (g : ExportOptGroup) (a : Menu) {b : Menu}
    → import_group store product g a ≡ ok b
    → WithGroups a b
unfolding import_group
import_group-WithGroups store product g a {b} h =
    let (t, known_type, body) = >>=-eq-ok (column_type g.selection_type) _ h in
    let (range, made) = fail_if-eq-ok (not (has_range g)) check_violation _ body in
    subst (WithGroups a) (ok_inj made) (record {
      rest = (refl, refl, refl);
      groups = λ all. ((ground arith, ground arith, ground arith), all);
      items = λ all. all;
    })

import_groups-WithGroups :
    (store product : ℕ) (gs : List ExportOptGroup) (a : Menu) {b : Menu}
    → import_groups store product gs a ≡ ok b
    → WithGroups a b
unfolding import_groups
import_groups-WithGroups store product [] a h =
    subst (WithGroups a) (ok_inj h)
      (record { rest = (refl, refl, refl); groups = λ t. t; items = λ t. t })
import_groups-WithGroups store product (g ∷ gs) a {b} h =
    let (with_group, first, body) = >>=-eq-ok (import_group store product g a) _ h in
    let (mid, second, then_) =
      >>=-eq-ok (import_items store a.next_group g.items with_group) _ body in
    WithGroups-then (import_group-WithGroups store product g a first) (
      WithGroups-then (import_items-WithGroups store a.next_group g.items with_group second)
        (import_groups-WithGroups store product gs mid then_))

-- The dishes without an SKU that a file lists.
abbrev pub bare_product : ExportProduct → ℕ
bare_product p = bare_of (count (λ s. true) p.skus)

abbrev pub bare_products : List ExportProduct → ℕ
bare_products [] = 0
bare_products (p ∷ ps) = bare_product p + bare_products ps

abbrev pub bare_categories : List ExportCategory → ℕ
bare_categories [] = 0
bare_categories (c ∷ cs) = bare_products c.products + bare_categories cs

abbrev pub bare_menu : Option (List ExportCategory) → ℕ
bare_menu none = 0
bare_menu (some cs) = bare_categories cs

module _ (store : ℕ) where
  import_product-Tidy :
      (n category : ℕ) (p : ExportProduct) (a : Menu) {b : Menu}
      → Tidy n a
      → import_product store category p a ≡ ok b
      → Tidy (n + bare_product p) b
  unfolding import_product
  import_product-Tidy n category p a {b} t h =
      let (fee, body) = fail_if-eq-ok (is_negative p.packaging_fee_cents) check_violation _ h in
      let id = a.next_product in
      let row = imported_product store category id p in
      let (mid, sku_rows, group_rows) =
        >>=-eq-ok
          (import_skus store id p.skus
            (record a { products = row ∷ a.products; next_product = id + 1 }))
          _ body in
      added-Tidy n (count (λ s. true) p.skus) row a mid b t refl (ground arith)
        (import_skus-WithSkus store id p.skus _ sku_rows)
        (import_groups-WithGroups store id p.option_groups mid group_rows)

  import_products-Tidy :
      (n category : ℕ) (ps : List ExportProduct) (a : Menu) {b : Menu}
      → Tidy n a
      → import_products store category ps a ≡ ok b
      → Tidy (n + bare_products ps) b
  unfolding import_products
  import_products-Tidy n category [] a {b} t h =
      let same : n ≡ n + 0 = omega arith in subst (λ m. Tidy m b) same (subst (Tidy n) (ok_inj h) t)
  import_products-Tidy n category (p ∷ ps) a {b} t h =
      let (mid, first, then_) = >>=-eq-ok (import_product store category p a) _ h in
      let sum : n + bare_product p + bare_products ps ≡ n + (bare_product p + bare_products ps) =
        omega arith in
      subst (λ m. Tidy m b) sum
        (import_products-Tidy (n + bare_product p) category ps mid
          (import_product-Tidy n category p a t first) then_)

  import_categories-Tidy :
      (n : ℕ) (cs : List ExportCategory) (a : Menu) {b : Menu}
      → Tidy n a
      → import_categories store cs a ≡ ok b
      → Tidy (n + bare_categories cs) b
  unfolding import_categories
  import_categories-Tidy n [] a {b} t h =
      let same : n ≡ n + 0 = omega arith in subst (λ m. Tidy m b) same (subst (Tidy n) (ok_inj h) t)
  import_categories-Tidy n (c ∷ cs) a {b} t h =
      let id = a.next_category in
      let with_row : Menu = record a {
        categories = imported_category store id c ∷ a.categories;
        next_category = id + 1;
      } in
      let started : Tidy n with_row = record {
        categories = (refl, t.categories);
        products = t.products;
        skus = t.skus;
        groups = t.groups;
        items = t.items;
        fees = t.fees;
        bare = t.bare;
      } in
      let (mid, first, then_) = >>=-eq-ok (import_products store id c.products with_row) _ h in
      let sum : n + bare_products c.products + bare_categories cs
          ≡ n + (bare_products c.products + bare_categories cs) =
        omega arith in
      subst (λ m. Tidy m b) sum
        (import_categories-Tidy (n + bare_products c.products) cs mid
          (import_products-Tidy n id c.products with_row started first) then_)

  replace_menu-Tidy :
      (n draw now : ℕ) (a : Menu) → Tidy n a → Tidy n (replace_menu store draw now a)
  unfolding replace_menu
  replace_menu-Tidy n draw now a t =
      Tidy-update n a _ (is_live_dish store) (recycle_product (new_batch draw) now) t
        (update-IsTidyCategory (is_live_category store) (recycle_category (new_batch draw) now)
          a.categories (λ c. (omega arith, refl)) t.categories)
        (λ p. (omega arith, refl)) (λ p. (refl, refl))

  import_menu-Tidy :
      (n : ℕ) (cs : Option (List ExportCategory)) (a : Menu) {b : Menu}
      → Tidy n a
      → import_menu store cs a ≡ ok b
      → Tidy (n + bare_menu cs) b
  import_menu-Tidy n none a {b} t h =
      let same : n ≡ n + 0 = omega arith in subst (λ m. Tidy m b) same (subst (Tidy n) (ok_inj h) t)
  import_menu-Tidy n (some cs) a t h = import_categories-Tidy n cs a t h

  pub import_file-Tidy :
      (n : ℕ) (f : File) (appid_taken : Bool) (draw now : ℕ) (a : Menu) {b : Menu}
      → Tidy n a
      → import_file store f appid_taken draw now a ≡ ok b
      → Tidy (n + bare_menu f.menu) b
  unfolding import_file
  import_file-Tidy n f appid_taken draw now a t h =
      let right =
        (fail_if-eq-ok
          (not (same_text f.format (codes "dishflow.store-export"))
            || not (same_ℤ f.version (pos 1)))
          unsupported_format _ h).1 in
      let made = (fail_if-eq-ok appid_taken appid_conflict _ right).1 in
      import_menu-Tidy n f.menu _ (replace_menu-Tidy n draw now a t) made
