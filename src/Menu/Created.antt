-- ===== src/Menu/Created.antt =====
-- internal/menu/dishes.go: a new dish keeps the menu tidy.
use dishflow_glm.Prelude.{
  ℕ, ◌==◌, ◌≡◌, ◌≤◌, refl, sym, arith, if◌then◌else◌, ◌+◌, count-weaker, none, true, false, List,
  [], ◌∷◌, All, ok, >>=-eq-ok, fail_if-eq-ok, ok_inj, count, ap, subst, ◌∙◌,
}
use dishflow_glm.Migrate.Split.{trim_space}
use dishflow_glm.Menu.Rows.{Product, Menu, is_blank, name_required, sku_required, check_violation}
use dishflow_glm.Menu.Options.{NewSku, CreateProductInput, is_negative, validate_groups, check_skus}
use dishflow_glm.Menu.Dishes.{create_product, add_product, insert_skus, insert_groups}
use dishflow_glm.Menu.Recycle.{IsTidyProduct}
use dishflow_glm.Menu.Tidy.{
  Tidy, IsTidyCategory, IsTidySku, IsTidyGroup, IsTidyItem, HasFee, is_bare, WithSkus,
  insert_skus-WithSkus, WithGroups, insert_groups-WithGroups,
}

some_rows : (ss : List NewSku) → is_blank ss ≡ false → 1 ≤ count (λ s. true) ss
some_rows [] h = absurd (cc)
some_rows (s ∷ ss) h = omega arith

-- One more dish that has no SKU, if it gets none.
abbrev pub bare_of : ℕ → ℕ
bare_of k = if k == 0 then 1 else 0

-- A new dish with k SKUs and its groups.
pub added-Tidy :
    (n k : ℕ) (row : Product) (a mid done : Menu)
    → Tidy n a
    → IsTidyProduct row
    → HasFee row
    → WithSkus row.id k
        (record a { products = row ∷ a.products; next_product = a.next_product + 1 })
        mid
    → WithGroups mid done
    → Tidy (n + bare_of k) done
added-Tidy n k row a mid done t tidy fee ws wg =
    let fewer =
      count-weaker (is_bare mid.skus) (is_bare a.skus) a.products
        (λ p e. ground (arith, ws.counts p.id)) in
    let this : count (is_bare mid.skus) (row ∷ []) ≤ bare_of k = ground (arith, ws.fresh) in
    let all : count (is_bare mid.skus) (row ∷ a.products) ≤ n + bare_of k =
      ground (arith, fewer, t.bare, this) in
    record {
      categories = subst (All IsTidyCategory) (sym (wg.rest.0 ∙ ws.rest.0)) t.categories;
      products = subst (All IsTidyProduct) (sym (wg.rest.1 ∙ ws.rest.1)) (tidy, t.products);
      skus = subst (All IsTidySku) (sym wg.rest.2) (ws.tidy t.skus);
      groups = wg.groups (subst (All IsTidyGroup) (sym ws.rest.2) t.groups);
      items = wg.items (subst (All IsTidyItem) (sym ws.rest.3) t.items);
      fees = subst (All HasFee) (sym (wg.rest.1 ∙ ws.rest.1)) (fee, t.fees);
      bare = rw (wg.rest.2, wg.rest.1, ws.rest.1) all;
    }

pub create_product-Tidy :
    (n : ℕ) (in_ : CreateProductInput) (id : ℕ) (a : Menu) {b : Menu}
    → Tidy n a
    → create_product in_ a ≡ ok (id, b)
    → Tidy n b
unfolding create_product
create_product-Tidy n in_ id a {b} t h =
    let name = trim_space in_.name in
    let with_sku = (fail_if-eq-ok (is_blank name) name_required _ h).1 in
    let (some_sku, valid) = fail_if-eq-ok (is_blank in_.skus) sku_required _ with_sku in
    let (u, groups_valid, checked) = >>=-eq-ok (validate_groups in_.option_groups) _ valid in
    let (v, skus_valid, fee) = >>=-eq-ok (check_skus in_.skus) _ checked in
    let (no_loss, body) =
      fail_if-eq-ok (is_negative in_.packaging_fee_cents) check_violation _ fee in
    let added = add_product in_ name a in
    let (mid, sku_rows, later) =
      >>=-eq-ok (insert_skus in_.store_id a.next_product in_.skus added) _ body in
    let (done, group_rows, made) =
      >>=-eq-ok (insert_groups in_.store_id a.next_product in_.option_groups mid) _ later in
    let ws = insert_skus-WithSkus in_.store_id a.next_product in_.skus added skus_valid sku_rows in
    let wg =
      insert_groups-WithGroups in_.store_id a.next_product in_.option_groups mid groups_valid
        group_rows in
    let enough = some_rows in_.skus some_sku in
    let row : Product = record {
      id = a.next_product;
      store_id = in_.store_id;
      category_id = in_.category_id;
      code = in_.code;
      name = name;
      description = in_.description;
      image_url = in_.image_url;
      enabled = in_.enabled;
      manually_sold_out = in_.manually_sold_out;
      sort_order = in_.sort_order;
      packaging_fee_cents = in_.packaging_fee_cents;
      deleted_at = none;
      delete_batch_id = 0;
    } in
    let none_bare : n + bare_of (count (λ s. true) in_.skus) ≡ n = ground (arith, enough) in
    subst (Tidy n) (ap (λ (r : ℕ × Menu). r.1) (ok_inj made)) (
      subst (λ m. Tidy m done) none_bare
        (added-Tidy n (count (λ s. true) in_.skus) row a mid done t refl (ground arith) ws wg))
