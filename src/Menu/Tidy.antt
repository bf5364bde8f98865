-- ===== src/Menu/Tidy.antt =====
-- internal/menu: what holds of the rows of the menu, and the operations that keep it.
use dishflow_glm.Prelude.{
  ℕ, ◌+◌, ◌==◌, ◌≡◌, ◌≤◌, refl, arith, Bool, true, false, List, [], ◌∷◌, All, pos, ◌≤ℤ◌, ok,
  >>=-eq-ok, fail_if-eq-ok, ok_inj, count, subst, ◌∙◌,
}
use dishflow_glm.Menu.Rows.{
  Category, Product, Sku, OptionGroup, OptionItem, Menu, invalid_range, check_violation,
  negative_stock,
}
use dishflow_glm.Menu.Options.{
  NewSku, NewItem, NewGroup, is_negative, type_of, has_bad_range, validate_group, validate_groups,
  mode_of, check_skus,
}
use dishflow_glm.Menu.Dishes.{
  insert_sku, insert_skus, insert_item, insert_items, add_group, insert_groups,
}
use dishflow_glm.Menu.Recycle.{IsTidyRow, IsTidyProduct}

abbrev pub IsTidyCategory : Category → Type 0
IsTidyCategory c = IsTidyRow c.deleted_at c.delete_batch_id c.enabled

abbrev pub IsTidySku : Sku → Type 0
IsTidySku s = (pos 0 ≤ℤ s.price_cents) × (pos 0 ≤ℤ s.daily_stock)

-- The CHECKs on a group.
abbrev pub IsTidyGroup : OptionGroup → Type 0
IsTidyGroup g = (pos 0 ≤ℤ g.min_select) × (pos 1 ≤ℤ g.max_select) × (g.min_select ≤ℤ g.max_select)

abbrev pub IsTidyItem : OptionItem → Type 0
IsTidyItem i = pos 0 ≤ℤ i.price_modifier_cents

abbrev pub is_row_of : ℕ → Sku → Bool
is_row_of product s = s.product_id == product

abbrev pub HasFee : Product → Type 0
HasFee p = pos 0 ≤ℤ p.packaging_fee_cents

-- A dish with nothing to sell.
abbrev pub is_bare : List Sku → Product → Bool
is_bare skus p = count (is_row_of p.id) skus == 0

-- The rows are in order, and at most n dishes have no SKU.
pub record Tidy (n : ℕ) (menu : Menu) : Type 0 where
  pub categories : All IsTidyCategory menu.categories
  pub products : All IsTidyProduct menu.products
  pub skus : All IsTidySku menu.skus
  pub groups : All IsTidyGroup menu.option_groups
  pub items : All IsTidyItem menu.option_items
  pub fees : All HasFee menu.products
  pub bare : count (is_bare menu.skus) menu.products ≤ n

-- What the insertions of SKUs leave.
pub record WithSkus (product n : ℕ) (a b : Menu) : Type 0 where
  pub rest :
      (b.categories ≡ a.categories)
      × (b.products ≡ a.products)
      × (b.option_groups ≡ a.option_groups)
      × (b.option_items ≡ a.option_items)
  pub tidy : All IsTidySku a.skus → All IsTidySku b.skus
  pub counts : (p : ℕ) → count (is_row_of p) a.skus ≤ count (is_row_of p) b.skus
  pub fresh : n + count (is_row_of product) a.skus ≤ count (is_row_of product) b.skus

check_skus-cons :
    (s : NewSku) (ss : List NewSku)
    → check_skus (s ∷ ss) ≡ ok tt
    → (is_negative s.daily_stock ≡ false) × (check_skus ss ≡ ok tt)
unfolding check_skus
check_skus-cons s ss h =
    let (mode, known_mode, body) = >>=-eq-ok (mode_of s.inventory_mode) _ h in
    fail_if-eq-ok (is_negative s.daily_stock) negative_stock (check_skus ss) body

pub WithSkus-then :
    (product m n : ℕ) {a b c : Menu}
    → WithSkus product m a b
    → WithSkus product n b c
    → WithSkus product (m + n) a c
WithSkus-then product m n {a} {b} {c} one two = record {
  rest = (
    two.rest.0 ∙ one.rest.0,
    two.rest.1 ∙ one.rest.1,
    two.rest.2 ∙ one.rest.2,
    two.rest.3 ∙ one.rest.3,
  );
  tidy = λ t. two.tidy (one.tidy t);
  counts = λ p. omega (arith, one.counts p, two.counts p);
  fresh = omega (arith, one.fresh, two.fresh);
}

insert_sku-WithSkus :
    (store product : ℕ) (s : NewSku) (a : Menu) {b : Menu}
    → is_negative s.daily_stock ≡ false
    → insert_sku store product s a ≡ ok b
    → WithSkus product 1 a b
insert_sku-WithSkus store product s a {b} stock h =
    let (mode, known_mode, body) = >>=-eq-ok (mode_of s.inventory_mode) _ h in
    let (price, made) = fail_if-eq-ok (is_negative s.price_cents) check_violation _ body in
    subst (WithSkus product 1 a) (ok_inj made) (record {
      rest = (refl, refl, refl, refl);
      tidy = λ t. ((ground arith, ground arith), t);
      counts = λ p. ground arith;
      fresh = ground arith;
    })

pub insert_skus-WithSkus :
    (store product : ℕ) (ss : List NewSku) (a : Menu) {b : Menu}
    → check_skus ss ≡ ok tt
    → insert_skus store product ss a ≡ ok b
    → WithSkus product (count (λ s. true) ss) a b
unfolding insert_skus
insert_skus-WithSkus store product [] a checked h =
    subst (WithSkus product 0 a) (ok_inj h) (record {
      rest = (refl, refl, refl, refl);
      tidy = λ t. t;
      counts = λ p. omega arith;
      fresh = omega arith;
    })
insert_skus-WithSkus store product (s ∷ ss) a {b} checked h =
    let (stock, later) = check_skus-cons s ss checked in
    let (mid, first, then_) = >>=-eq-ok (insert_sku store product s a) _ h in
    WithSkus-then product 1 (count (λ s. true) ss)
      (insert_sku-WithSkus store product s a stock first)
      (insert_skus-WithSkus store product ss mid later then_)

-- What the insertions of groups leave.
pub record WithGroups (a b : Menu) : Type 0 where
  pub rest : (b.categories ≡ a.categories) × (b.products ≡ a.products) × (b.skus ≡ a.skus)
  pub groups : All IsTidyGroup a.option_groups → All IsTidyGroup b.option_groups
  pub items : All IsTidyItem a.option_items → All IsTidyItem b.option_items

pub WithGroups-then : {a b c : Menu} → WithGroups a b → WithGroups b c → WithGroups a c
WithGroups-then one two = record {
  rest = (two.rest.0 ∙ one.rest.0, two.rest.1 ∙ one.rest.1, two.rest.2 ∙ one.rest.2);
  groups = λ t. two.groups (one.groups t);
  items = λ t. two.items (one.items t);
}

insert_items-WithGroups :
    (store group : ℕ) (is : List NewItem) (a : Menu) {b : Menu}
    → insert_items store group is a ≡ ok b
    → WithGroups a b
unfolding insert_items
insert_items-WithGroups store group [] a h =
    subst (WithGroups a) (ok_inj h)
      (record { rest = (refl, refl, refl); groups = λ t. t; items = λ t. t })
insert_items-WithGroups store group (i ∷ is) a {b} h =
    let (mid, first, then_) = >>=-eq-ok (insert_item store group i a) _ h in
    let (price, made) =
      fail_if-eq-ok (is_negative i.price_modifier_cents) check_violation _ first in
    let one : WithGroups a mid =
      subst (WithGroups a) (ok_inj made)
        (record { rest = (refl, refl, refl); groups = λ t. t; items = λ t. (ground arith, t) }) in
    WithGroups-then one (insert_items-WithGroups store group is mid then_)

abbrev HasRange : NewGroup → Type 0
HasRange g = (pos 0 ≤ℤ g.min_select) × (pos 1 ≤ℤ g.max_select) × (g.min_select ≤ℤ g.max_select)

validate_group-HasRange : (g : NewGroup) → validate_group g ≡ ok tt → HasRange g
unfolding validate_group
validate_group-HasRange g h =
    let (t, known_type, body) = >>=-eq-ok (type_of g.selection_type) _ h in
    let (range, later) = fail_if-eq-ok (has_bad_range g) invalid_range _ body in
    (ground arith, ground arith, ground arith)

pub insert_groups-WithGroups :
    (store product : ℕ) (gs : List NewGroup) (a : Menu) {b : Menu}
    → validate_groups gs ≡ ok tt
    → insert_groups store product gs a ≡ ok b
    → WithGroups a b
unfolding insert_groups validate_groups
insert_groups-WithGroups store product [] a checked h =
    subst (WithGroups a) (ok_inj h)
      (record { rest = (refl, refl, refl); groups = λ t. t; items = λ t. t })
insert_groups-WithGroups store product (g ∷ gs) a {b} checked h =
    let (u, valid, later) = >>=-eq-ok (validate_group g) _ checked in
    let (t, known_type, body) = >>=-eq-ok (type_of g.selection_type) _ h in
    let (mid, first, then_) =
      >>=-eq-ok (insert_items store a.next_group g.items (add_group store product g t a)) _ body in
    let one : WithGroups a (add_group store product g t a) = record {
      rest = (refl, refl, refl);
      groups = λ all. (validate_group-HasRange g valid, all);
      items = λ all. all;
    } in
    WithGroups-then one (
      WithGroups-then (insert_items-WithGroups store a.next_group g.items _ first)
        (insert_groups-WithGroups store product gs mid later then_))
