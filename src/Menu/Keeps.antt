-- ===== src/Menu/Keeps.antt =====
-- internal/menu: each operation keeps the menu tidy.
use dishflow_glm.Prelude.{
  ℕ, ◌==◌, ◌≡◌, refl, arith, Bool, count-update_where, true, not, ◌||◌, Option, List, All,
  All-update_where, ok, >>=-eq-ok, fail_if-eq-ok, ok_inj, find?, count, update_where, Bool-cases,
  Option-cases, inl, inr, ap, subst,
}
use dishflow_glm.Migrate.Split.{Text, trim_space}
use dishflow_glm.Menu.Rows.{Category, Product, Menu, is_set, is_blank, name_required, no_rows}
use dishflow_glm.Menu.Categories.{
  CreateCategoryInput, UpdateCategoryInput, create_category, update_category, delete_category,
  restore_category, is_category, is_affected, set_fields, trimmed_name, new_batch, recycle_category,
  recycle_product, is_live_in, bring_back_category, bring_back_product, is_of_batch, check_deleted,
}
use dishflow_glm.Menu.Dishes.{
  delete_product, restore_product, is_live_product, is_product, check_parent,
}
use dishflow_glm.Menu.Recycle.{IsTidyProduct, delete_category-binned}
use dishflow_glm.Menu.Tidy.{Tidy, IsTidyCategory, is_bare}

-- An update of products that keeps their id and their fee, and categories that are written with it.
pub Tidy-update :
    (n : ℕ) (menu : Menu) (cs : List Category) (q : Product → Bool) (f : Product → Product)
    → Tidy n menu
    → All IsTidyCategory cs
    → ((p : Product) → IsTidyProduct (f p))
    → ((p : Product) → ((f p).id ≡ p.id) × ((f p).packaging_fee_cents ≡ p.packaging_fee_cents))
    → Tidy n (record menu { categories = cs; products = update_where q f menu.products })
Tidy-update n menu cs q f t tc tidy same = record {
  categories = tc;
  products = All-update_where q f menu.products (λ p s. s) (λ p e s. tidy p) t.products;
  skus = t.skus;
  groups = t.groups;
  items = t.items;
  fees = All-update_where q f menu.products (λ p s. s) (λ p e s. rw (same p).1 s) t.fees;
  bare =
      rw (count-update_where (is_bare menu.skus) q f menu.products (λ p. rw (same p).0 refl))
        t.bare;
}

pub update-IsTidyCategory :
    (q : Category → Bool) (f : Category → Category) (cs : List Category)
    → ((c : Category) → IsTidyCategory (f c))
    → All IsTidyCategory cs
    → All IsTidyCategory (update_where q f cs)
update-IsTidyCategory q f cs tidy t = All-update_where q f cs (λ c s. s) (λ c e s. tidy c) t

pub create_category-Tidy :
    (n : ℕ) (in_ : CreateCategoryInput) (id : ℕ) (a : Menu) {b : Menu}
    → Tidy n a
    → create_category in_ a ≡ ok (id, b)
    → Tidy n b
unfolding create_category
create_category-Tidy n in_ id a {b} t h =
    let made = (fail_if-eq-ok (is_blank (trim_space in_.name)) name_required _ h).1 in
    subst (Tidy n) (ap (λ (r : ℕ × Menu). r.1) (ok_inj made)) (record {
      categories = (refl, t.categories);
      products = t.products;
      skus = t.skus;
      groups = t.groups;
      items = t.items;
      fees = t.fees;
      bare = t.bare;
    })

affected-IsTidyCategory :
    (store id : ℕ) (name : Option Text) (in_ : UpdateCategoryInput) (c : Category)
    → is_affected store id name in_ c ≡ true
    → IsTidyCategory c
    → IsTidyCategory (set_fields name in_ c)
affected-IsTidyCategory store id name in_ c e t = elim (Option-cases c.deleted_at) [
  | inl live ↦ rw live (rw live at t)
  | inr (at, dead) ↦ absurd (let g = rw dead at e in ground arith)
]

pub update_category-Tidy :
    (n : ℕ) (store id : ℕ) (in_ : UpdateCategoryInput) (a : Menu) {b : Menu}
    → Tidy n a
    → update_category store id in_ a ≡ ok b
    → Tidy n b
unfolding update_category
update_category-Tidy n store id in_ a {b} t h =
    let (name, trimmed, body) = >>=-eq-ok (trimmed_name in_.name) _ h in
    elim (Bool-cases (not (is_set name || is_set in_.enabled || is_set in_.sort_order))) [
      | inl e ↦ subst (Tidy n) (ok_inj (rw e at body)) t
      | inr e ↦
          let (some_row, made) =
            fail_if-eq-ok (count (is_affected store id name in_) a.categories == 0) no_rows _
              (rw e at body) in
          subst (Tidy n) (ok_inj made) (record {
            categories =
                All-update_where (is_affected store id name in_) (set_fields name in_) a.categories
                  (λ c s. s) (affected-IsTidyCategory store id name in_) t.categories;
            products = t.products;
            skus = t.skus;
            groups = t.groups;
            items = t.items;
            fees = t.fees;
            bare = t.bare;
          })
    ]

pub delete_category-Tidy :
    (n : ℕ) (store id draw now batch : ℕ) (a : Menu) {b : Menu}
    → Tidy n a
    → delete_category store id draw now a ≡ ok (batch, b)
    → Tidy n b
delete_category-Tidy n store id draw now batch a {b} t h =
    subst (Tidy n) (delete_category-binned store id draw now batch a b h).1 (
      Tidy-update n a _ (is_live_in store id) (recycle_product (new_batch draw) now) t
        (update-IsTidyCategory (is_category store id) (recycle_category (new_batch draw) now)
          a.categories (λ c. (omega arith, refl)) t.categories)
        (λ p. (omega arith, refl)) (λ p. (refl, refl)))

pub restore_category-Tidy :
    (n : ℕ) (store id now : ℕ) (a : Menu) {b : Menu}
    → Tidy n a
    → restore_category store id now a ≡ ok b
    → Tidy n b
unfolding restore_category
restore_category-Tidy n store id now a {b} t h =
    elim (Option-cases (find? (is_category store id) a.categories)) [
      | inl nothing ↦ absurd (let bad = rw nothing at h in cc)
      | inr (c, there) ↦
          let (u, passed, made) = >>=-eq-ok (check_deleted now c.deleted_at) _ (rw there at h) in
          subst (Tidy n) (ok_inj made) (
            Tidy-update n a _ (is_of_batch store c.delete_batch_id) bring_back_product t
              (update-IsTidyCategory (is_category store id) bring_back_category a.categories
                (λ d. refl) t.categories)
              (λ p. refl) (λ p. (refl, refl)))
    ]

pub delete_product-Tidy :
    (n : ℕ) (store id draw now batch : ℕ) (a : Menu) {b : Menu}
    → Tidy n a
    → delete_product store id draw now a ≡ ok (batch, b)
    → Tidy n b
unfolding delete_product
delete_product-Tidy n store id draw now batch a {b} t h =
    let made = (fail_if-eq-ok (count (is_live_product store id) a.products == 0) no_rows _ h).1 in
    subst (Tidy n) (ap (λ (r : ℕ × Menu). r.1) (ok_inj made)) (
      Tidy-update n a a.categories (is_live_product store id) (recycle_product (new_batch draw) now)
        t t.categories (λ p. (omega arith, refl)) (λ p. (refl, refl)))

pub restore_product-Tidy :
    (n : ℕ) (store id now : ℕ) (a : Menu) {b : Menu}
    → Tidy n a
    → restore_product store id now a ≡ ok b
    → Tidy n b
unfolding restore_product
restore_product-Tidy n store id now a {b} t h =
    elim (Option-cases (find? (is_product store id) a.products)) [
      | inl nothing ↦ absurd (let bad = rw nothing at h in cc)
      | inr (p, there) ↦
          let (u, passed, parent) = >>=-eq-ok (check_deleted now p.deleted_at) _ (rw there at h) in
          let (v, alive, made) =
            >>=-eq-ok (check_parent (find? (is_category store p.category_id) a.categories)) _
              parent in
          subst (Tidy n) (ok_inj made) (
            Tidy-update n a a.categories (is_product store id) bring_back_product t t.categories
              (λ q. refl) (λ q. (refl, refl)))
    ]
