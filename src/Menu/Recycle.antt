-- ===== src/Menu/Recycle.antt =====
-- internal/menu: a category that is deleted and restored within the window.
use dishflow_glm.Prelude.{
  ℕ, ◌==◌, ◌≡◌, ◌≤◌, ◌<◌, refl, arith, Bool, true, false, Option, none, some, List, [], ◌∷◌, All,
  ok, find?, update_where, find?-update_where, find?_holds, update_where-twice, ltb, Bool-cases,
  Option-cases, inl, inr, fail_if-eq-ok, ok_inj, ==_refl, ap,
}
use dishflow_glm.Menu.Rows.{
  Category, Product, Menu, already_deleted, is_set, rows_where, order_rows, time_since_days,
}
use dishflow_glm.Menu.Categories.{
  is_category, new_batch, recycle_category, recycle_product, is_live_in, delete_category,
  bring_back_category, bring_back_product, is_of_batch, check_deleted, restore_category,
}
use dishflow_glm.Menu.Lists.{list_products, is_listed_product, before_product}

-- A row is in the recycle bin, and then not on sale, or it has no batch.
abbrev pub IsTidyRow : Option ℕ → ℕ → Bool → Type 0
IsTidyRow none batch enabled = batch ≡ 0
IsTidyRow (some t) batch enabled = (0 < batch) × (enabled ≡ false)

abbrev pub IsTidyProduct : Product → Type 0
IsTidyProduct p = IsTidyRow p.deleted_at p.delete_batch_id p.enabled

abbrev pub IsFresh : ℕ → Product → Type 0
IsFresh draw p = (p.delete_batch_id == new_batch draw) ≡ false

abbrev pub take_down : Product → Product
take_down p = record p { enabled = false }

abbrev pub put_back : Category → Category
put_back c = record c { deleted_at = none; delete_batch_id = 0; enabled = true }

live_row :
    (store id : ℕ) (p : Product)
    → is_live_in store id p ≡ true
    → ((p.store_id == store) ≡ true) × (p.deleted_at ≡ none)
live_row store id p h = elim (Option-cases p.deleted_at) [
  | inl e ↦ (ground arith, e)
  | inr (t, e) ↦ absurd (let g = rw e at h in ground arith)
]

other_batch :
    (store draw : ℕ) (p : Product) → IsFresh draw p → is_of_batch store (new_batch draw) p ≡ false
other_batch store draw p f = ground arith

products_back :
    (store id draw now : ℕ) (ps : List Product)
    → All (IsFresh draw) ps
    → All IsTidyProduct ps
    → update_where
        (is_of_batch store (new_batch draw))
        bring_back_product
        (update_where (is_live_in store id) (recycle_product (new_batch draw) now) ps)
      ≡ update_where (is_live_in store id) take_down ps
products_back store id draw now [] fresh tidy = refl
products_back store id draw now (p ∷ ps) (f, fresh) (t, tidy) =
    let rest = products_back store id draw now ps fresh tidy in
    elim (Bool-cases (is_live_in store id p)) [
      | inl e ↦
          let (at, live) = live_row store id p e in
          let batch : p.delete_batch_id ≡ 0 = rw live at t in
          rw (e, at, ==_refl (new_batch draw), rest) (rw (live, batch) refl)
      | inr e ↦ rw (e, other_batch store draw p f, rest) refl
    ]

-- The menu that a deletion leaves.
abbrev binned : ℕ → ℕ → ℕ → ℕ → Menu → Menu
binned store id draw now menu = record menu {
  categories =
      update_where (is_category store id) (recycle_category (new_batch draw) now) menu.categories;
  products =
      update_where (is_live_in store id) (recycle_product (new_batch draw) now) menu.products;
}

pub delete_category-binned :
    (store id draw now batch : ℕ) (menu deleted : Menu)
    → delete_category store id draw now menu ≡ ok (batch, deleted)
    → ((c : Category) × (find? (is_category store id) menu.categories ≡ some c))
      × (binned store id draw now menu ≡ deleted)
unfolding delete_category
delete_category-binned store id draw now batch menu deleted h =
    elim (Option-cases (find? (is_category store id) menu.categories)) [
      | inl nothing ↦ absurd (let bad = rw nothing at h in cc)
      | inr (c, there) ↦
          let body = rw there at h in
          let made = (fail_if-eq-ok (is_set c.deleted_at) already_deleted _ body).1 in
          ((c, there), ap (λ (r : ℕ × Menu). r.1) (ok_inj made))
    ]

recent_enough :
    (now later : ℕ) → time_since_days later now ≤ 30 → check_deleted later (some now) ≡ ok tt
recent_enough now later h =
    let e : ltb 30 (time_since_days later now) ≡ false = ground arith in rw e refl

restore_binned :
    (store id draw now later : ℕ) (menu : Menu) (c : Category)
    → All (IsFresh draw) menu.products
    → All IsTidyProduct menu.products
    → time_since_days later now ≤ 30
    → find? (is_category store id) menu.categories ≡ some c
    → restore_category store id later (binned store id draw now menu)
      ≡ ok (record menu {
        categories = update_where (is_category store id) put_back menu.categories;
        products = update_where (is_live_in store id) take_down menu.products;
      })
unfolding restore_category
restore_binned store id draw now later menu c fresh tidy recent there =
    let this = is_category store id in
    let recycle = recycle_category (new_batch draw) now in
    let found = find?-update_where this this recycle menu.categories (λ d. refl) there in
    let holds = find?_holds this menu.categories there in
    rw
      (
        found,
        holds,
        recent_enough now later recent,
        update_where-twice this recycle bring_back_category menu.categories (λ d. refl),
        products_back store id draw now menu.products fresh tidy,
      )
      refl

-- A category that is deleted and restored within 30 days is enabled, whatever it was before. The dishes that were live
-- in it are back under no batch, but taken down, whatever they were before; no other dish is touched. The draw of the
-- batch is new, and the dishes are tidy: a live one has no batch.
pub restore_category-delete_category :
    (store id draw now later batch : ℕ) (menu deleted : Menu)
    → All (IsFresh draw) menu.products
    → All IsTidyProduct menu.products
    → time_since_days later now ≤ 30
    → delete_category store id draw now menu ≡ ok (batch, deleted)
    → restore_category store id later deleted
      ≡ ok (record menu {
        categories = update_where (is_category store id) put_back menu.categories;
        products = update_where (is_live_in store id) take_down menu.products;
      })
restore_category-delete_category store id draw now later batch menu deleted fresh tidy recent h =
    let ((c, there), same) = delete_category-binned store id draw now batch menu deleted h in
    rw (← same) (restore_binned store id draw now later menu c fresh tidy recent there)

hidden :
    (store id draw now : ℕ) (ps : List Product)
    → 0 < id
    → rows_where
        (is_listed_product store id false)
        (update_where (is_live_in store id) (recycle_product (new_batch draw) now) ps)
      ≡ []
hidden store id draw now [] some_id = refl
hidden store id draw now (p ∷ ps) some_id =
    let rest = hidden store id draw now ps some_id in
    elim (Bool-cases (is_live_in store id p)) [
      | inl e ↦
          let off : is_listed_product store id false (recycle_product (new_batch draw) now p)
              ≡ false =
            ground arith in
          rw (e, off) rest
      | inr e ↦
          let off : is_listed_product store id false p ≡ false = ground arith in rw (e, off) rest
    ]

-- Once a category is deleted, the list of its dishes is empty.
pub list_products-delete_category :
    (store id draw now batch : ℕ) (menu deleted : Menu)
    → 0 < id
    → delete_category store id draw now menu ≡ ok (batch, deleted)
    → list_products store id false deleted ≡ []
unfolding list_products
list_products-delete_category store id draw now batch menu deleted some_id h =
    let same = (delete_category-binned store id draw now batch menu deleted h).1 in
    rw (← same) (ap (order_rows before_product) (hidden store id draw now menu.products some_id))
