-- ===== src/Menu/History.antt =====
-- internal/menu and internal/export: the rows of the menu along any history of its operations and of imports.
use dishflow_glm.Prelude.{ℕ, ◌+◌, ◌≡◌, arith, Bool, ok, subst}
use dishflow_glm.Menu.Rows.{Menu}
use dishflow_glm.Menu.Categories.{
  CreateCategoryInput, UpdateCategoryInput, create_category, update_category, delete_category,
  restore_category,
}
use dishflow_glm.Menu.Options.{CreateProductInput}
use dishflow_glm.Menu.Dishes.{create_product, delete_product, restore_product}
use dishflow_glm.Menu.File.{File}
use dishflow_glm.Menu.Import.{import_file}
use dishflow_glm.Menu.Tidy.{Tidy}
use dishflow_glm.Menu.Keeps.{
  create_category-Tidy, update_category-Tidy, delete_category-Tidy, restore_category-Tidy,
  delete_product-Tidy, restore_product-Tidy,
}
use dishflow_glm.Menu.Created.{create_product-Tidy}
use dishflow_glm.Menu.Imports.{bare_menu, import_file-Tidy}

-- One committed operation.
pub data MenuStep (a : Menu) (b : Menu) : Type 0 where
  creates_category :
      (in_ : CreateCategoryInput) (id : ℕ) → create_category in_ a ≡ ok (id, b) → MenuStep a b
  updates_category :
      (store id : ℕ) (in_ : UpdateCategoryInput)
      → update_category store id in_ a ≡ ok b
      → MenuStep a b
  deletes_category :
      (store id draw now batch : ℕ)
      → delete_category store id draw now a ≡ ok (batch, b)
      → MenuStep a b
  restores_category : (store id now : ℕ) → restore_category store id now a ≡ ok b → MenuStep a b
  creates_product :
      (in_ : CreateProductInput) (id : ℕ) → create_product in_ a ≡ ok (id, b) → MenuStep a b
  deletes_product :
      (store id draw now batch : ℕ)
      → delete_product store id draw now a ≡ ok (batch, b)
      → MenuStep a b
  restores_product : (store id now : ℕ) → restore_product store id now a ≡ ok b → MenuStep a b
  imports :
      (store : ℕ) (f : File) (appid_taken : Bool) (draw now : ℕ)
      → import_file store f appid_taken draw now a ≡ ok b
      → MenuStep a b

pub data MenuHistory (a : Menu) : Menu → Type 0 where
  start : MenuHistory a a
  then_ : {b c : Menu} → MenuHistory a b → MenuStep b c → MenuHistory a c

-- The dishes without an SKU that the imported files list.
abbrev pub bare_step : {a b : Menu} → MenuStep a b → ℕ
bare_step (imports store f appid_taken draw now h) = bare_menu f.menu
bare_step _ = 0

abbrev pub bare_imports : {a b : Menu} → MenuHistory a b → ℕ
bare_imports start = 0
bare_imports (then_ before step) = bare_imports before + bare_step step

no_more : (n : ℕ) {b : Menu} → Tidy n b → Tidy (n + 0) b
no_more n {b} t = let same : n ≡ n + 0 = omega arith in subst (λ m. Tidy m b) same t

MenuStep-Tidy : (n : ℕ) {a b : Menu} → Tidy n a → (s : MenuStep a b) → Tidy (n + bare_step s) b
MenuStep-Tidy n {a} t (creates_category in_ id h) = no_more n (create_category-Tidy n in_ id a t h)
MenuStep-Tidy n {a} t (updates_category store id in_ h) =
    no_more n (update_category-Tidy n store id in_ a t h)
MenuStep-Tidy n {a} t (deletes_category store id draw now batch h) =
    no_more n (delete_category-Tidy n store id draw now batch a t h)
MenuStep-Tidy n {a} t (restores_category store id now h) =
    no_more n (restore_category-Tidy n store id now a t h)
MenuStep-Tidy n {a} t (creates_product in_ id h) = no_more n (create_product-Tidy n in_ id a t h)
MenuStep-Tidy n {a} t (deletes_product store id draw now batch h) =
    no_more n (delete_product-Tidy n store id draw now batch a t h)
MenuStep-Tidy n {a} t (restores_product store id now h) =
    no_more n (restore_product-Tidy n store id now a t h)
MenuStep-Tidy n {a} t (imports store f appid_taken draw now h) =
    import_file-Tidy store n f appid_taken draw now a t h

-- Along any history of the operations of internal/menu and of imports the menu stays tidy: what is in the recycle bin
-- is not on sale and has a batch, and what is not has none; no price, stock, surcharge or packaging fee is negative;
-- and an option group's choices run from a least number of at least zero to a greatest one of at least one that is not
-- below it. The dishes without an SKU, deleted ones included, are at most those there were at the start and those that
-- the imported files list without one: no other operation leaves a dish without.
pub MenuHistory-Tidy :
    (n : ℕ) {a b : Menu} → Tidy n a → (h : MenuHistory a b) → Tidy (n + bare_imports h) b
MenuHistory-Tidy n {a} {b} t start = no_more n t
MenuHistory-Tidy n {a} {b} t (then_ before step) =
    let sum : n + bare_imports before + bare_step step
        ≡ n + (bare_imports before + bare_step step) =
      omega arith in
    subst (λ m. Tidy m b) sum
      (MenuStep-Tidy (n + bare_imports before) (MenuHistory-Tidy n t before) step)
