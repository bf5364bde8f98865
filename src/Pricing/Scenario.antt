-- ===== src/Pricing/Scenario.antt =====
-- internal/pricing/calc.go: the lines of the result, and the packaging fee of a dine-in order.
use dishflow_glm.Prelude.{ℤ, pos, add64, ◌≡◌, refl, ◌∙◌, ap, ok, false, List, [], ◌∷◌, ◌++◌, map}
use mathlib.Core.List.{append-nil, append_assoc}
use dishflow_glm.Pricing.Types.{Input, CartItem, LineItem, PriceResult, dine_in}
use dishflow_glm.Pricing.Price.{
  price_line, add_item, add_items, no_totals, Totals, is_pickup, settle, price,
}
use dishflow_glm.Pricing.Settle.{price_of, price_inv}

-- The wrapped sum of the amounts of some lines, after `acc`.
unfoldable pub sum_lines : ℤ → List LineItem → ℤ
sum_lines acc [] = acc
sum_lines acc (l ∷ ls) = sum_lines (add64 acc l.line_amount_cents) ls

add_items-lines :
    (in_ : Input) (t : Totals) (cart : List CartItem)
    → ((add_items in_ t cart).lines ≡ t.lines ++ map (price_line in_) cart)
      × ((add_items in_ t cart).item_amount ≡ sum_lines t.item_amount (map (price_line in_) cart))
unfolding add_items add_item sum_lines
add_items-lines in_ t [] = (simp append-nil, refl)
add_items-lines in_ t (ci ∷ cart) =
    let (lines, sum) = add_items-lines in_ (add_item in_ t ci) cart in
    (lines ∙ append_assoc t.lines (price_line in_ ci ∷ []) (map (price_line in_) cart), sum)

-- The result has one line for each cart line, in the cart's order, and the item amount is the sum of the
-- amounts of just these lines.
pub price_lines :
    (in_ : Input) {r : PriceResult}
    → price in_ ≡ ok r
    → (r.lines ≡ map (price_line in_) in_.cart) × (r.item_amount_cents ≡ sum_lines (pos 0) r.lines)
unfolding price_of settle
price_lines in_ {r} h =
    let (lines, sum) = add_items-lines in_ no_totals in_.cart in
    rw (price_inv in_ h).1 (lines, rw lines sum)

add_items-packaging :
    (in_ : Input) (t : Totals) (cart : List CartItem)
    → is_pickup in_.scenario ≡ false
    → (add_items in_ t cart).packaging ≡ t.packaging
unfolding add_items add_item
add_items-packaging in_ t [] h = refl
add_items-packaging in_ t (ci ∷ cart) h = add_items-packaging in_ (add_item in_ t ci) cart h ∙ rw h

-- A dine-in order pays no packaging fee.
pub price_dine_in :
    (in_ : Input) {r : PriceResult}
    → in_.scenario ≡ dine_in
    → price in_ ≡ ok r
    → r.packaging_fee_cents ≡ pos 0
unfolding price_of settle
price_dine_in in_ {r} e h =
    rw (price_inv in_ h).1 (add_items-packaging in_ no_totals in_.cart (ap is_pickup e))
