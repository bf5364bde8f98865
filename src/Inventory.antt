-- ===== src/Inventory.antt =====
-- internal/inventory/store.go: `EnsureDaily` and `Adjust`.
use dishflow_glm.Prelude.{
  ℕ, ℤ, pos, negsuc, ◌+ℤ◌, ◌+◌, ltb, ◌==◌, Bool, false, Option, none, some, ◌∷◌, err, ◌>>◌, fail_if,
}
use dishflow_glm.Store.{
  Db, Daily, Movement, set_daily, stock_adjust, TradeError, delta_zero, reason_required,
  idempotency_key_required, no_daily_inventory, negative_target, invariant_violated,
}
use dishflow_glm.Orders.Reserve.{Traded, null_int64}
use dishflow_glm.Orders.Create.{insert_idem}

abbrev pub ensure_row : ℕ → ℕ → ℕ → ℕ → Option Daily → Db → Db
ensure_row store sku date qty (some d) db = db
ensure_row store sku date qty none db = record db {
  daily =
      set_daily store sku date (record { target_qty = qty; reserved_qty = 0; sold_qty = 0 })
        db.daily;
}

-- `INSERT IGNORE`
unfoldable pub ensure_daily : ℕ → ℕ → ℕ → ℕ → Db → Db
ensure_daily store sku date qty db = ensure_row store sku date qty (db.daily store sku date) db

pub record AdjustInput : Type 0 where
  pub store_id : ℕ
  pub sku_id : ℕ
  pub business_date : ℕ
  pub delta : ℤ
  pub reason : ℕ
  pub operator_id : ℕ
  pub idempotency_key : ℕ

abbrev pub is_zero : ℤ → Bool
is_zero (pos n) = n == 0
is_zero (negsuc n) = false

-- The writes, once the new target has been found good.
unfoldable pub set_target : AdjustInput → ℕ → Daily → Db → Traded Db
unfolding insert_idem null_int64
set_target in_ target d db =
    insert_idem (stock_adjust in_.store_id in_.sku_id in_.business_date) in_.idempotency_key none
      (record db {
        daily =
            set_daily in_.store_id in_.sku_id in_.business_date (record d { target_qty = target })
              db.daily;
        movements =
            record {
              store_id = in_.store_id;
              sku_id = in_.sku_id;
              business_date = in_.business_date;
              movement_type = dishflow_glm.Store.MovementType.adjust;
              delta_reserved = pos 0;
              delta_sold = in_.delta;
              order_id = none;
              reason = in_.reason;
              operator_id = null_int64 in_.operator_id;
            }
            ∷ db.movements;
      })

unfoldable pub adjust_to : AdjustInput → ℤ → Daily → Db → Traded Db
unfolding set_target
adjust_to in_ (negsuc n) d db = err negative_target
adjust_to in_ (pos target) d db = do
  fail_if (ltb target (d.reserved_qty + d.sold_qty)) invariant_violated
  set_target in_ target d db

unfoldable pub adjust_found : AdjustInput → Option Daily → Db → Traded Db
unfolding adjust_to
adjust_found in_ none db = err no_daily_inventory
adjust_found in_ (some d) db = adjust_to in_ (pos d.target_qty +ℤ in_.delta) d db

unfoldable pub adjust : AdjustInput → Db → Traded Db
unfolding adjust_found
adjust in_ db = do
  fail_if (is_zero in_.delta) delta_zero
  fail_if (in_.reason == 0) reason_required
  fail_if (in_.idempotency_key == 0) idempotency_key_required
  adjust_found in_ (db.daily in_.store_id in_.sku_id in_.business_date) db
