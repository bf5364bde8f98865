-- ===== src/Payments/Refunds.antt =====
-- internal/refunds/store.go: `Create` and `MarkSuccess`.
use dishflow_glm.Prelude.{
  ℕ, ℤ, pos, ◌+◌, ltb, leb_ℤ, ◌==◌, if◌then◌else◌, Bool, true, false, ◌&&◌, Option, none, some, ◌∷◌,
  ok, err, ◌>>◌, fail_if, find?, count, update_where,
}
use dishflow_glm.Payments.Store.{
  Refund, RefundStatus, Till, amount_not_positive, existing_refund, duplicate_key, no_rows, Paid,
  wechat_refund, insert_webhook, has_webhook,
}

pub record CreateInput : Type 0 where
  pub store_id : ℕ
  pub order_id : ℕ
  pub payment_id : ℕ
  pub amount_cents : ℤ
  pub mock : Bool

abbrev pub is_active_status : RefundStatus → Bool
is_active_status RefundStatus.created = true
is_active_status RefundStatus.processing = true
is_active_status RefundStatus.success = false

abbrev pub is_success_status : RefundStatus → Bool
is_success_status RefundStatus.success = true
is_success_status _ = false

-- `order_id=? AND status IN ('CREATED','PROCESSING')`
abbrev pub is_active : ℕ → Refund → Bool
is_active order r = (r.order_id == order) && is_active_status r.status

abbrev pub is_refunded : ℕ → Refund → Bool
is_refunded order r = (r.order_id == order) && is_success_status r.status

abbrev pub new_refund : ℕ → ℕ → CreateInput → Refund
new_refund id refund_no in_ = record {
  id = id;
  store_id = in_.store_id;
  order_id = in_.order_id;
  payment_id = in_.payment_id;
  amount_cents = in_.amount_cents;
  status = RefundStatus.created;
  refund_no = refund_no;
  mock_refund = in_.mock;
}

-- `uq_refund_no`
abbrev pub has_refund_no : ℕ → Refund → Bool
has_refund_no refund_no r = r.refund_no == refund_no

-- The number is made of the order and the clock.
unfoldable pub create_refund : ℕ → CreateInput → Till → Paid (ℕ × Till)
create_refund refund_no in_ till = do
  fail_if (leb_ℤ in_.amount_cents (pos 0)) amount_not_positive
  fail_if (ltb 0 (count (is_active in_.order_id) till.refunds)) existing_refund
  fail_if (ltb 0 (count (has_refund_no refund_no) till.refunds)) duplicate_key
  let id = till.db.next_id
  ok (
    id,
    record till {
      refunds = new_refund id refund_no in_ ∷ till.refunds;
      db = record till.db { next_id = id + 1 };
    },
  )

-- `id=? AND store_id=?`
abbrev pub is_refund_at : ℕ → ℕ → Refund → Bool
is_refund_at store refund r = (r.id == refund) && (r.store_id == store)

abbrev pub succeed_refund : Refund → Refund
succeed_refund r = record r { status = RefundStatus.success }

-- The UPDATE meets `uq_refund_order_active`, the unique key on the order and the status.
abbrev pub refund_found : Option Refund → ℕ → ℕ → ℕ → Till → Paid Till
refund_found none store refund event till = err no_rows
refund_found (some r) store refund event till = if is_success_status r.status then ok till else do
  fail_if (ltb 0 (count (is_refunded r.order_id) till.refunds)) duplicate_key
  ok (
      insert_webhook wechat_refund store event refund (record till {
        refunds = update_where (is_refund_at store refund) succeed_refund till.refunds;
      }))

unfoldable pub mark_refund_success : ℕ → ℕ → ℕ → Till → Paid Till
unfolding has_webhook
mark_refund_success store refund event till =
    refund_found (find? (is_refund_at store refund) till.refunds) store refund event till
