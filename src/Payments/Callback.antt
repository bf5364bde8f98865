-- ===== src/Payments/Callback.antt =====
-- internal/callbacks/callbacks.go: `WechatPayTransaction` and `loadWechatCreds`. The decoding of the body and the
-- verification of a signature are given by their results.
use dishflow_glm.Prelude.{ℕ, ℤ, ◌==◌, if◌then◌else◌, Bool, not, Option, none, some, ok, err, find?}
use dishflow_glm.Store.{Order}
use dishflow_glm.Payments.Store.{Till, Paid, mark_success, announce}
use dishflow_glm.Orders.Create.{insert_outbox}

-- What a notification says; an order number of 0 is the empty text.
pub record Notice : Type 0 where
  pub provider_event_id : ℕ
  pub order_no : ℕ
  pub transaction_id : ℕ
  pub amount : ℤ

-- `VerifyAndDecrypt`'s result, with the serial number of the header.
pub record Decrypted : Type 0 where
  pub out_trade_no : ℕ
  pub transaction_id : ℕ
  pub total : ℤ
  pub is_success : Bool

pub record Credentials : Type 0 where
  pub platform_key : ℕ
  pub apiv3_key : ℕ

pub record Request : Type 0 where
  pub store_id : ℕ
  pub serial : ℕ
  pub plain : Option Notice
  pub decrypt : Credentials → Option Decrypted

-- The answers: FAIL with 400, 503 or 500, SUCCESS that ignores the notice, and SUCCESS.
pub data Answer : Type 0 where
  decode_failed not_configured verification_failed store_mismatch internal_error : Answer
  non_success_ignored ignored accepted : Answer

-- The function decrypts nothing: on every path its results are empty.
unfoldable pub load_wechat_creds : ℕ → Option Credentials
load_wechat_creds store = none

abbrev pub has_order_no : ℕ → Order → Bool
has_order_no n o = o.order_no == n

-- An error of the transaction rolls it back.
abbrev pub commit_mark : ℕ → ℕ → Paid Till → Till → Answer × Till
commit_mark store order (ok marked) till = (accepted, announce store order marked)
commit_mark store order (err e) till = (internal_error, till)

abbrev pub settle_order : ℕ → Notice → Option Order → Till → Answer × Till
settle_order store n none till = (store_mismatch, till)
settle_order store n (some o) till =
    if not (o.store_id == store)
    then (store_mismatch, till)
    else commit_mark store o.id
        (mark_success store o.id n.transaction_id n.provider_event_id n.amount till) till

unfoldable pub settle_notice : ℕ → Notice → Till → Answer × Till
unfolding mark_success insert_outbox
settle_notice store n till =
    if n.order_no == 0
    then (ignored, till)
    else settle_order store n (find? (has_order_no n.order_no) till.db.orders) till

-- The event's id is the serial number of the certificate.
abbrev pub settle_decrypted : ℕ → ℕ → Option Decrypted → Till → Answer × Till
settle_decrypted store serial none till = (verification_failed, till)
settle_decrypted store serial (some d) till =
    if not d.is_success
    then (non_success_ignored, till)
    else settle_notice store
        (record {
          provider_event_id = serial;
          order_no = d.out_trade_no;
          transaction_id = d.transaction_id;
          amount = d.total;
        })
        till

abbrev pub settle_signed : Request → Option Credentials → Till → Answer × Till
settle_signed r none till = (not_configured, till)
settle_signed r (some c) till = settle_decrypted r.store_id r.serial (r.decrypt c) till

abbrev pub settle_plain : ℕ → Option Notice → Till → Answer × Till
settle_plain store none till = (decode_failed, till)
settle_plain store (some n) till = settle_notice store n till

unfoldable pub wechat_pay_transaction : Bool → Request → Till → Answer × Till
unfolding settle_notice load_wechat_creds
wechat_pay_transaction dev_mode r till =
    if dev_mode
    then settle_plain r.store_id r.plain till
    else settle_signed r (load_wechat_creds r.store_id) till
