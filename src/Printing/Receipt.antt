-- ===== src/Printing/Receipt.antt =====
-- internal/printing/store.go: `itoa64`, `zeroPad3`, `centsToYuan`, `RenderOrderReceipt`, and `formatID` of
-- internal/customer/pricing.go. A text is the list of its code points.
use mathlib.Core.List.{reverse}
use Prim.Native.Char.{code}
use Prim.Native.String.{String}
use dishflow_glm.Prelude.{
  ℕ, zero, suc, ℤ, pos, negsuc, ◌+◌, ◌/◌, ◌%◌, ◌^◌, ltb, ltb_ℤ, ◌==◌, if◌then◌else◌, Bool, true,
  false, not, Option, none, some, List, [], ◌∷◌, ◌++◌, length,
}

abbrev pub Text : Type 0
Text = List ℕ

abbrev pub codes : String → Text
codes String.[] = []
codes (String.◌∷◌ c s) = code c ∷ codes s

abbrev pub is_empty : Text → Bool
is_empty [] = true
is_empty (c ∷ s) = false

-- `for i > 0 { digits = append(digits, '0'+i%10); i /= 10 }`: the last digit comes first. A number below 2^63
-- has 19 digits at most.
unfoldable pub digits_of : ℕ → ℕ → Text
digits_of zero i = []
digits_of (suc fuel) i = elim (i == 0) [
  | true ↦ []
  | false ↦ (b'0' + i % 10) ∷ digits_of fuel (i / 10)
]

-- Go's `-i`: the smallest integer is its own negation, and the loop then makes no round.
abbrev pub digits_after_minus : ℕ → Text
digits_after_minus n = if n == 2 ^ 63 then [] else digits_of 19 n

unfoldable pub itoa64 : ℤ → Text
unfolding digits_of
itoa64 (pos n) = if n == 0 then b'0' ∷ [] else reverse (digits_of 19 n)
itoa64 (negsuc n) = b'-' ∷ reverse (digits_after_minus (suc n))

-- `formatID`: the same loop without the sign.
unfoldable pub format_id : ℤ → Text
unfolding digits_of
format_id (pos n) = if n == 0 then b'0' ∷ [] else reverse (digits_of 19 n)
format_id (negsuc n) = []

unfoldable pub pad : ℕ → Text → Text
pad zero s = s
pad (suc fuel) s = elim (ltb (length s) 3) [ true ↦ pad fuel (b'0' ∷ s) | false ↦ s ]

-- The loop makes three rounds at most.
unfoldable pub zero_pad3 : ℤ → Text
unfolding itoa64 pad
zero_pad3 n = pad 3 (itoa64 n)

-- Go's `/` and `%` go toward zero.
abbrev pub quot100 : ℤ → ℤ
quot100 (pos n) = pos (n / 100)
quot100 (negsuc n) = elim (suc n / 100) [ zero ↦ pos 0 | suc q ↦ negsuc q ]

abbrev pub rem100 : ℤ → ℤ
rem100 (pos n) = pos (n % 100)
rem100 (negsuc n) = elim (suc n % 100) [ zero ↦ pos 0 | suc q ↦ negsuc q ]

unfoldable pub cents_to_yuan : ℤ → Text
unfolding itoa64
cents_to_yuan c = itoa64 (quot100 c) ++ (b'.' ∷ (itoa64 (rem100 c) ++ codes "元"))

pub record ReceiptLine : Type 0 where
  pub name : Text
  pub spec : Text
  pub quantity : ℤ
  pub line_amount : ℤ

abbrev pub newline : Text
newline = b'\n' ∷ []

abbrev pub write_if : Bool → Text → Text
write_if test s = if test then s else []

abbrev pub write_pickup_no : Option ℤ → Text
unfolding zero_pad3
write_pickup_no none = []
write_pickup_no (some n) = codes "取餐号: " ++ zero_pad3 n ++ newline

abbrev pub write_line : ReceiptLine → Text
unfolding itoa64 cents_to_yuan
write_line li =
    li.name
    ++ codes " x"
    ++ itoa64 li.quantity
    ++ codes "  "
    ++ cents_to_yuan li.line_amount
    ++ newline
    ++ write_if (not (is_empty li.spec)) (codes "  " ++ li.spec ++ newline)

unfoldable pub write_lines : List ReceiptLine → Text
unfolding itoa64 cents_to_yuan
write_lines [] = []
write_lines (li ∷ lis) = write_line li ++ write_lines lis

abbrev pub rule : Text
rule = codes "------------------------\n"

abbrev pub amount : Text → ℤ → Text
unfolding cents_to_yuan
amount label cents = label ++ cents_to_yuan cents ++ newline

pub record Receipt : Type 0 where
  pub store_name : Text
  pub table_label : Text
  pub pickup_no : Option ℤ
  pub scheduled_for : Text
  pub lines : List ReceiptLine
  pub item_amount : ℤ
  pub packaging : ℤ
  pub discount : ℤ
  pub payable : ℤ
  pub mock : Bool

unfoldable pub render_order_receipt : Receipt → Text
unfolding cents_to_yuan zero_pad3 write_lines
render_order_receipt r =
    write_if r.mock (codes "== 测试打印 ==\n")
    ++ r.store_name
    ++ newline
    ++ write_if (not (is_empty r.table_label)) (codes "桌号: " ++ r.table_label ++ newline)
    ++ write_pickup_no r.pickup_no
    ++ write_if (not (is_empty r.scheduled_for)) (codes "预约自取: " ++ r.scheduled_for ++ newline)
    ++ rule
    ++ write_lines r.lines
    ++ rule
    ++ amount (codes "商品: ") r.item_amount
    ++ write_if (ltb_ℤ (pos 0) r.packaging) (amount (codes "包装: ") r.packaging)
    ++ write_if (ltb_ℤ (pos 0) r.discount) (amount (codes "优惠: -") r.discount)
    ++ amount (codes "应付: ") r.payable
