-- ===== src/Tests/Printing.antt =====
-- internal/printing: numbers and prices as they are printed.
use dishflow_glm.Prelude.{pos, negsuc, ◌+◌, ◌*◌, ◌%◌, ltb, ◌≡◌, refl, arith, if◌then◌else◌}
use dishflow_glm.Printing.Receipt.{codes, itoa64, cents_to_yuan, zero_pad3}
use dishflow_glm.Printing.Digits.{read_int, read_int-itoa64, read_price, read_price-cents_to_yuan}

printed_minus : itoa64 (negsuc 41) ≡ codes "-42"
unfolding itoa64
printed_minus = refl

printed_price : cents_to_yuan (pos 105) ≡ codes "1.5元"
unfolding cents_to_yuan
printed_price = refl

padded : zero_pad3 (pos 7) ≡ codes "007"
unfolding zero_pad3
padded = refl

read_int-itoa64_example : read_int (itoa64 (negsuc 41)) ≡ negsuc 41
read_int-itoa64_example = read_int-itoa64 (negsuc 41) (omega arith)

read_price-cents_to_yuan_example :
    read_price 0 (cents_to_yuan (pos 105))
    ≡ 105 + (if ltb (105 % 100) 10 then 9 * (105 % 100) else 0)
read_price-cents_to_yuan_example = read_price-cents_to_yuan 105 (omega arith)
