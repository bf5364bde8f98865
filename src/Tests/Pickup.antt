-- ===== src/Tests/Pickup.antt =====
-- internal/pickup: a morning with three slots, and hours that are read although they are no numbers.
use dishflow_glm.Prelude.{
  ℕ, ℤ, pos, ◌+◌, ◌*◌, ◌+ℤ◌, ◌*ℤ◌, ◌-ℤ◌, ◌^◌, ◌<◌, ◌==◌, ◌≡◌, refl, arith, wrap, mul64, sub64,
  pos_part, Within, if◌then◌else◌, true, false, none, some, List, [], ◌∷◌, ok, err,
}
use dishflow_glm.Pickup.Hours.{
  parse_hhmm, parse_business_hours, parse_business_hours-lt, end_not_after_start,
}
use dishflow_glm.Pickup.Slots.{
  Config, Slot, Calendar, Occupied, count_or_zero, minute, generate_slots,
}
use dishflow_glm.Pickup.Grid.{IsGrid, generate_slots-IsGrid}

-- "09:00-10:30"
abbrev morning : List ℕ
morning = 48 ∷ 57 ∷ 58 ∷ 48 ∷ 48 ∷ 45 ∷ 49 ∷ 48 ∷ 58 ∷ 51 ∷ 48 ∷ []

read_morning : parse_business_hours morning ≡ ok (540, 630)
unfolding parse_business_hours
read_morning = refl

-- "0::00" is taken for ten o'clock.
read_colon : parse_hhmm (48 ∷ 58 ∷ 58 ∷ 48 ∷ 48 ∷ []) ≡ ok 600
unfolding parse_hhmm
read_colon = refl

-- "10:30-09:00"
read_midnight :
    parse_business_hours (49 ∷ 48 ∷ 58 ∷ 51 ∷ 48 ∷ 45 ∷ 48 ∷ 57 ∷ 58 ∷ 48 ∷ 48 ∷ [])
    ≡ err end_not_after_start
unfolding parse_business_hours
read_midnight = refl

parse_business_hours-lt_example : (540 < 630) × (630 < 24 * 60)
parse_business_hours-lt_example = parse_business_hours-lt morning read_morning

abbrev calendar : Calendar
calendar = record { format_time = λ t. t; format_start = λ t. t }

-- Two orders are due at 09:30.
abbrev occupied : Occupied
occupied t = if t == 570 * minute then some (pos 2) else none

abbrev config : Config
config = record {
  enabled = true;
  business_hours = morning;
  slot_minutes = pos 30;
  slot_capacity = pos 2;
  min_lead_minutes = pos 20;
}

abbrev slot : ℕ → ℤ → Slot
slot at left = record {
  starts_at = at * minute;
  label = at * minute;
  capacity = pos 2;
  remaining = left;
  available = false;
}

-- Asked at 08:45: the first slot is too soon, the second is full.
abbrev slots : List Slot
slots = slot 540 (pos 2) ∷ slot 570 (pos 0) ∷ record (slot 600 (pos 2)) { available = true } ∷ []

generate_morning : generate_slots calendar occupied config 0 (525 * minute) ≡ ok slots
unfolding generate_slots mul64 sub64 wrap ◌+ℤ◌ ◌*ℤ◌ ◌-ℤ◌ parse_business_hours
generate_morning = refl

occupied_small : (key : ℕ) → Within (2 ^ 61) (count_or_zero (occupied key))
occupied_small key = ground arith

generate_slots-IsGrid_example :
    (start : ℕ) × (end : ℕ) × (parse_business_hours morning ≡ ok (start, end))
    × IsGrid calendar occupied config
        (525 * minute)
        (pos_part (pos 30) * minute)
        (0 + start * minute)
        (0 + end * minute)
        slots
generate_slots-IsGrid_example =
    generate_slots-IsGrid calendar occupied config 0 (525 * minute) (omega arith) occupied_small
      refl generate_morning
