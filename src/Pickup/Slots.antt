-- ===== src/Pickup/Slots.antt =====
-- internal/pickup/slots.go: `GenerateSlots`. Instants are numbers of nanoseconds; the midnight of the date
-- in the store's location, and the texts of instants, are given, as the time package computes them.
use dishflow_glm.Prelude.{
  ℕ, zero, suc, ℤ, pos, ◌+◌, ◌-◌, ◌*◌, ◌+ℤ◌, pos_part, mul64, sub64, ltb, ltb_ℤ, Bool, ◌&&◌, ◌||◌,
  Option, none, some, List, [], ◌∷◌, Result, ok, err, ◌>>=◌, ◌>>◌, fail_if, if◌then◌else◌,
}
use dishflow_glm.Pickup.Hours.{HoursError, parse_business_hours}

pub record Config : Type 0 where
  pub enabled : Bool
  pub business_hours : List ℕ
  pub slot_minutes : ℤ
  pub slot_capacity : ℤ
  pub min_lead_minutes : ℤ

pub record Slot : Type 0 where
  pub starts_at : ℕ
  pub label : ℕ
  pub capacity : ℤ
  pub remaining : ℤ
  pub available : Bool

pub data SlotsError : Type 0 where
  invalid_slot_minutes invalid_slot_capacity : SlotsError
  invalid_hours : HoursError → SlotsError

-- The texts that the time package makes of an instant, in the store's location: "15:04" and
-- "2006-01-02 15:04".
pub record Calendar : Type 0 where
  pub format_time : ℕ → ℕ
  pub format_start : ℕ → ℕ

-- The map of the orders by start; a missing key counts 0.
abbrev pub Occupied : Type 0
Occupied = ℕ → Option ℤ

abbrev pub count_or_zero : Option ℤ → ℤ
count_or_zero none = pos 0
count_or_zero (some n) = n

abbrev pub minute : ℕ
minute = 60 * 1000000000

-- `now.Add(time.Duration(cfg.MinLeadMinutes) * time.Minute)`
unfoldable pub cutoff : Config → ℕ → ℤ
cutoff cfg now = pos now +ℤ mul64 cfg.min_lead_minutes (pos minute)

-- What is left of a capacity, and never less than zero.
unfoldable pub left_over : ℤ → ℤ → ℤ
left_over capacity reserved =
    let rest = sub64 capacity reserved in if ltb_ℤ rest (pos 0) then pos 0 else rest

-- One round of the loop.
unfoldable pub slot_at : Calendar → Occupied → Config → ℕ → ℕ → Slot
unfolding cutoff left_over
slot_at cal occupied cfg now cur =
    let remaining = left_over cfg.slot_capacity (count_or_zero (occupied (cal.format_start cur))) in
    record {
      starts_at = cur;
      label = cal.format_time cur;
      capacity = cfg.slot_capacity;
      remaining = remaining;
      available = ltb_ℤ (cutoff cfg now) (pos cur) && ltb_ℤ (pos 0) remaining;
    }

-- The loop, with as many rounds as `fuel` allows.
unfoldable pub slots_from : Calendar → Occupied → Config → ℕ → ℕ → ℕ → ℕ → ℕ → List Slot
unfolding slot_at
slots_from cal occupied cfg now zero step cur end = []
slots_from cal occupied cfg now (suc fuel) step cur end =
    let rest = slots_from cal occupied cfg now fuel step (cur + step) end in
    if ltb cur end then slot_at cal occupied cfg now cur ∷ rest else []

unfoldable pub hours_of : Config → Result SlotsError (ℕ × ℕ)
hours_of cfg = elim (parse_business_hours cfg.business_hours) [
  | ok hours ↦ ok hours
  | err e ↦ err (invalid_hours e)
]

-- What `GenerateSlots` does for a store that takes pickup orders. The loop needs a round for each minute of
-- the opening hours at most.
unfoldable pub generate_enabled :
    Calendar → Occupied → Config → ℕ → ℕ → Result SlotsError (List Slot)
unfolding hours_of slots_from
generate_enabled cal occupied cfg midnight now = do
  fail_if (ltb_ℤ cfg.slot_minutes (pos 5) || ltb_ℤ (pos 120) cfg.slot_minutes) invalid_slot_minutes
  fail_if (ltb_ℤ cfg.slot_capacity (pos 1)) invalid_slot_capacity
  (start, end) ← hours_of cfg
  let day_start = midnight + start * minute
  let day_end = midnight + end * minute
  ok (
      slots_from cal occupied cfg now (end - start) (pos_part cfg.slot_minutes * minute) day_start
        day_end)

unfoldable pub generate_slots : Calendar → Occupied → Config → ℕ → ℕ → Result SlotsError (List Slot)
unfolding generate_enabled
generate_slots cal occupied cfg midnight now =
    if cfg.enabled then generate_enabled cal occupied cfg midnight now else ok []
