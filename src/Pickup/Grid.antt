-- ===== src/Pickup/Grid.antt =====
-- internal/pickup/slots.go: the slots that `GenerateSlots` returns.
use dishflow_glm.Prelude.{
  ℕ, zero, suc, ℤ, pos, ◌+◌, ◌-◌, ◌*◌, ◌^◌, ◌≤◌, ◌<◌, ◌≤ℤ◌, ◌-ℤ◌, pos_part, sub64, wrap_id, Within,
  ltb, ltb_ℤ, ◌≡◌, refl, arith, true, ◌&&◌, ◌||◌, List, [], ◌∷◌, ok, >>=-eq-ok, fail_if, Bool-cases,
  inl, inr,
}
use dishflow_glm.Pickup.Hours.{parse_business_hours}
use dishflow_glm.Pickup.Slots.{
  Config, Slot, Calendar, Occupied, count_or_zero, minute, cutoff, left_over, slot_at, slots_from,
  hours_of, generate_slots, generate_enabled, invalid_slot_minutes, invalid_slot_capacity,
}

left_over_exact :
    (capacity reserved : ℤ)
    → Within (2 ^ 61) capacity
    → Within (2 ^ 61) reserved
    → (pos 0 ≤ℤ left_over capacity reserved)
      × (ltb_ℤ (pos 0) (left_over capacity reserved) ≡ ltb_ℤ reserved capacity)
unfolding left_over sub64 ◌-ℤ◌
left_over_exact capacity reserved w v =
    let same = wrap_id (capacity -ℤ reserved) (ground (arith, w, v)) in ground (arith, same)

module _ (cal : Calendar) (occupied : Occupied) (cfg : Config) (now : ℕ) where
  -- One slot: it can be taken just if it starts after the lead time and has fewer orders than its capacity.
  abbrev pub IsOffer : ℕ → Slot → Type 0
  IsOffer cur s =
      (s.starts_at ≡ cur)
      × (pos 0 ≤ℤ s.remaining)
      × (s.available ≡ (
          ltb_ℤ (cutoff cfg now) (pos cur)
          && ltb_ℤ (count_or_zero (occupied (cal.format_start cur))) cfg.slot_capacity))

  -- Slots at `cur` and then every `step`, as long as they start before the end.
  abbrev pub IsGrid : ℕ → ℕ → ℕ → List Slot → Type 0
  IsGrid step cur end [] = end ≤ cur
  IsGrid step cur end (s ∷ ss) = (cur < end) × IsOffer cur s × IsGrid step (cur + step) end ss

  slots_from-IsGrid :
      Within (2 ^ 61) cfg.slot_capacity
      → ((key : ℕ) → Within (2 ^ 61) (count_or_zero (occupied key)))
      → (fuel step cur end : ℕ) → end ≤ cur + fuel * minute
      → minute ≤ step
      → IsGrid step cur end (slots_from cal occupied cfg now fuel step cur end)
  unfolding slots_from slot_at
  slots_from-IsGrid w v zero step cur end enough wide = omega arith
  slots_from-IsGrid w v (suc fuel) step cur end enough wide = elim (Bool-cases (ltb cur end)) [
    | inl e ↦
        let reserved = count_or_zero (occupied (cal.format_start cur)) in
        let (rest, same) =
          left_over_exact cfg.slot_capacity reserved w (v (cal.format_start cur)) in
        rw e (
          ground arith,
          (refl, rest, rw same refl),
          slots_from-IsGrid w v fuel step (cur + step) end (omega arith) wide,
        )
    | inr e ↦ rw e (ground arith)
  ]

hours_of_ok :
    (cfg : Config) {start end : ℕ}
    → hours_of cfg ≡ ok (start, end)
    → parse_business_hours cfg.business_hours ≡ ok (start, end)
unfolding hours_of
hours_of_ok cfg h = ground arith

-- The slots of a day begin at the opening time and follow one another at the configured distance, all of
-- them before the closing time and none left out; each is open for orders just if it starts after the lead
-- time and has fewer orders than its capacity. (Capacities and numbers of orders below 2^61.)
pub generate_slots-IsGrid :
    (cal : Calendar) (occupied : Occupied) (cfg : Config) (midnight now : ℕ) {slots : List Slot}
    → Within (2 ^ 61) cfg.slot_capacity
    → ((key : ℕ) → Within (2 ^ 61) (count_or_zero (occupied key)))
    → cfg.enabled ≡ true
    → generate_slots cal occupied cfg midnight now ≡ ok slots
    → (start : ℕ) × (end : ℕ) × (parse_business_hours cfg.business_hours ≡ ok (start, end))
      × IsGrid cal occupied cfg now
          (pos_part cfg.slot_minutes * minute)
          (midnight + start * minute)
          (midnight + end * minute)
          slots
unfolding generate_slots generate_enabled
generate_slots-IsGrid cal occupied cfg midnight now {slots} w v on h =
    let enabled : generate_enabled cal occupied cfg midnight now ≡ ok slots = ground arith in
    let (_, minutes, h₁) =
      >>=-eq-ok
        (fail_if (ltb_ℤ cfg.slot_minutes (pos 5) || ltb_ℤ (pos 120) cfg.slot_minutes)
          invalid_slot_minutes)
        _ enabled in
    let (_, capacity, h₂) =
      >>=-eq-ok (fail_if (ltb_ℤ cfg.slot_capacity (pos 1)) invalid_slot_capacity) _ h₁ in
    let ((start, end), hours, h₃) = >>=-eq-ok (hours_of cfg) _ h₂ in
    let step = pos_part cfg.slot_minutes * minute in
    let wide : minute ≤ step = ground arith in
    let grid =
      slots_from-IsGrid cal occupied cfg now w v (end - start) step (midnight + start * minute)
        (midnight + end * minute) (ground arith) wide in
    let same : slots_from cal occupied cfg now (end - start) step (midnight + start * minute)
          (midnight + end * minute)
        ≡ slots =
      cc in
    (start, end, hours_of_ok cfg hours, rw (← same) grid)
