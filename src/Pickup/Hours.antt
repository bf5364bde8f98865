-- ===== src/Pickup/Hours.antt =====
-- internal/pickup/slots.go: `ParseBusinessHours` and `parseHHMM`, on the bytes of the text. A duration is
-- a number of minutes.
use dishflow_glm.Prelude.{
  ℕ, ◌+◌, ◌*◌, ◌-◌, ◌%◌, ◌<◌, ltb, leb, ◌==◌, ◌≡◌, arith, not, ◌||◌, List, [], ◌∷◌, Result, ok, err,
  ◌>>=◌, ◌>>◌, >>=-eq-ok, fail_if,
}

pub data HoursError : Type 0 where
  invalid_format invalid_hhmm out_of_range end_not_after_start : HoursError

abbrev pub Parsed : Type 0 → Type 0
Parsed A = Result HoursError A

-- `int(b - '0')`, the difference of two bytes.
abbrev pub digit : ℕ → ℕ
digit b = (b + 256 - 48) % 256

unfoldable pub parse_hhmm : List ℕ → Parsed ℕ
parse_hhmm (a ∷ b ∷ colon ∷ c ∷ d ∷ []) = do
  fail_if (not (colon == 58)) invalid_hhmm
  let hh = digit a * 10 + digit b
  let mm = digit c * 10 + digit d
  fail_if (ltb 23 hh || ltb 59 mm) out_of_range
  ok (hh * 60 + mm)
parse_hhmm _ = err invalid_hhmm

-- The two times, once the separators have been found.
unfoldable pub parse_range : List ℕ → List ℕ → Parsed (ℕ × ℕ)
unfolding parse_hhmm
parse_range from to = do
  start ← parse_hhmm from
  end ← parse_hhmm to
  fail_if (leb end start) end_not_after_start
  ok (start, end)

unfoldable pub parse_business_hours : List ℕ → Parsed (ℕ × ℕ)
unfolding parse_range
parse_business_hours (a ∷ b ∷ s₂ ∷ c ∷ d ∷ s₅ ∷ e ∷ f ∷ s₈ ∷ g ∷ h ∷ []) = do
  fail_if (not (s₂ == 58) || not (s₅ == 45) || not (s₈ == 58)) invalid_format
  parse_range (a ∷ b ∷ s₂ ∷ c ∷ d ∷ []) (e ∷ f ∷ s₈ ∷ g ∷ h ∷ [])
parse_business_hours _ = err invalid_format

parse_hhmm-lt : (s : List ℕ) {n : ℕ} → parse_hhmm s ≡ ok n → n < 24 * 60
unfolding parse_hhmm
parse_hhmm-lt (a ∷ b ∷ colon ∷ c ∷ d ∷ []) h = ground arith
parse_hhmm-lt _ h = absurd (cc)

-- Whatever the text, hours that are accepted open before they close, and both lie within the day.
pub parse_business_hours-lt :
    (s : List ℕ) {start end : ℕ}
    → parse_business_hours s ≡ ok (start, end)
    → (start < end) × (end < 24 * 60)
unfolding parse_business_hours
parse_business_hours-lt (a ∷ b ∷ s₂ ∷ c ∷ d ∷ s₅ ∷ e ∷ f ∷ s₈ ∷ g ∷ h ∷ []) {start} {end} ok_ =
    let from = a ∷ b ∷ s₂ ∷ c ∷ d ∷ [] in
    let to = e ∷ f ∷ s₈ ∷ g ∷ h ∷ [] in
    let (_, _, h₁) =
      >>=-eq-ok (fail_if (not (s₂ == 58) || not (s₅ == 45) || not (s₈ == 58)) invalid_format) _
        ok_ in
    let (m, first, h₂) = >>=-eq-ok (parse_hhmm from) _ h₁ in
    let (n, second, h₃) = >>=-eq-ok (parse_hhmm to) _ h₂ in
    let (_, later, h₄) = >>=-eq-ok (fail_if (leb n m) end_not_after_start) _ h₃ in
    let opening : m ≡ start = cc in
    let closing : n ≡ end = cc in
    let limit = parse_hhmm-lt to second in (ground arith, rw (← closing) limit)
parse_business_hours-lt _ ok_ = absurd (cc)
