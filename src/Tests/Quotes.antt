-- ===== src/Tests/Quotes.antt =====
-- internal/pricing/quote.go: a quote is issued and found.
use dishflow_glm.Prelude.{
  ℕ, ◌+◌, ltb, ◌≡◌, ◌↔◌, refl, if◌then◌else◌, true, some, [], ◌∷◌, ◌++◌, ok, err,
}
use dishflow_glm.Quotes.Store.{Text, QuoteStore, quote_expired, issue, lookup, delete, verify_sig}
use dishflow_glm.Quotes.Tokens.{verify_sig_iff, lookup-issue}

-- A signature that is easy to follow.
abbrev sign : Text → Text
sign raw = 97 ∷ raw

abbrev raw : Text
raw = 49 ∷ 50 ∷ []

abbrev quotes : QuoteStore ℕ
quotes = record { sign = sign; ttl = 600000000000; rdb = some [] }

forged_refused : (verify_sig sign (raw ++ b'.' ∷ 97 ∷ 49 ∷ []) ≡ true) ↔ (97 ∷ 49 ∷ [] ≡ sign raw)
forged_refused = verify_sig_iff sign raw (97 ∷ 49 ∷ []) (refl, (refl, tt)) refl refl

lookup-issue_example :
    let (summary, after) = issue 1000 raw 1900 quotes in
    (lookup 5000 summary.token after
      ≡ (if ltb 5000 (1000 + 600000000000) then ok summary else err quote_expired))
    × (lookup 5000 summary.token (delete summary.token after) ≡ err quote_expired)
lookup-issue_example =
    lookup-issue quotes [] 1000 5000 raw 1900 refl (refl, (refl, (refl, tt))) refl refl
