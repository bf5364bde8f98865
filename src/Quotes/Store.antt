-- ===== src/Quotes/Store.antt =====
-- internal/pricing/quote.go: `IssueWithLines`, `Lookup`, `Delete` and `verifySig`. The HMAC is a parameter, and so
-- is the random part of a token; a text is the list of its bytes. What else a quote says is of any type.
use mathlib.Core.List.{reverse}
use dishflow_glm.Prelude.{
  ℕ, ◌+◌, ◌/◌, ltb, ◌==◌, if◌then◌else◌, Bool, true, false, not, ◌&&◌, ◌||◌, Option, none, some,
  List, [], ◌∷◌, ◌++◌, Result, ok, err, ◌>>◌, fail_if,
}

abbrev pub Text : Type 0
Text = List ℕ

unfoldable pub text_eq : Text → Text → Bool
text_eq [] [] = true
text_eq (c ∷ s) (d ∷ t) = (c == d) && text_eq s t
text_eq [] (d ∷ t) = false
text_eq (c ∷ s) [] = false

-- The text before the first point, and the text after it.
unfoldable pub break_at_point : Text → Option (Text × Text)
break_at_point [] = none
break_at_point (c ∷ s) = elim (c == b'.') [
  | true ↦ some ([], s)
  | false ↦ elim (break_at_point s) [ none ↦ none | some (a, b) ↦ some (c ∷ a, b) ]
]

-- The loop of `verifySig` runs from the end: the last point counts.
abbrev pub from_end : Option (Text × Text) → Option (Text × Text)
from_end none = none
from_end (some (sig, raw)) = some (reverse raw, reverse sig)

unfoldable pub split_token : Text → Option (Text × Text)
unfolding break_at_point
split_token token = from_end (break_at_point (reverse token))

abbrev pub is_empty : Text → Bool
is_empty [] = true
is_empty (c ∷ s) = false

-- `idx <= 0 || idx >= len(token)-1`, and the comparison of the signatures.
abbrev pub check_parts : (Text → Text) → Option (Text × Text) → Bool
check_parts sign none = false
check_parts sign (some (raw, sig)) =
    if is_empty raw || is_empty sig then false else text_eq sig (sign raw)

unfoldable pub verify_sig : (Text → Text) → Text → Bool
unfolding split_token text_eq
verify_sig sign token = check_parts sign (split_token token)

pub record QuoteSummary {ℓ} (B : Type ℓ) : Type ℓ where
  pub token : Text
  pub body : B
  pub expires_at : ℕ

pub data QuoteError : Type 0 where
  invalid_signature storage_unavailable quote_expired : QuoteError

-- A value in Redis, which is gone from its deadline on.
pub record Cached {ℓ} (B : Type ℓ) : Type ℓ where
  pub key : Text
  pub summary : QuoteSummary B
  pub deadline : ℕ

-- `rdb` may be missing; instants and the ttl are nanoseconds.
pub record QuoteStore {ℓ} (B : Type ℓ) : Type ℓ where
  pub sign : Text → Text
  pub ttl : ℕ
  pub rdb : Option (List (Cached B))

abbrev pub second : ℕ
second = 1000000000

abbrev pub token_of : (Text → Text) → Text → Text
token_of sign raw = raw ++ b'.' ∷ sign raw

module _ {ℓ} {B : Type ℓ} where
  -- `Set`: a value under the key is replaced.
  unfoldable pub del : Text → List (Cached B) → List (Cached B)
  unfolding text_eq
  del key [] = []
  del key (c ∷ cs) = if text_eq c.key key then del key cs else c ∷ del key cs

  unfoldable pub get : ℕ → Text → List (Cached B) → Option (QuoteSummary B)
  unfolding text_eq
  get now key [] = none
  get now key (c ∷ cs) =
      if text_eq c.key key
      then if ltb now c.deadline then some c.summary else none
      else get now key cs

  abbrev pub set_quote :
      ℕ → ℕ → QuoteSummary B → Option (List (Cached B)) → Option (List (Cached B))
  set_quote now ttl summary none = none
  set_quote now ttl summary (some cs) = some (
      record { key = summary.token; summary = summary; deadline = now + ttl }
      ∷ del summary.token cs)

  unfoldable pub issue : ℕ → Text → B → QuoteStore B → QuoteSummary B × QuoteStore B
  unfolding del
  issue now raw body q =
      let summary : QuoteSummary B = record {
        token = token_of q.sign raw;
        body = body;
        expires_at = (now + q.ttl) / second;
      } in
      (summary, record q { rdb = set_quote now q.ttl summary q.rdb })

  abbrev pub check_expiry : ℕ → Option (QuoteSummary B) → Result QuoteError (QuoteSummary B)
  check_expiry now none = err quote_expired
  check_expiry now (some s) = if ltb s.expires_at (now / second) then err quote_expired else ok s

  abbrev pub lookup_in : ℕ → Text → Option (List (Cached B)) → Result QuoteError (QuoteSummary B)
  lookup_in now token none = err storage_unavailable
  lookup_in now token (some cs) = check_expiry now (get now token cs)

  unfoldable pub lookup : ℕ → Text → QuoteStore B → Result QuoteError (QuoteSummary B)
  unfolding verify_sig get
  lookup now token q = do
    fail_if (not (verify_sig q.sign token)) invalid_signature
    lookup_in now token q.rdb

  abbrev pub del_in : Text → Option (List (Cached B)) → Option (List (Cached B))
  del_in token none = none
  del_in token (some cs) = some (del token cs)

  unfoldable pub delete : Text → QuoteStore B → QuoteStore B
  unfolding del
  delete token q = record q { rdb = del_in token q.rdb }
