-- ===== src/Quotes/Tokens.antt =====
-- internal/pricing/quote.go: a quote is found as it was issued, until it expires or is deleted.
use mathlib.Core.List.{reverse, reverse-append, reverse-cons, reverse-reverse, append_assoc}
use dishflow_glm.Prelude.{
  ℕ, ◌+◌, ◌/◌, ltb, ◌==◌, ◌≡◌, ◌↔◌, refl, arith, if◌then◌else◌, true, false, none, some, List, [],
  ◌∷◌, ◌++◌, ok, err, All, All-append, ◌∙◌, ap, Bool-cases, inl, inr,
}
use dishflow_glm.Quotes.Store.{
  Text, text_eq, break_at_point, split_token, is_empty, verify_sig, QuoteSummary, Cached,
  QuoteStore, quote_expired, second, check_expiry, del, get, token_of, issue, lookup, delete,
}

abbrev pub NoPoint : Text → Type 0
NoPoint s = All (λ c. (c == b'.') ≡ false) s

text_eq_refl : (s : Text) → text_eq s s ≡ true
unfolding text_eq
text_eq_refl [] = refl
text_eq_refl (c ∷ s) = let rest = text_eq_refl s in ground arith

text_eq_sound : (s t : Text) → text_eq s t ≡ true → s ≡ t
unfolding text_eq
text_eq_sound [] [] h = refl
text_eq_sound (c ∷ s) (d ∷ t) h =
    let first : c ≡ d = ground arith in let rest = text_eq_sound s t (ground arith) in cc
text_eq_sound [] (d ∷ t) h = cc
text_eq_sound (c ∷ s) [] h = cc

break_at_point-append :
    (s rest : Text) → NoPoint s → break_at_point (s ++ b'.' ∷ rest) ≡ some (s, rest)
unfolding break_at_point
break_at_point-append [] rest n = refl
break_at_point-append (c ∷ s) rest (n, ns) =
    rw (n, break_at_point) (rw (break_at_point-append s rest ns) refl)

NoPoint-reverse : (s : Text) → NoPoint s → NoPoint (reverse s)
NoPoint-reverse [] n = tt
NoPoint-reverse (c ∷ s) (n, ns) =
    rw (reverse-cons c s)
      (All-append (λ c. (c == b'.') ≡ false) (reverse s) (c ∷ []) (NoPoint-reverse s ns) (n, tt))

split_token-token :
    (raw sig : Text) → NoPoint sig → split_token (raw ++ b'.' ∷ sig) ≡ some (raw, sig)
unfolding split_token
split_token-token raw sig n =
    rw (reverse-append raw (b'.' ∷ sig), reverse-cons b'.' sig, append_assoc)
      (rw (break_at_point-append (reverse sig) (reverse raw) (NoPoint-reverse sig n))
        (rw (reverse-reverse raw, reverse-reverse sig) refl))

-- The store reads no token that is not its own signature of what stands before the last point.
pub verify_sig_iff :
    (sign : Text → Text) (raw sig : Text)
    → NoPoint sig
    → is_empty raw ≡ false
    → is_empty sig ≡ false
    → (verify_sig sign (raw ++ b'.' ∷ sig) ≡ true) ↔ (sig ≡ sign raw)
unfolding verify_sig
verify_sig_iff sign raw sig n r s =
    rw (split_token-token raw sig n, r, s)
      ((λ h. text_eq_sound sig (sign raw) h), (λ e. rw e (text_eq_refl (sign raw))))

module _ {ℓ} {B : Type ℓ} where
  get-del : (now : ℕ) (key : Text) (cs : List (Cached B)) → get now key (del key cs) ≡ none
  unfolding get del
  get-del now key [] = refl
  get-del now key (c ∷ cs) = elim (Bool-cases (text_eq c.key key)) [
    | inl e ↦ rw e (get-del now key cs)
    | inr e ↦ rw e (rw e (get-del now key cs))
  ]

  in_time :
      (now deadline : ℕ) (summary : QuoteSummary B)
      → summary.expires_at ≡ deadline / second
      → check_expiry now (if ltb now deadline then some summary else none)
        ≡ (if ltb now deadline then ok summary else err quote_expired)
  in_time now deadline summary e = elim (Bool-cases (ltb now deadline)) [
    | inl l ↦
        let on_time : ltb summary.expires_at (now / second) ≡ false = ground arith in
        rw l (rw on_time refl)
    | inr l ↦ rw l refl
  ]

  lookup-signed :
      (now : ℕ) (token : Text) (q : QuoteStore B) (cs : List (Cached B))
      → verify_sig q.sign token ≡ true
      → q.rdb ≡ some cs
      → lookup now token q ≡ check_expiry now (get now token cs)
  unfolding lookup
  lookup-signed now token q cs v c = rw (v, c) refl

  get-new :
      (now : ℕ) (c : Cached B) (cs : List (Cached B))
      → get now c.key (c ∷ cs) ≡ (if ltb now c.deadline then some c.summary else none)
  unfolding get
  get-new now c cs = rw (text_eq_refl c.key) refl

  -- The random part of a token is not empty, nor is a signature, which has no point. Then a quote that the store
  -- has issued is found as it was issued until its time to live is over, and counts as expired from then on,
  -- and once it is deleted.
  pub lookup-issue :
      (q : QuoteStore B) (cs : List (Cached B)) (issued now : ℕ) (raw : Text) (body : B)
      → q.rdb ≡ some cs
      → NoPoint (q.sign raw)
      → is_empty raw ≡ false
      → is_empty (q.sign raw) ≡ false
      → let (summary, after) = issue issued raw body q in
        (lookup now summary.token after
          ≡ (if ltb now (issued + q.ttl) then ok summary else err quote_expired))
        × (lookup now summary.token (delete summary.token after) ≡ err quote_expired)
  unfolding issue delete
  lookup-issue q cs issued now raw body c n r s =
      let token = token_of q.sign raw in
      let signed = (verify_sig_iff q.sign raw (q.sign raw) n r s).1 refl in
      let summary : QuoteSummary B = record {
        token = token;
        body = body;
        expires_at = (issued + q.ttl) / second;
      } in
      let new : Cached B = record { key = token; summary = summary; deadline = issued + q.ttl } in
      let held = new ∷ del token cs in
      rw c (
        lookup-signed now token (record q { rdb = some held }) held signed refl
            ∙ ap (check_expiry now) (get-new now new (del token cs))
            ∙ in_time now (issued + q.ttl) summary refl,
        lookup-signed now token (record q { rdb = some (del token held) }) (del token held) signed
              refl
            ∙ ap (check_expiry now) (get-del now token held),
      )
