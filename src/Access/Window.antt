-- ===== src/Access/Window.antt =====
-- internal/authn/store.go: how many logins the limiter lets through in a minute.
use dishflow_glm.Prelude.{
  ℕ, ltb, leb, ◌==◌, ◌≡◌, ◌≤◌, ◌<◌, ◌+◌, refl, arith, if◌then◌else◌, Bool, true, false, ◌&&◌, List,
  [], ◌∷◌, ◌++◌, length, count, count-weaker, Bool-cases, inl, inr, ltb→lt,
}
use dishflow_glm.Access.Limiter.{Hits, is_kept, keep_hits, allow}

-- A login that was let through.
pub record Login : Type 0 where
  pub ip : ℕ
  pub account : ℕ
  pub at : ℕ

abbrev pub is_recent : ℕ → ℕ → Login → Bool
is_recent window t l = ltb t (l.at + window)

-- In the window that ends at `t`.
abbrev pub is_within : ℕ → ℕ → Login → Bool
is_within window t l = leb l.at t && is_recent window t l

-- The hits of a key know at least as many recent logins as there were, and no window held more than the limit.
pub record Tracks (limit window last : ℕ) (chosen : Login → Bool) (log : List Login) (hits : List ℕ)
    : Type 0 where
  pub shadow :
      (t : ℕ)
      → last ≤ t
      → count (λ l. chosen l && is_recent window t l) log ≤ count (is_kept window t) hits
  pub bound : (t : ℕ) → count (λ l. chosen l && is_within window t l) log ≤ limit

count-append :
    (p : ℕ → Bool) (xs : List ℕ) (y : ℕ)
    → count p (xs ++ y ∷ []) ≡ count p xs + (if p y then 1 else 0)
count-append p [] y = omega arith
count-append p (x ∷ xs) y = omega (arith, count-append p xs y)

count-keep_hits :
    (window now t : ℕ) (ts : List ℕ)
    → now ≤ t
    → count (is_kept window t) (keep_hits window now ts) ≡ count (is_kept window t) ts
count-keep_hits window now t [] later = refl
count-keep_hits window now t (s ∷ ts) later =
    let rest = count-keep_hits window now t ts later in
    elim (Bool-cases (is_kept window now s)) [
      | inl e ↦ rw (e, rest) refl
      | inr e ↦
          let gone : is_kept window t s ≡ false = ground arith in rw (e, gone) (omega (arith, rest))
    ]

length-keep_hits :
    (window now : ℕ) (ts : List ℕ)
    → length (keep_hits window now ts) ≡ count (is_kept window now) ts
length-keep_hits window now [] = refl
length-keep_hits window now (s ∷ ts) =
    let rest = length-keep_hits window now ts in
    elim (Bool-cases (is_kept window now s)) [
      | inl e ↦ rw e (omega (arith, rest))
      | inr e ↦ rw e (omega (arith, rest))
    ]

count-length : (p : ℕ → Bool) (ts : List ℕ) → count p ts ≤ length ts
count-length p [] = omega arith
count-length p (t ∷ ts) = let rest = count-length p ts in ground arith

one_at_most : (b : Bool) → (if b then 1 else 0) ≤ 1
one_at_most true = omega arith
one_at_most false = omega arith

module _ (limit window : ℕ) (chosen : Login → Bool) where
  pub Tracks-later :
      (last now : ℕ) {log : List Login} {hits : List ℕ}
      → last ≤ now
      → Tracks limit window last chosen log hits
      → Tracks limit window now chosen log (keep_hits window now hits)
  Tracks-later last now {log} {hits} later tracks = record {
    shadow =
        λ t after. rw (count-keep_hits window now t hits after) (tracks.shadow t (omega arith));
    bound = tracks.bound;
  }

  -- A hit that is not a login, since the account was refused.
  pub Tracks-hit :
      (now : ℕ) {log : List Login} {hits : List ℕ}
      → Tracks limit window now chosen log hits
      → Tracks limit window now chosen log (hits ++ now ∷ [])
  Tracks-hit now {log} {hits} tracks = record {
    shadow =
        λ t after. omega (arith, tracks.shadow t after, count-append (is_kept window t) hits now);
    bound = tracks.bound;
  }

  pub Tracks-other :
      (last : ℕ) (l : Login) {log : List Login} {hits : List ℕ}
      → chosen l ≡ false
      → Tracks limit window last chosen log hits
      → Tracks limit window last chosen (l ∷ log) hits
  Tracks-other last l {log} {hits} not_chosen tracks = record {
    shadow = λ t after. rw not_chosen (omega (arith, tracks.shadow t after));
    bound = λ t. rw not_chosen (omega (arith, tracks.bound t));
  }

  -- Below the limit there is room for one more.
  room :
      (now t : ℕ) {log : List Login} {hits : List ℕ}
      → now ≤ t
      → length hits < limit
      → Tracks limit window now chosen log hits
      → count (λ l. chosen l && is_within window t l) log < limit
  room now t {log} {hits} after below tracks =
      let weaker =
        count-weaker (λ l. chosen l && is_within window t l) (λ l. chosen l && is_recent window t l)
          log (λ l h. ground arith) in
      omega (arith, weaker, tracks.shadow t after, count-length (is_kept window t) hits, below)

  pub Tracks-login :
      (now : ℕ) (l : Login) {log : List Login} {hits : List ℕ}
      → l.at ≡ now
      → chosen l ≡ true
      → length hits < limit
      → Tracks limit window now chosen log hits
      → Tracks limit window now chosen (l ∷ log) (hits ++ now ∷ [])
  Tracks-login now l {log} {hits} at is_chosen below tracks = record {
    shadow = λ t after.
        rw (is_chosen, at, count-append (is_kept window t) hits now)
          (omega (arith, tracks.shadow t after));
    bound = λ t. elim (Bool-cases (leb now t)) [
      | inl e ↦
          let below_limit = room now t (ground arith) below tracks in
          omega (arith, below_limit, one_at_most (chosen l && is_within window t l))
      | inr e ↦ rw (is_chosen, at, e) (omega (arith, tracks.bound t))
    ];
  }

-- One call of `Allow`, as seen from each key.
module _ (limit window : ℕ) (key_of : Login → ℕ) where
  abbrev chosen : ℕ → Login → Bool
  chosen k l = key_of l == k

  pub Tracks-weaken :
      (last now k : ℕ) {log : List Login} {hits : List ℕ}
      → last ≤ now
      → Tracks limit window last (chosen k) log hits
      → Tracks limit window now (chosen k) log hits
  Tracks-weaken last now k later tracks = record {
    shadow = λ t after. tracks.shadow t (omega arith);
    bound = tracks.bound;
  }

  pub Tracks-allow :
      (last now key k : ℕ) (log : List Login) (hits : Hits)
      → last ≤ now
      → Tracks limit window last (chosen k) log (hits k)
      → Tracks limit window now (chosen k) log ((allow limit window key now hits).1 k)
  unfolding allow
  Tracks-allow last now key k log hits later tracks =
      let full = ltb (length (keep_hits window now (hits key))) limit in
      let aged = Tracks-later limit window (chosen k) last now later tracks in
      elim (Bool-cases (k == key)) [
        | inl same ↦
            let eq : k ≡ key = ground arith in
            elim (Bool-cases full) [
              | inl e ↦ rw (e, same, ← eq) (Tracks-hit limit window (chosen k) now aged)
              | inr e ↦ rw (e, same, ← eq) aged
            ]
        | inr other ↦
            let kept = Tracks-weaken last now k later tracks in
            elim (Bool-cases full) [ inl e ↦ rw (e, other) kept | inr e ↦ rw (e, other) kept ]
      ]

  pub Tracks-allow_login :
      (last now k : ℕ) (l : Login) (log : List Login) (hits : Hits)
      → last ≤ now
      → l.at ≡ now
      → (allow limit window (key_of l) now hits).0 ≡ true
      → Tracks limit window last (chosen k) log (hits k)
      → Tracks limit window now (chosen k) (l ∷ log) ((allow limit window (key_of l) now hits).1 k)
  unfolding allow
  Tracks-allow_login last now k l log hits later at through tracks =
      elim (Bool-cases (ltb (length (keep_hits window now (hits (key_of l)))) limit)) [
        | inl e ↦ elim (Bool-cases (k == key_of l)) [
          | inl same ↦
              let eq : k ≡ key_of l = ground arith in
              let this : chosen k l ≡ true = ground arith in
              let room = ltb→lt (length (keep_hits window now (hits (key_of l)))) limit e in
              rw (e, same, ← eq)
                (Tracks-login limit window (chosen k) now l at this (rw (← eq) at room)
                  (Tracks-later limit window (chosen k) last now later tracks))
          | inr other ↦
              let not_this : chosen k l ≡ false = ground arith in
              rw (e, other)
                (Tracks-other limit window (chosen k) now l not_this
                  (Tracks-weaken last now k later tracks))
        ]
        | inr e ↦ absurd (let bad : false ≡ true = rw e at through in cc)
      ]
