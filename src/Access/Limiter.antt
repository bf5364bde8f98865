-- ===== src/Access/Limiter.antt =====
-- internal/authn/store.go: `loginCounter` and `RateLimiter`. Instants are in nanoseconds; a key is a number, and 0 the
-- empty text.
use dishflow_glm.Prelude.{
  ℕ, ltb, ◌==◌, ◌+◌, if◌then◌else◌, Bool, true, false, List, [], ◌∷◌, ◌++◌, length,
}

-- `hits`: a key that the map does not have has no hits.
abbrev pub Hits : Type 0
Hits = ℕ → List ℕ

-- `t.After(cutoff)`
abbrev pub is_kept : ℕ → ℕ → ℕ → Bool
is_kept window now t = ltb now (t + window)

abbrev pub keep_hits : ℕ → ℕ → List ℕ → List ℕ
keep_hits window now [] = []
keep_hits window now (t ∷ ts) =
    if is_kept window now t then t ∷ keep_hits window now ts else keep_hits window now ts

abbrev pub set_hits : ℕ → List ℕ → Hits → Hits
set_hits key ts hits k = if k == key then ts else hits k

unfoldable pub allow : ℕ → ℕ → ℕ → ℕ → Hits → Bool × Hits
allow limit window key now hits =
    let keep = keep_hits window now (hits key) in
    if ltb (length keep) limit
    then (true, set_hits key (keep ++ now ∷ []) hits)
    else (false, set_hits key keep hits)

pub record RateLimiter : Type 0 where
  pub by_ip : Hits
  pub by_account : Hits

abbrev pub login_ip_limit_per_min : ℕ
login_ip_limit_per_min = 20

abbrev pub login_account_limit_min : ℕ
login_account_limit_min = 10

abbrev pub minute : ℕ
minute = 60000000000

abbrev pub new_rate_limiter : RateLimiter
new_rate_limiter = record { by_ip = λ k. []; by_account = λ k. [] }

-- The second half of `AllowLogin`.
abbrev pub allow_account : ℕ → ℕ → RateLimiter → Bool × RateLimiter
allow_account account now rl =
    if account == 0
    then (true, rl)
    else (let answer = allow login_account_limit_min minute account now rl.by_account in
        (answer.0, record rl { by_account = answer.1 }))

abbrev pub allow_then : ℕ → ℕ → Bool × Hits → RateLimiter → Bool × RateLimiter
allow_then account now (true, hits) rl = allow_account account now (record rl { by_ip = hits })
allow_then account now (false, hits) rl = (false, record rl { by_ip = hits })

unfoldable pub allow_login : ℕ → ℕ → ℕ → RateLimiter → Bool × RateLimiter
unfolding allow
allow_login ip account now rl =
    allow_then account now (allow login_ip_limit_per_min minute ip now rl.by_ip) rl
