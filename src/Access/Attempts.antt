-- ===== src/Access/Attempts.antt =====
-- internal/authn/store.go: how many logins `AllowLogin` lets through in a minute.
use dishflow_glm.Prelude.{
  ℕ, ◌==◌, ◌≡◌, ◌≢◌, ◌≤◌, refl, arith, Bool, true, false, ◌&&◌, List, [], ◌∷◌, count, Bool-cases,
  inl, inr,
}
use dishflow_glm.Access.Limiter.{
  Hits, allow, RateLimiter, login_ip_limit_per_min, login_account_limit_min, minute,
  new_rate_limiter, allow_then, allow_login,
}
use dishflow_glm.Access.Window.{
  Login, is_within, Tracks, Tracks-weaken, Tracks-other, Tracks-allow, Tracks-allow_login,
}

-- Attempts to log in, in the order of their times, and those that were let through.
pub data Attempts : ℕ → List Login → RateLimiter → Type 0 where
  none_yet : Attempts 0 [] new_rate_limiter
  refused :
      {last : ℕ} {log : List Login} {rl : RateLimiter} (ip account now : ℕ)
      → Attempts last log rl
      → last ≤ now
      → (allow_login ip account now rl).0 ≡ false
      → Attempts now log (allow_login ip account now rl).1
  let_through :
      {last : ℕ} {log : List Login} {rl : RateLimiter} (ip account now : ℕ)
      → Attempts last log rl
      → last ≤ now
      → (allow_login ip account now rl).0 ≡ true
      → Attempts now
          (record { ip = ip; account = account; at = now } ∷ log)
          (allow_login ip account now rl).1

abbrev pub is_from : ℕ → Login → Bool
is_from ip l = l.ip == ip

abbrev pub is_of : ℕ → Login → Bool
is_of account l = l.account == account

record Limited (last : ℕ) (log : List Login) (rl : RateLimiter) : Type 0 where
  ips : (ip : ℕ) → Tracks login_ip_limit_per_min minute last (is_from ip) log (rl.by_ip ip)
  accounts :
      (account : ℕ)
      → account ≢ 0
      → Tracks login_account_limit_min minute last (is_of account) log (rl.by_account account)

-- No account is the empty one.
other_account : (a account : ℕ) → a ≢ 0 → (account == 0) ≡ true → (account == a) ≡ false
other_account a account some_a e = ground arith

refused-Limited :
    (last account now : ℕ) (log : List Login) (answer : Bool × Hits) (rl : RateLimiter)
    → last ≤ now
    → ((ip : ℕ) → Tracks login_ip_limit_per_min minute now (is_from ip) log (answer.1 ip))
    → Limited last log rl
    → (allow_then account now answer rl).0 ≡ false
    → Limited now log (allow_then account now answer rl).1
refused-Limited last account now log (false, hits) rl later ips limited h = record {
  ips = ips;
  accounts = λ a some_a.
      Tracks-weaken login_account_limit_min minute (λ l. l.account) last now a later
        (limited.accounts a some_a);
}
refused-Limited last account now log (true, hits) rl later ips limited h =
    elim (Bool-cases (account == 0)) [
      | inl e ↦ absurd (let bad = rw e at h in cc)
      | inr e ↦ rw e (record {
        ips = ips;
        accounts = λ a some_a.
            Tracks-allow login_account_limit_min minute (λ l. l.account) last now account a log
              rl.by_account later (limited.accounts a some_a);
      })
    ]

through-Limited :
    (last ip account now : ℕ) (log : List Login) (answer : Bool × Hits) (rl : RateLimiter)
    → last ≤ now
    → (answer.0 ≡ true
        → (k : ℕ)
        → Tracks login_ip_limit_per_min minute now
            (is_from k)
            (record { ip = ip; account = account; at = now } ∷ log)
            (answer.1 k))
    → Limited last log rl
    → (allow_then account now answer rl).0 ≡ true
    → Limited now
        (record { ip = ip; account = account; at = now } ∷ log)
        (allow_then account now answer rl).1
through-Limited last ip account now log (false, hits) rl later ips limited h = absurd (cc)
through-Limited last ip account now log (true, hits) rl later ips limited h =
    let l : Login = record { ip = ip; account = account; at = now } in
    elim (Bool-cases (account == 0)) [
      | inl e ↦ rw e (record {
        ips = ips refl;
        accounts = λ a some_a.
            Tracks-other login_account_limit_min minute (is_of a) now l
              (other_account a account some_a e)
              (Tracks-weaken login_account_limit_min minute (λ m. m.account) last now a later
                (limited.accounts a some_a));
      })
      | inr e ↦ rw e (record {
        ips = ips refl;
        accounts = λ a some_a.
            Tracks-allow_login login_account_limit_min minute (λ m. m.account) last now a l log
              rl.by_account later refl (rw e at h) (limited.accounts a some_a);
      })
    ]

Attempts-Limited :
    {last : ℕ} {log : List Login} {rl : RateLimiter} → Attempts last log rl → Limited last log rl
unfolding allow_login
Attempts-Limited none_yet = record {
  ips = λ k. record { shadow = λ t after. omega arith; bound = λ t. omega arith };
  accounts = λ k some_k. record { shadow = λ t after. omega arith; bound = λ t. omega arith };
}
Attempts-Limited (refused {last} {log} {rl} ip account now before later h) =
    let limited = Attempts-Limited before in
    refused-Limited last account now log (allow login_ip_limit_per_min minute ip now rl.by_ip) rl
      later
      (λ k.
        Tracks-allow login_ip_limit_per_min minute (λ l. l.ip) last now ip k log rl.by_ip later
          (limited.ips k))
      limited h
Attempts-Limited (let_through {last} {log} {rl} ip account now before later h) =
    let limited = Attempts-Limited before in
    let l : Login = record { ip = ip; account = account; at = now } in
    through-Limited last ip account now log (allow login_ip_limit_per_min minute ip now rl.by_ip) rl
      later
      (λ ok k.
        Tracks-allow_login login_ip_limit_per_min minute (λ m. m.ip) last now k l log rl.by_ip later
          refl ok (limited.ips k))
      limited h

-- However the attempts to log in follow one another in time, of those from one address at most 20 are let through
-- within any minute, and of those for one account, if it is not the empty text, at most 10.
pub Attempts-limits :
    {last : ℕ} {log : List Login} {rl : RateLimiter}
    → Attempts last log rl
    → (t : ℕ)
    → ((ip : ℕ) → count (λ l. is_from ip l && is_within minute t l) log ≤ 20)
      × ((account : ℕ)
          → account ≢ 0
          → count (λ l. is_of account l && is_within minute t l) log ≤ 10)
Attempts-limits attempts t =
    let limited = Attempts-Limited attempts in
    (
      λ ip. (limited.ips ip).bound t,
      λ account some_account. (limited.accounts account some_account).bound t,
    )
