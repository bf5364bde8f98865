-- ===== src/Tests/Access.antt =====
-- internal/authn: eleven attempts to log in, and a session from the login to the logout.
use dishflow_glm.Prelude.{
  ℕ, zero, suc, ◌*◌, ◌≡◌, ◌≢◌, ◌≤◌, ◌+◌, refl, arith, Bool, true, false, ◌&&◌, ◌==◌, none, some,
  List, [], ◌∷◌, count, map,
}
use dishflow_glm.Staff.Members.{staff, manager}
use dishflow_glm.Access.Limiter.{RateLimiter, minute, new_rate_limiter, allow, allow_login}
use dishflow_glm.Access.Window.{is_within}
use dishflow_glm.Access.Attempts.{Attempts, none_yet, let_through, is_from, is_of, Attempts-limits}
use dishflow_glm.Access.Sessions.{
  AdminUser, Accounts, Session, Lifetimes, LoginRequest, login, logout, middleware,
  get_session_by_token, create_session, issue_admin_session, renew_session, revoke_session,
  unauthorized, missing, store_of,
}
use dishflow_glm.Access.History.{AccessHistory, start, then_, logs_in, requests}
use dishflow_glm.Access.Admission.{Admitted, AccessHistory-Admitted}
use dishflow_glm.Access.Logout.{AccessHistory-logout}
use dishflow_glm.Access.Roles.{require_role}

-- One address tries one account once a second.
abbrev second : ℕ
second = 1000000000

abbrev tries : ℕ → RateLimiter × List Bool
unfolding allow_login allow
tries zero = (new_rate_limiter, [])
tries (suc n) =
    let (rl, answers) = tries n in
    let (answer, rl') = allow_login 7 5 (n * second) rl in (rl', answer ∷ answers)

eleven_tries :
    (tries 11).1 ≡ false ∷ true ∷ true ∷ true ∷ true ∷ true ∷ true ∷ true ∷ true ∷ true ∷ true ∷ []
unfolding allow_login allow
eleven_tries = refl

two_logins :
    Attempts 5
      (record { ip = 7; account = 6; at = 5 } ∷ record { ip = 7; account = 5; at = 4 } ∷ [])
      (allow_login 7 6 5 (allow_login 7 5 4 new_rate_limiter).1).1
unfolding allow_login allow
two_logins = let_through 7 6 5 (let_through 7 5 4 none_yet (omega arith) refl) (omega arith) refl

Attempts-limits_example :
    ((ip : ℕ)
      → count
          (λ l. is_from ip l && is_within minute 5 l)
          (record { ip = 7; account = 6; at = 5 } ∷ record { ip = 7; account = 5; at = 4 } ∷ [])
        ≤ 20)
    × ((account : ℕ)
        → account ≢ 0
        → count
            (λ l. is_of account l && is_within minute 5 l)
            (record { ip = 7; account = 6; at = 5 } ∷ record { ip = 7; account = 5; at = 4 } ∷ [])
          ≤ 10)
Attempts-limits_example = Attempts-limits two_logins 5

abbrev lifetimes : Lifetimes
lifetimes = record { idle_ttl = 480; abs_ttl = 10080; renew_slack = 30 }

abbrev cook : AdminUser
cook = record {
  id = 3;
  login = 5;
  password_hash = 1234;
  enabled = true;
  is_platform_admin = false;
  last_login_at = none;
}

abbrev nobody_in : Accounts
nobody_in = record {
  users = cook ∷ [];
  members = record { store_id = 1; admin_user_id = 3; role = staff } ∷ [];
  sessions = [];
}

-- A hash that adds a thousand.
abbrev verify_sum : ℕ → ℕ → Bool
verify_sum hash password = hash == password + 1000

abbrev request : LoginRequest
request = record { login = 5; password = 234; ip = 7; agent = 0 }

abbrev entered : Accounts
unfolding login allow_login allow issue_admin_session create_session
entered = (login verify_sum lifetimes request 11 99 100 new_rate_limiter nobody_in).2

abbrev renewed : Accounts
unfolding login allow_login allow issue_admin_session create_session middleware get_session_by_token
    renew_session
renewed = (middleware lifetimes missing 99 500 entered).1

abbrev left : Accounts
unfolding login allow_login allow issue_admin_session create_session middleware get_session_by_token
    renew_session logout revoke_session
left = logout 99 600 renewed

renewed_end : map (λ s. s.expires_at) entered.sessions ≡ 580 ∷ []
unfolding login allow_login allow issue_admin_session create_session
renewed_end = refl

abbrev cook_in : AdminUser
cook_in = record cook { last_login_at = some 100 }

history : AccessHistory lifetimes verify_sum nobody_in entered
unfolding login allow_login allow issue_admin_session create_session
history = then_ start (logs_in request 11 99 100 new_rate_limiter)

AccessHistory-Admitted_example : Admitted lifetimes 99 500 cook_in entered
unfolding login allow_login allow issue_admin_session create_session middleware get_session_by_token
    renew_session
AccessHistory-Admitted_example =
    AccessHistory-Admitted lifetimes verify_sum refl history missing 99 500 cook_in none refl

history_to_request : AccessHistory lifetimes verify_sum nobody_in renewed
unfolding login allow_login allow issue_admin_session create_session middleware get_session_by_token
    renew_session
history_to_request = then_ history (requests missing 99 500)

abbrev renewed_session : Session
renewed_session = record {
  id = 11;
  admin_user_id = 3;
  token_hash = 99;
  active_store_id = some 1;
  ip_address = 7;
  user_agent = 0;
  issued_at = 100;
  last_seen_at = 500;
  expires_at = 980;
  revoked_at = none;
}

found_again : get_session_by_token 99 renewed ≡ some renewed_session
unfolding login allow_login allow issue_admin_session create_session middleware get_session_by_token
    renew_session
found_again = refl

AccessHistory-logout_example : (middleware lifetimes (store_of 1) 99 601 left).0 ≡ unauthorized
unfolding login allow_login allow issue_admin_session create_session middleware get_session_by_token
    renew_session logout revoke_session
AccessHistory-logout_example =
    AccessHistory-logout lifetimes verify_sum refl history_to_request 99 600 601 renewed_session
      (store_of 1) refl found_again start

manager_only :
    require_role manager (some (record { store_id = 1; admin_user_id = 3; role = staff })) ≡ false
manager_only = refl
