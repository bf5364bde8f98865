-- ===== src/Access/Sessions.antt =====
-- internal/authn: the sessions of the accounts (store.go), the check of each request (middleware.go), and the handlers
-- of internal/admin/session.go. A token stands for its hash, and the application and the database share one clock,
-- which nothing rounds.
use dishflow_glm.Prelude.{
  ℕ, ltb, leb, ◌==◌, ◌+◌, if◌then◌else◌, Bool, not, ◌&&◌, ◌||◌, Option, none, some, List, [], ◌∷◌,
  find?, count, update_where,
}
use dishflow_glm.Staff.Members.{Member, is_member_at}
use dishflow_glm.Menu.Rows.{is_set, rows_where}
use dishflow_glm.Access.Limiter.{RateLimiter, allow_login}

pub record Session : Type 0 where
  pub id : ℕ
  pub admin_user_id : ℕ
  pub token_hash : ℕ
  pub active_store_id : Option ℕ
  pub ip_address : ℕ
  pub user_agent : ℕ
  pub issued_at : ℕ
  pub last_seen_at : ℕ
  pub expires_at : ℕ
  pub revoked_at : Option ℕ

pub record AdminUser : Type 0 where
  pub id : ℕ
  pub login : ℕ
  pub password_hash : ℕ
  pub enabled : Bool
  pub is_platform_admin : Bool
  pub last_login_at : Option ℕ

pub record Accounts : Type 0 where
  pub users : List AdminUser
  pub members : List Member
  pub sessions : List Session

-- What the store and the configuration fix: the two times to live, and how long a session is not renewed.
pub record Lifetimes : Type 0 where
  pub idle_ttl : ℕ
  pub abs_ttl : ℕ
  pub renew_slack : ℕ

abbrev pub earliest : ℕ → ℕ → ℕ
earliest a b = if ltb a b then a else b

abbrev pub is_user : ℕ → AdminUser → Bool
is_user id u = u.id == id

abbrev pub has_login : ℕ → AdminUser → Bool
has_login login u = u.login == login

abbrev pub has_token : ℕ → Session → Bool
has_token token s = s.token_hash == token

abbrev pub is_live_token : ℕ → Session → Bool
is_live_token token s = has_token token s && not (is_set s.revoked_at)

unfoldable pub get_session_by_token : ℕ → Accounts → Option Session
get_session_by_token token accounts = find? (is_live_token token) accounts.sessions

abbrev pub is_live_session : ℕ → Session → Bool
is_live_session id s = (s.id == id) && not (is_set s.revoked_at)

abbrev pub renew : ℕ → ℕ → Session → Session
renew now expiry s = record s { last_seen_at = now; expires_at = expiry }

unfoldable pub renew_session : ℕ → ℕ → ℕ → Accounts → Accounts
renew_session id now expiry accounts = record accounts {
  sessions = update_where (is_live_session id) (renew now expiry) accounts.sessions;
}

abbrev pub revoke : ℕ → Session → Session
revoke now s = record s { revoked_at = some now }

unfoldable pub revoke_session : ℕ → ℕ → Accounts → Accounts
revoke_session id now accounts = record accounts {
  sessions = update_where (is_live_session id) (revoke now) accounts.sessions;
}

abbrev pub is_membership_of : ℕ → Member → Bool
is_membership_of user m = m.admin_user_id == user

abbrev pub only_store : List Member → Option ℕ
only_store [] = none
only_store (m ∷ []) = some m.store_id
only_store (m ∷ n ∷ ms) = none

abbrev pub active_store : AdminUser → List Member → Option ℕ
active_store user members =
    if user.is_platform_admin
    then none
    else only_store (rows_where (is_membership_of user.id) members)

-- The keys of `admin_sessions`.
abbrev pub is_taken : Session → Session → Bool
is_taken new s = (s.id == new.id) || (s.token_hash == new.token_hash)

abbrev pub new_session : Lifetimes → AdminUser → ℕ → ℕ → ℕ → ℕ → ℕ → Accounts → Session
new_session lifetimes user id token ip agent now accounts = record {
  id = id;
  admin_user_id = user.id;
  token_hash = token;
  active_store_id = active_store user accounts.members;
  ip_address = ip;
  user_agent = agent;
  issued_at = now;
  last_seen_at = now;
  expires_at = earliest (now + lifetimes.idle_ttl) (now + lifetimes.abs_ttl);
  revoked_at = none;
}

unfoldable pub create_session : Session → Accounts → Option Accounts
create_session new accounts =
    if ltb 0 (count (is_taken new) accounts.sessions)
    then none
    else some (record accounts { sessions = new ∷ accounts.sessions })

-- The id and the token are random.
unfoldable pub issue_admin_session :
    Lifetimes → AdminUser → ℕ → ℕ → ℕ → ℕ → ℕ → Accounts → Option Accounts
unfolding create_session
issue_admin_session lifetimes user id token ip agent now accounts =
    create_session (new_session lifetimes user id token ip agent now accounts) accounts

pub data Reply : Type 0 where
  unauthorized bad_store_id forbidden rate_limited bad_credentials disabled failed logged_out :
      Reply
  logged_in : AdminUser → Reply
  served : AdminUser → Option Member → Reply

-- `X-Store-Id`: missing, not a positive number, or a store.
pub data StoreHeader : Type 0 where
  missing malformed : StoreHeader
  store_of : ℕ → StoreHeader

abbrev pub member_reply : AdminUser → Option Member → Reply
member_reply user none = forbidden
member_reply user (some m) = served user (some m)

abbrev pub serve : StoreHeader → AdminUser → Accounts → Reply
serve missing user accounts = served user none
serve malformed user accounts = bad_store_id
serve (store_of store) user accounts =
    member_reply user (find? (is_member_at store user.id) accounts.members)

abbrev pub new_expiry : Lifetimes → ℕ → Session → ℕ
new_expiry lifetimes now s = earliest (now + lifetimes.idle_ttl) (s.issued_at + lifetimes.abs_ttl)

-- A session is renewed if it was not for a while, and only to a later end.
abbrev pub is_due : Lifetimes → ℕ → Session → Bool
is_due lifetimes now s =
    leb (s.last_seen_at + lifetimes.renew_slack) now
    && ltb s.expires_at (new_expiry lifetimes now s)

abbrev pub renew_if_due : Lifetimes → ℕ → Session → Accounts → Accounts
renew_if_due lifetimes now s accounts =
    if is_due lifetimes now s
    then renew_session s.id now (new_expiry lifetimes now s) accounts
    else accounts

abbrev pub check_user :
    Lifetimes → StoreHeader → ℕ → Session → Option AdminUser → Accounts → Reply × Accounts
check_user lifetimes header now s none accounts = (unauthorized, accounts)
check_user lifetimes header now s (some user) accounts =
    if user.enabled
    then (serve header user accounts, renew_if_due lifetimes now s accounts)
    else (unauthorized, accounts)

abbrev pub check_session :
    Lifetimes → StoreHeader → ℕ → Option Session → Accounts → Reply × Accounts
check_session lifetimes header now none accounts = (unauthorized, accounts)
check_session lifetimes header now (some s) accounts =
    if ltb s.expires_at now || is_set s.revoked_at
    then (unauthorized, accounts)
    else check_user lifetimes header now s (find? (is_user s.admin_user_id) accounts.users) accounts

-- `Middleware`; the empty token is 0.
unfoldable pub middleware : Lifetimes → StoreHeader → ℕ → ℕ → Accounts → Reply × Accounts
unfolding get_session_by_token
middleware lifetimes header token now accounts =
    if token == 0
    then (unauthorized, accounts)
    else check_session lifetimes header now (get_session_by_token token accounts) accounts

unfoldable pub logout : ℕ → ℕ → Accounts → Accounts
unfolding get_session_by_token revoke_session
logout token now accounts =
    if token == 0 then accounts else elim (get_session_by_token token accounts) [
      | none ↦ accounts
      | some s ↦ revoke_session s.id now accounts
    ]

abbrev pub touch_last_login : ℕ → AdminUser → AdminUser
touch_last_login now u = record u { last_login_at = some now }

abbrev pub finish_login : AdminUser → ℕ → Option Accounts → Accounts → Reply × Accounts
finish_login user now none accounts = (failed, accounts)
finish_login user now (some accounts') accounts = (
  logged_in user,
  record accounts' {
    users = update_where (is_user user.id) (touch_last_login now) accounts'.users;
  },
)

pub record LoginRequest : Type 0 where
  pub login : ℕ
  pub password : ℕ
  pub ip : ℕ
  pub agent : ℕ

-- `bcrypt` is a parameter.
module _ (verify_password : ℕ → ℕ → Bool) where
  abbrev pub login_user :
      Lifetimes → LoginRequest → ℕ → ℕ → ℕ → Option AdminUser → Accounts → Reply × Accounts
  login_user lifetimes req id token now none accounts = (bad_credentials, accounts)
  login_user lifetimes req id token now (some user) accounts =
      if not (verify_password user.password_hash req.password)
      then (bad_credentials, accounts)
      else if not user.enabled
      then (disabled, accounts)
      else finish_login user now
          (issue_admin_session lifetimes user id token req.ip req.agent now accounts) accounts

  unfoldable pub login :
      Lifetimes → LoginRequest → ℕ → ℕ → ℕ → RateLimiter → Accounts → Reply × RateLimiter × Accounts
  unfolding allow_login issue_admin_session
  login lifetimes req id token now limiter accounts =
      let (allowed, limiter') = allow_login req.ip req.login now limiter in
      if allowed
      then (let answer =
            login_user lifetimes req id token now (find? (has_login req.login) accounts.users)
              accounts in
          (answer.0, limiter', answer.1))
      else (rate_limited, limiter', accounts)
