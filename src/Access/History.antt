-- ===== src/Access/History.antt =====
-- internal/authn: the sessions along any history of requests, logins and logouts.
use dishflow_glm.Prelude.{
  ℕ, ltb, ◌==◌, ◌≡◌, arith, Bool, ◌||◌, Option, none, some, List, ◌∷◌, find?, count, update_where,
  Bool-cases, Option-cases, inl, inr,
}
use dishflow_glm.Menu.Rows.{is_set}
use dishflow_glm.Access.Limiter.{RateLimiter, allow_login}
use dishflow_glm.Access.Sessions.{
  Session, AdminUser, Accounts, Lifetimes, is_live_token, get_session_by_token, is_live_session,
  renew, renew_session, revoke, revoke_session, is_taken, new_session, create_session,
  issue_admin_session, StoreHeader, new_expiry, is_due, renew_if_due, check_user, middleware,
  logout, LoginRequest, login_user, finish_login, login, is_user, has_login,
}
use dishflow_glm.Access.Expiry.{IsShort, Kept, renew_session-Kept, revoke_session-Kept, new-Kept}

-- What a call may do to the sessions.
pub data Change (lifetimes : Lifetimes) (ss : List Session) : List Session → Type 0 where
  unchanged : Change lifetimes ss ss
  renewed :
      (token now : ℕ) (s : Session)
      → find? (is_live_token token) ss ≡ some s
      → Change lifetimes ss
          (update_where (is_live_session s.id) (renew now (new_expiry lifetimes now s)) ss)
  revoked : (id now : ℕ) → Change lifetimes ss (update_where (is_live_session id) (revoke now) ss)
  issued :
      (new : Session)
      → IsShort lifetimes new
      → count (is_taken new) ss ≡ 0
      → Change lifetimes ss (new ∷ ss)

Change-Kept :
    {lifetimes : Lifetimes} {a b : List Session}
    → Kept lifetimes a
    → Change lifetimes a b
    → Kept lifetimes b
Change-Kept kept unchanged = kept
Change-Kept {lifetimes} {a} kept (renewed token now s found) =
    renew_session-Kept lifetimes token now s a found kept
Change-Kept {lifetimes} {a} kept (revoked id now) = revoke_session-Kept lifetimes id now a kept
Change-Kept {lifetimes} {a} kept (issued new short free) = new-Kept lifetimes new a short free kept

renew_if_due-Change :
    (lifetimes : Lifetimes) (token now : ℕ) (s : Session) (a : Accounts)
    → find? (is_live_token token) a.sessions ≡ some s
    → Change lifetimes a.sessions (renew_if_due lifetimes now s a).sessions
unfolding renew_session
renew_if_due-Change lifetimes token now s a found = elim (Bool-cases (is_due lifetimes now s)) [
  | inl e ↦ rw e (renewed token now s found)
  | inr e ↦ rw e unchanged
]

check_user-Change :
    (lifetimes : Lifetimes) (header : StoreHeader) (token now : ℕ) (s : Session)
    (user : Option AdminUser) (a : Accounts)
    → find? (is_live_token token) a.sessions ≡ some s
    → Change lifetimes a.sessions (check_user lifetimes header now s user a).1.sessions
check_user-Change lifetimes header token now s none a found = unchanged
check_user-Change lifetimes header token now s (some user) a found =
    elim (Bool-cases user.enabled) [
      | inl e ↦ rw e (renew_if_due-Change lifetimes token now s a found)
      | inr e ↦ rw e unchanged
    ]

middleware-Change :
    (lifetimes : Lifetimes) (header : StoreHeader) (token now : ℕ) (a : Accounts)
    → Change lifetimes a.sessions (middleware lifetimes header token now a).1.sessions
unfolding middleware get_session_by_token
middleware-Change lifetimes header token now a = elim (Bool-cases (token == 0)) [
  | inl e ↦ rw e unchanged
  | inr e ↦ elim (Option-cases (find? (is_live_token token) a.sessions)) [
    | inl nobody ↦ rw (e, nobody) unchanged
    | inr (s, found) ↦ elim (Bool-cases (ltb s.expires_at now || is_set s.revoked_at)) [
      | inl over ↦ rw (e, found, over) unchanged
      | inr live ↦
          rw (e, found, live)
            (check_user-Change lifetimes header token now s
              (find? (is_user s.admin_user_id) a.users) a found)
    ]
  ]
]

logout-Change :
    (lifetimes : Lifetimes) (token now : ℕ) (a : Accounts)
    → Change lifetimes a.sessions (logout token now a).sessions
unfolding logout get_session_by_token revoke_session
logout-Change lifetimes token now a = elim (Bool-cases (token == 0)) [
  | inl e ↦ rw e unchanged
  | inr e ↦ elim (Option-cases (find? (is_live_token token) a.sessions)) [
    | inl nobody ↦ rw (e, nobody) unchanged
    | inr (s, found) ↦ rw (e, found) (revoked s.id now)
  ]
]

module _ (lifetimes : Lifetimes) (verify_password : ℕ → ℕ → Bool) where
  issue-Change :
      (user : AdminUser) (id token ip agent now : ℕ) (a : Accounts)
      → Change lifetimes a.sessions
          (finish_login user now
            (issue_admin_session lifetimes user id token ip agent now a)
            a).1.sessions
  unfolding issue_admin_session create_session
  issue-Change user id token ip agent now a =
      let new = new_session lifetimes user id token ip agent now a in
      elim (Bool-cases (ltb 0 (count (is_taken new) a.sessions))) [
        | inl e ↦ rw e unchanged
        | inr e ↦ rw e (issued new (ground arith, ground arith) (ground arith))
      ]

  login_user-Change :
      (req : LoginRequest) (id token now : ℕ) (user : Option AdminUser) (a : Accounts)
      → Change lifetimes a.sessions
          (login_user verify_password lifetimes req id token now user a).1.sessions
  login_user-Change req id token now none a = unchanged
  login_user-Change req id token now (some user) a =
      elim (Bool-cases (verify_password user.password_hash req.password)) [
        | inl e ↦ elim (Bool-cases user.enabled) [
          | inl on ↦ rw e (simp on (issue-Change user id token req.ip req.agent now a))
          | inr off ↦ rw (e, off) unchanged
        ]
        | inr e ↦ rw e unchanged
      ]

  login-Change :
      (req : LoginRequest) (id token now : ℕ) (limiter : RateLimiter) (a : Accounts)
      → Change lifetimes a.sessions
          (login verify_password lifetimes req id token now limiter a).2.sessions
  unfolding login
  login-Change req id token now limiter a =
      elim (Bool-cases (allow_login req.ip req.login now limiter).0) [
        | inl e ↦ rw e (login_user-Change req id token now (find? (has_login req.login) a.users) a)
        | inr e ↦ rw e unchanged
      ]

  -- One call.
  pub data AccessStep (a : Accounts) : Accounts → Type 0 where
    requests :
        (header : StoreHeader) (token now : ℕ)
        → AccessStep a (middleware lifetimes header token now a).1
    logs_in :
        (req : LoginRequest) (id token now : ℕ) (limiter : RateLimiter)
        → AccessStep a (login verify_password lifetimes req id token now limiter a).2
    logs_out : (token now : ℕ) → AccessStep a (logout token now a)

  pub data AccessHistory (a : Accounts) : Accounts → Type 0 where
    start : AccessHistory a a
    then_ : {b c : Accounts} → AccessHistory a b → AccessStep b c → AccessHistory a c

  pub AccessStep-Change : {a b : Accounts} → AccessStep a b → Change lifetimes a.sessions b.sessions
  AccessStep-Change {a} (requests header token now) = middleware-Change lifetimes header token now a
  AccessStep-Change {a} (logs_in req id token now limiter) = login-Change req id token now limiter a
  AccessStep-Change {a} (logs_out token now) = logout-Change lifetimes token now a

  pub AccessHistory-Kept :
      {a b : Accounts} → Kept lifetimes a.sessions → AccessHistory a b → Kept lifetimes b.sessions
  AccessHistory-Kept kept start = kept
  AccessHistory-Kept kept (then_ before step) =
      Change-Kept (AccessHistory-Kept kept before) (AccessStep-Change step)
