-- ===== src/Access/Admission.antt =====
-- internal/authn: which requests are served.
use dishflow_glm.Prelude.{
  ℕ, ltb, ◌==◌, ◌+◌, ◌≡◌, ◌≤◌, arith, Bool, true, ◌||◌, Option, none, some, [], find?, find?-All,
  Bool-cases, Option-cases, inl, inr, ap,
}
use dishflow_glm.Staff.Members.{Member, is_member_at}
use dishflow_glm.Menu.Rows.{is_set}
use dishflow_glm.Access.Sessions.{
  Session, AdminUser, Accounts, Lifetimes, is_live_token, get_session_by_token, served,
  unauthorized, forbidden, StoreHeader, missing, malformed, store_of, serve, check_user, middleware,
  is_user,
}
use dishflow_glm.Access.Expiry.{IsShort, Kept}
use dishflow_glm.Access.History.{AccessHistory, AccessHistory-Kept}

-- What stands behind a request that is served.
pub record Admitted (lifetimes : Lifetimes) (token now : ℕ) (user : AdminUser) (a : Accounts)
    : Type 0 where
  pub session : Session
  pub found : find? (is_live_token token) a.sessions ≡ some session
  pub in_life : now ≤ session.issued_at + lifetimes.abs_ttl
  pub in_use : now ≤ session.last_seen_at + lifetimes.idle_ttl
  pub owner : find? (is_user session.admin_user_id) a.users ≡ some user
  pub enabled : user.enabled ≡ true

serve_user :
    (header : StoreHeader) (user u : AdminUser) (m : Option Member) (a : Accounts)
    → serve header user a ≡ served u m
    → user ≡ u
serve_user missing user u m a h = cc
serve_user malformed user u m a h = absurd (cc)
serve_user (store_of store) user u m a h =
    elim (Option-cases (find? (is_member_at store user.id) a.members)) [
      | inl nobody ↦ absurd (let bad : forbidden ≡ served u m = rw nobody at h in cc)
      | inr (n, found) ↦ let this : served user (some n) ≡ served u m = rw found at h in cc
    ]

check_user-served :
    (lifetimes : Lifetimes) (header : StoreHeader) (now : ℕ) (s : Session)
    (found : Option AdminUser) (a : Accounts) (user : AdminUser) (m : Option Member)
    → (check_user lifetimes header now s found a).0 ≡ served user m
    → (found ≡ some user) × (user.enabled ≡ true)
check_user-served lifetimes header now s none a user m h = absurd (cc)
check_user-served lifetimes header now s (some u) a user m h = elim (Bool-cases u.enabled) [
  | inl e ↦ let same = serve_user header u user m a (simp e at h) in (ap some same, rw (← same) e)
  | inr e ↦ absurd (let bad : unauthorized ≡ served user m = rw e at h in cc)
]

middleware-Admitted :
    (lifetimes : Lifetimes) (header : StoreHeader) (token now : ℕ) (a : Accounts) (user : AdminUser)
    (m : Option Member)
    → Kept lifetimes a.sessions
    → (middleware lifetimes header token now a).0 ≡ served user m
    → Admitted lifetimes token now user a
unfolding middleware get_session_by_token
middleware-Admitted lifetimes header token now a user m kept h = elim (Bool-cases (token == 0)) [
  | inl e ↦ absurd (let bad : unauthorized ≡ served user m = rw e at h in cc)
  | inr e ↦
      let h' = rw e at h in
      elim (Option-cases (find? (is_live_token token) a.sessions)) [
        | inl nobody ↦ absurd (let bad : unauthorized ≡ served user m = rw nobody at h' in cc)
        | inr (s, found) ↦
            let h'' = rw found at h' in
            elim (Bool-cases (ltb s.expires_at now || is_set s.revoked_at)) [
              | inl over ↦ absurd (let bad : unauthorized ≡ served user m = rw over at h'' in cc)
              | inr live ↦
                  let (owner, on) =
                    check_user-served lifetimes header now s
                      (find? (is_user s.admin_user_id) a.users) a user m (rw live at h'') in
                  let short =
                    find?-All (IsShort lifetimes) (is_live_token token) a.sessions kept.short
                      found in
                  let alive : now ≤ s.expires_at = ground arith in
                  record {
                    session = s;
                    found = found;
                    in_life = omega (arith, short.0, alive);
                    in_use = omega (arith, short.1, alive);
                    owner = owner;
                    enabled = on;
                  }
            ]
      ]
]

pub start-Kept :
    (lifetimes : Lifetimes) (verify_password : ℕ → ℕ → Bool) {a b : Accounts}
    → a.sessions ≡ []
    → AccessHistory lifetimes verify_password a b
    → Kept lifetimes b.sessions
start-Kept lifetimes verify_password {a} none_yet history =
    let new : Kept lifetimes a.sessions =
      rw none_yet (record { ids = λ id. omega arith; tokens = λ t. omega arith; short = tt }) in
    AccessHistory-Kept lifetimes verify_password new history

-- Along any history of requests, logins and logouts that starts without sessions, a request is served only with the
-- token of a session that is not revoked, for the account of this session, which is enabled; and neither the time since
-- the login nor the time since the session was last seen exceeds its limit.
pub AccessHistory-Admitted :
    (lifetimes : Lifetimes) (verify_password : ℕ → ℕ → Bool) {a b : Accounts}
    → a.sessions ≡ []
    → AccessHistory lifetimes verify_password a b
    → (header : StoreHeader) (token now : ℕ) (user : AdminUser) (m : Option Member)
    → (middleware lifetimes header token now b).0 ≡ served user m
    → Admitted lifetimes token now user b
AccessHistory-Admitted lifetimes verify_password {a} {b} none_yet history header token now user m
      h =
    middleware-Admitted lifetimes header token now b user m
      (start-Kept lifetimes verify_password none_yet history) h
