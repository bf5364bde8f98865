-- ===== src/Access/Logout.antt =====
-- internal/authn and internal/admin/session.go: a token after the logout.
use dishflow_glm.Prelude.{
  ℕ, ◌==◌, ◌≡◌, ◌≤◌, refl, arith, Bool, true, false, some, List, [], ◌∷◌, All, All-update_where,
  find?, find?_holds, find?-count, find?-only, find?-All, count, count-weaker, count-update_where,
  update_where, Bool-cases, Option-cases, inl, inr, ap,
}
use dishflow_glm.Menu.Rows.{is_set}
use dishflow_glm.Access.Sessions.{
  Session, Accounts, Lifetimes, has_token, is_live_token, get_session_by_token, is_live_session,
  renew, revoke, revoke_session, is_taken, unauthorized, StoreHeader, new_expiry, middleware,
  logout,
}
use dishflow_glm.Access.Expiry.{Kept}
use dishflow_glm.Access.History.{
  Change, unchanged, renewed, revoked, issued, AccessHistory, start, then_, AccessStep-Change,
}
use dishflow_glm.Access.Admission.{start-Kept}

-- A token that was issued, and whose session is revoked.
record Closed (token : ℕ) (ss : List Session) : Type 0 where
  known : 1 ≤ count (has_token token) ss
  out : All (λ s. has_token token s ≡ true → is_set s.revoked_at ≡ true) ss

Change-Closed :
    (lifetimes : Lifetimes) (token : ℕ) {a b : List Session}
    → Closed token a
    → Change lifetimes a b
    → Closed token b
Change-Closed lifetimes token closed unchanged = closed
Change-Closed lifetimes token {a} closed (renewed t now s found) = record {
  known =
      rw
        (count-update_where (has_token token) (is_live_session s.id)
          (renew now (new_expiry lifetimes now s)) a (λ x. refl))
        closed.known;
  out =
      All-update_where (is_live_session s.id) (renew now (new_expiry lifetimes now s)) a (λ x p. p)
        (λ x e p. p) closed.out;
}
Change-Closed lifetimes token {a} closed (revoked id now) = record {
  known =
      rw (count-update_where (has_token token) (is_live_session id) (revoke now) a (λ x. refl))
        closed.known;
  out =
      All-update_where (is_live_session id) (revoke now) a (λ x p. p) (λ x e p k. refl) closed.out;
}
Change-Closed lifetimes token {a} closed (issued new short free) = record {
  known = omega (arith, closed.known);
  out = (
    λ same. absurd (
        let weaker = count-weaker (has_token token) (is_taken new) a (λ x h. ground arith) in
        omega (arith, weaker, free, closed.known)),
    closed.out,
  );
}

not_live : (s x : Session) → x ≡ s → is_live_session s.id x ≡ false → is_set x.revoked_at ≡ true
not_live s x same e = let id_same : x.id ≡ s.id = ap (λ (y : Session). y.id) same in ground arith

revoke_rows :
    (token now : ℕ) (s : Session) (ss : List Session)
    → All (λ x. has_token token x ≡ true → x ≡ s) ss
    → All
        (λ x. has_token token x ≡ true → is_set x.revoked_at ≡ true)
        (update_where (is_live_session s.id) (revoke now) ss)
revoke_rows token now s [] only = tt
revoke_rows token now s (x ∷ xs) (k, ks) =
    let rest = revoke_rows token now s xs ks in
    elim (Bool-cases (is_live_session s.id x)) [
      | inl e ↦ rw e (λ this. refl, rest)
      | inr e ↦ rw e (λ this. not_live s x (k this) e, rest)
    ]

logout-Closed :
    (lifetimes : Lifetimes) (token now : ℕ) (s : Session) (a : Accounts)
    → (token == 0) ≡ false
    → Kept lifetimes a.sessions
    → get_session_by_token token a ≡ some s
    → Closed token (logout token now a).sessions
unfolding logout get_session_by_token revoke_session
logout-Closed lifetimes token now s a some_token kept found =
    let holds = find?_holds (is_live_token token) a.sessions found in
    let this : has_token token s ≡ true = ground arith in
    rw (some_token, found)
      (record {
        known =
            rw
              (count-update_where (has_token token) (is_live_session s.id) (revoke now) a.sessions
                (λ x. refl))
              (find?-count (is_live_token token) (has_token token) a.sessions found this);
        out = revoke_rows token now s a.sessions (
            find?-only (is_live_token token) (has_token token) a.sessions found this
              (kept.tokens token));
      })

AccessHistory-Closed :
    (lifetimes : Lifetimes) (verify_password : ℕ → ℕ → Bool) (token : ℕ) {a b : Accounts}
    → Closed token a.sessions
    → AccessHistory lifetimes verify_password a b
    → Closed token b.sessions
AccessHistory-Closed lifetimes verify_password token closed start = closed
AccessHistory-Closed lifetimes verify_password token closed (then_ before step) =
    Change-Closed lifetimes token
      (AccessHistory-Closed lifetimes verify_password token closed before)
      (AccessStep-Change lifetimes verify_password step)

Closed-unauthorized :
    (lifetimes : Lifetimes) (header : StoreHeader) (token now : ℕ) (a : Accounts)
    → Closed token a.sessions
    → (middleware lifetimes header token now a).0 ≡ unauthorized
unfolding middleware get_session_by_token
Closed-unauthorized lifetimes header token now a closed = elim (Bool-cases (token == 0)) [
  | inl e ↦ rw e refl
  | inr e ↦ elim (Option-cases (find? (is_live_token token) a.sessions)) [
    | inl nobody ↦ rw (e, nobody) refl
    | inr (s, found) ↦ absurd (
        let live = find?_holds (is_live_token token) a.sessions found in
        let this : has_token token s ≡ true = ground arith in
        let gone =
          find?-All (λ x. has_token token x ≡ true → is_set x.revoked_at ≡ true)
            (is_live_token token) a.sessions closed.out found this in
        ground arith)
  ]
]

-- Once a token's session has ended with a logout, no request with this token is served, whatever requests, logins and
-- logouts follow: not even a login that draws the same token again brings it back, as long as the rows are kept.
pub AccessHistory-logout :
    (lifetimes : Lifetimes) (verify_password : ℕ → ℕ → Bool) {none_yet a b : Accounts}
    → none_yet.sessions ≡ []
    → AccessHistory lifetimes verify_password none_yet a
    → (token now later : ℕ) (s : Session) (header : StoreHeader) → (token == 0) ≡ false
    → get_session_by_token token a ≡ some s
    → AccessHistory lifetimes verify_password (logout token now a) b
    → (middleware lifetimes header token later b).0 ≡ unauthorized
AccessHistory-logout lifetimes verify_password {none_yet} {a} {b} empty before token now later s
      header some_token found after =
    let kept = start-Kept lifetimes verify_password empty before in
    Closed-unauthorized lifetimes header token later b (
      AccessHistory-Closed lifetimes verify_password token
        (logout-Closed lifetimes token now s a some_token kept found) after)
