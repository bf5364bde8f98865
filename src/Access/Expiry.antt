-- ===== src/Access/Expiry.antt =====
-- internal/authn: how long a session lives, along any history of requests, logins and logouts.
use dishflow_glm.Prelude.{
  ℕ, ◌==◌, ◌+◌, ◌≡◌, ◌≤◌, refl, arith, Bool, true, some, List, ◌∷◌, All, All-both, All-update_where,
  find?, find?-only, count, count-weaker, count-update_where, update_where, Bool-cases, inl, inr,
  ==_refl,
}
use dishflow_glm.Access.Sessions.{
  Session, Lifetimes, has_token, is_live_token, is_live_session, renew, revoke, is_taken,
  new_expiry,
}

-- Neither the whole life of a session nor the time since it was last seen exceeds its limit.
abbrev pub IsShort : Lifetimes → Session → Type 0
IsShort lifetimes s =
    (s.expires_at ≤ s.issued_at + lifetimes.abs_ttl)
    × (s.expires_at ≤ s.last_seen_at + lifetimes.idle_ttl)

abbrev pub has_id : ℕ → Session → Bool
has_id id s = s.id == id

-- The keys of the table, and the lives of its rows.
pub record Kept (lifetimes : Lifetimes) (ss : List Session) : Type 0 where
  pub ids : (id : ℕ) → count (has_id id) ss ≤ 1
  pub tokens : (token : ℕ) → count (has_token token) ss ≤ 1
  pub short : All (IsShort lifetimes) ss

module _ (lifetimes : Lifetimes) where
  renewed-IsShort :
      (now : ℕ) (s : Session) → IsShort lifetimes (renew now (new_expiry lifetimes now s) s)
  renewed-IsShort now s = (ground arith, ground arith)

  pub renew_session-Kept :
      (token now : ℕ) (s : Session) (ss : List Session)
      → find? (is_live_token token) ss ≡ some s
      → Kept lifetimes ss
      → Kept lifetimes
          (update_where (is_live_session s.id) (renew now (new_expiry lifetimes now s)) ss)
  renew_session-Kept token now s ss found kept = record {
    ids = λ id.
        rw
          (count-update_where (has_id id) (is_live_session s.id)
            (renew now (new_expiry lifetimes now s)) ss (λ x. refl))
          (kept.ids id);
    tokens = λ t.
        rw
          (count-update_where (has_token t) (is_live_session s.id)
            (renew now (new_expiry lifetimes now s)) ss (λ x. refl))
          (kept.tokens t);
    short =
        All-update_where {P = λ x. IsShort lifetimes x × (has_id s.id x ≡ true → x ≡ s)}
          {Q = IsShort lifetimes} (is_live_session s.id) (renew now (new_expiry lifetimes now s)) ss
          (λ x p. p.0)
          (λ x e p. let same : x ≡ s = p.1 (ground arith) in rw same (renewed-IsShort now s))
          (All-both (IsShort lifetimes) (λ x. has_id s.id x ≡ true → x ≡ s) ss kept.short
            (find?-only (is_live_token token) (has_id s.id) ss found (==_refl s.id)
              (kept.ids s.id)));
  }

  pub revoke_session-Kept :
      (id now : ℕ) (ss : List Session)
      → Kept lifetimes ss
      → Kept lifetimes (update_where (is_live_session id) (revoke now) ss)
  revoke_session-Kept id now ss kept = record {
    ids = λ k.
        rw (count-update_where (has_id k) (is_live_session id) (revoke now) ss (λ x. refl))
          (kept.ids k);
    tokens = λ t.
        rw (count-update_where (has_token t) (is_live_session id) (revoke now) ss (λ x. refl))
          (kept.tokens t);
    short =
        All-update_where (is_live_session id) (revoke now) ss (λ x p. p) (λ x e p. p) kept.short;
  }

  pub new-Kept :
      (new : Session) (ss : List Session)
      → IsShort lifetimes new
      → count (is_taken new) ss ≡ 0
      → Kept lifetimes ss
      → Kept lifetimes (new ∷ ss)
  new-Kept new ss short free kept = record {
    ids = λ id. elim (Bool-cases (new.id == id)) [
      | inl e ↦
          let weaker = count-weaker (has_id id) (is_taken new) ss (λ x h. ground arith) in
          rw e (omega (arith, weaker, free))
      | inr e ↦ rw e (omega (arith, kept.ids id))
    ];
    tokens = λ t. elim (Bool-cases (new.token_hash == t)) [
      | inl e ↦
          let weaker = count-weaker (has_token t) (is_taken new) ss (λ x h. ground arith) in
          rw e (omega (arith, weaker, free))
      | inr e ↦ rw e (omega (arith, kept.tokens t))
    ];
    short = (short, kept.short);
  }
