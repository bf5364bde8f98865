-- ===== src/Payments/Refunded.antt =====
-- internal/refunds/store.go: an order is refunded once.
use dishflow_glm.Prelude.{
  ℕ, ap, pos, ◌+◌, ◌≤◌, ◌<◌, ltb, leb_ℤ, ◌==◌, ◌≡◌, refl, arith, subst, if◌then◌else◌, Bool, true,
  false, some, List, [], ◌∷◌, ok, ok_inj, fail_if-eq-ok, All, All-map, find?, count, update_where,
  Bool-cases, Option-cases, inl, inr, All-update_where, count-update_where,
}
use dishflow_glm.Payments.Store.{
  Refund, Till, amount_not_positive, existing_refund, duplicate_key, wechat_refund, insert_webhook,
}
use dishflow_glm.Store.{Db}
use dishflow_glm.Payments.Frames.{insert_webhook-refunds, insert_webhook-db}
use dishflow_glm.Payments.Refunds.{
  CreateInput, is_active, is_refunded, has_refund_no, create_refund, is_refund_at, succeed_refund,
  is_success_status, mark_refund_success,
}

abbrev pub has_refund_id : ℕ → Refund → Bool
has_refund_id id r = r.id == id

-- An order has one refund under way at most, and has been refunded once at most.
pub record Refunded (till : Till) : Type 0 where
  pub active : (order : ℕ) → count (is_active order) till.refunds ≤ 1
  pub refunded : (order : ℕ) → count (is_refunded order) till.refunds ≤ 1
  pub keyed : (id : ℕ) → count (has_refund_id id) till.refunds ≤ 1
  pub fresh : All (λ r. r.id < till.db.next_id) till.refunds

count-fresh :
    (id : ℕ) (rs : List Refund) → All (λ r. r.id < id) rs → count (has_refund_id id) rs ≡ 0
count-fresh id [] a = refl
count-fresh id (r ∷ rs) (h, a) = let rest = count-fresh id rs a in ground arith

pub create_refund-Refunded :
    (refund_no : ℕ) (in_ : CreateInput) (till : Till) {r : ℕ × Till}
    → Refunded till
    → create_refund refund_no in_ till ≡ ok r
    → Refunded r.1
unfolding create_refund
create_refund-Refunded refund_no in_ till {r} v h =
    let (_, h₁) = fail_if-eq-ok (leb_ℤ in_.amount_cents (pos 0)) amount_not_positive _ h in
    let (idle, h₂) =
      fail_if-eq-ok (ltb 0 (count (is_active in_.order_id) till.refunds)) existing_refund _ h₁ in
    let (_, h₃) =
      fail_if-eq-ok (ltb 0 (count (has_refund_no refund_no) till.refunds)) duplicate_key _ h₂ in
    subst (λ x. Refunded x.1) (ok_inj h₃)
      (record {
        active = λ o. let a = v.active o in ground arith;
        refunded = λ o. let a = v.refunded o in ground arith;
        keyed = λ i.
            let none_yet = count-fresh till.db.next_id till.refunds v.fresh in
            let a = v.keyed i in ground arith;
        fresh = (omega arith, All-map till.refunds (λ r h. omega arith) v.fresh);
      })

count-le-update_where {ℓ} :
    {A : Type ℓ} (p q : A → Bool) (f : A → A) (xs : List A)
    → ((x : A) → p (f x) ≡ true → p x ≡ true)
    → count p (update_where q f xs) ≤ count p xs
count-le-update_where p q f [] keep = omega arith
count-le-update_where p q f (x ∷ xs) keep =
    let rest = count-le-update_where p q f xs keep in
    let one = keep x in
    elim (Bool-cases (q x)) [
      | inl e ↦ rw e (elim (Bool-cases (p (f x))) [
        | inl g ↦ rw (g, one g) (omega arith)
        | inr g ↦ rw g (omega arith)
      ])
      | inr e ↦ rw e (omega arith)
    ]

-- Only one row has the number, so that one order gains a successful refund.
untouched :
    (store id order : ℕ) (rs : List Refund)
    → count (has_refund_id id) rs ≡ 0
    → count (is_refunded order) (update_where (is_refund_at store id) succeed_refund rs)
      ≡ count (is_refunded order) rs
untouched store id order [] h = refl
untouched store id order (r ∷ rs) h =
    let rest = untouched store id order rs (omega arith) in
    let other : is_refund_at store id r ≡ false = ground arith in rw (other, rest) refl

count-succeed :
    (store id order : ℕ) (rs : List Refund) {r : Refund}
    → count (has_refund_id id) rs ≤ 1
    → find? (is_refund_at store id) rs ≡ some r
    → count (is_refunded order) (update_where (is_refund_at store id) succeed_refund rs)
      ≤ count (is_refunded order) rs + (if r.order_id == order then 1 else 0)
count-succeed store id order [] k h = absurd (cc)
count-succeed store id order (y ∷ rs) {r} k h = elim (Bool-cases (is_refund_at store id y)) [
  | inl e ↦
      let this : y ≡ r = (let s : some y ≡ some r = rw e at h in cc) in
      let rest = untouched store id order rs (ground arith) in rw (e, rest, ← this) (ground arith)
  | inr e ↦
      let later = count-succeed store id order rs (omega arith) (rw e at h) in rw e (omega arith)
]

pub Refunded-later :
    (a b : Till) → b.refunds ≡ a.refunds → a.db.next_id ≤ b.db.next_id → Refunded a → Refunded b
Refunded-later a b e l v = record {
  active = λ o. rw e (v.active o);
  refunded = λ o. rw e (v.refunded o);
  keyed = λ i. rw e (v.keyed i);
  fresh = rw e (All-map a.refunds (λ r h. omega (arith, l)) v.fresh);
}

succeed-Refunded :
    (store refund : ℕ) (till : Till) {r : Refund}
    → Refunded till
    → find? (is_refund_at store refund) till.refunds ≡ some r
    → count (is_refunded r.order_id) till.refunds ≡ 0
    → Refunded (record till {
      refunds = update_where (is_refund_at store refund) succeed_refund till.refunds;
    })
succeed-Refunded store refund till {r} v f z = record {
  active = λ o.
      let less =
        count-le-update_where (is_active o) (is_refund_at store refund) succeed_refund till.refunds
          (λ x h. ground arith) in
      let a = v.active o in omega arith;
  refunded = λ o.
      let more = count-succeed store refund o till.refunds (v.keyed refund) f in
      let a = v.refunded o in
      elim (Bool-cases (r.order_id == o)) [
        | inl e ↦
            let same : r.order_id ≡ o = ground arith in
            let zero : count (is_refunded o) till.refunds ≡ 0 = rw (← same) z in ground arith
        | inr e ↦ ground arith
      ];
  keyed = λ i.
      rw
        (count-update_where (has_refund_id i) (is_refund_at store refund) succeed_refund
          till.refunds (λ x. refl))
        (v.keyed i);
  fresh =
      All-update_where (is_refund_at store refund) succeed_refund till.refunds (λ x h. h)
        (λ x q h. h) v.fresh;
}

pub mark_refund_success-Refunded :
    (store refund event : ℕ) (till : Till) {till' : Till}
    → Refunded till
    → mark_refund_success store refund event till ≡ ok till'
    → Refunded till'
unfolding mark_refund_success
mark_refund_success-Refunded store refund event till {till'} v h =
    elim (Option-cases (find? (is_refund_at store refund) till.refunds)) [
      | inl e ↦ absurd (ground arith)
      | inr (r, e) ↦
          let h₁ = rw e at h in
          elim (Bool-cases (is_success_status r.status)) [
            | inl s ↦ subst Refunded (ok_inj (rw s at h₁)) v
            | inr s ↦
                let (first, h₂) =
                  fail_if-eq-ok (ltb 0 (count (is_refunded r.order_id) till.refunds)) duplicate_key
                    _ (rw s at h₁) in
                let marked = record till {
                  refunds = update_where (is_refund_at store refund) succeed_refund till.refunds;
                } in
                subst Refunded (ok_inj h₂) (
                  Refunded-later marked (insert_webhook wechat_refund store event refund marked)
                    (insert_webhook-refunds wechat_refund store event refund marked)
                    (omega (
                      arith,
                      ap (λ (d : Db). d.next_id)
                          (insert_webhook-db wechat_refund store event refund marked),
                    ))
                    (succeed-Refunded store refund till v e (ground arith)))
          ]
    ]
