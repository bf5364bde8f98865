-- ===== src/Life/Rows.antt =====
-- The rows of `orders` under UPDATEs: how an order is found again, by its primary key.
use dishflow_glm.Prelude.{
  find?-update_where, find?_holds, ℕ, ◌≤◌, ◌<◌, ◌==◌, ◌≡◌, ◌≢◌, refl, sym, ◌∙◌, ap, subst, arith,
  Bool, true, some, List, [], ◌∷◌, All, update_where, find?, map, Bool-cases, inl, inr, ok,
}
use dishflow_glm.Store.{Db, Order}
use dishflow_glm.Orders.Release.{has_id, find_order}
use dishflow_glm.Orders.Cancel.{load_order, is_order}
use dishflow_glm.Orders.Lock.{load_order_find}
use dishflow_glm.Life.Moves.{Moves, stay, Moves-trans}

-- A later state of the same order: its fulfilment has made documented moves, its version has not gone back,
-- and what was agreed at its creation is as it was.
pub record Evolves (o : Order) (o' : Order) : Type 0 where
  pub moves : Moves o.state o'.state
  pub version : o.version ≤ o'.version
  pub id : o'.id ≡ o.id
  pub store : o'.store_id ≡ o.store_id
  pub customer : o'.customer_id ≡ o.customer_id
  pub pickup_no : o'.pickup_no ≡ o.pickup_no
  pub payable : o'.payable_cents ≡ o.payable_cents

-- What an UPDATE leaves alone.
abbrev Agreed : Order → Order → Type 0
Agreed o o' =
    (o'.id ≡ o.id)
    × (o'.store_id ≡ o.store_id)
    × (o'.customer_id ≡ o.customer_id)
    × (o'.pickup_no ≡ o.pickup_no)
    × (o'.payable_cents ≡ o.payable_cents)

pub evolve :
    (o o' : Order) → Moves o.state o'.state → o.version ≤ o'.version → Agreed o o' → Evolves o o'
evolve o o' m v a = record {
  moves = m;
  version = v;
  id = a.0;
  store = a.1;
  customer = a.2;
  pickup_no = a.3;
  payable = a.4;
}

pub Evolves-refl : (o : Order) → Evolves o o
Evolves-refl o = record {
  moves = stay;
  version = omega arith;
  id = refl;
  store = refl;
  customer = refl;
  pickup_no = refl;
  payable = refl;
}

pub Evolves-trans : {a b c : Order} → Evolves a b → Evolves b c → Evolves a c
Evolves-trans p q = record {
  moves = Moves-trans p.moves q.moves;
  version = omega (arith, p.version, q.version);
  id = q.id ∙ p.id;
  store = q.store ∙ p.store;
  customer = q.customer ∙ p.customer;
  pickup_no = q.pickup_no ∙ p.pickup_no;
  payable = q.payable ∙ p.payable;
}

-- Every order is there afterwards, and has evolved.
abbrev pub Tracks : List Order → List Order → Type 0
Tracks os os' =
    (i : ℕ) (o : Order)
    → find_order i os ≡ some o
    → (o' : Order) × (find_order i os' ≡ some o') × Evolves o o'

abbrev pub ids : List Order → List ℕ
ids os = map (λ o. o.id) os

-- A state follows another, with no row added.
pub record Keeps (db : Db) (db' : Db) : Type 0 where
  pub tracks : Tracks db.orders db'.orders
  pub same_ids : ids db'.orders ≡ ids db.orders
  pub same_next : db'.next_id ≡ db.next_id

pub Keeps-same : (db db' : Db) → db'.orders ≡ db.orders → db'.next_id ≡ db.next_id → Keeps db db'
Keeps-same db db' e n = record {
  tracks = λ i o h. (o, rw e h, Evolves-refl o);
  same_ids = ap ids e;
  same_next = n;
}

pub Keeps-trans : {a b c : Db} → Keeps a b → Keeps b c → Keeps a c
Keeps-trans p q = record {
  tracks = λ i o h.
      let (o₁, found, first) = p.tracks i o h in
      let (o₂, again, second) = q.tracks i o₁ found in (o₂, again, Evolves-trans first second);
  same_ids = q.same_ids ∙ p.same_ids;
  same_next = q.same_next ∙ p.same_next;
}

ids-update_where :
    (p : Order → Bool) (f : Order → Order) (os : List Order)
    → ((o : Order) → (f o).id ≡ o.id)
    → ids (update_where p f os) ≡ ids os
ids-update_where p f [] same = refl
ids-update_where p f (o ∷ os) same = elim (Bool-cases (p o)) [
  | inl e ↦ rw (e, same o, ids-update_where p f os same) refl
  | inr e ↦ rw (e, ids-update_where p f os same) refl
]

-- An UPDATE that only touches rows that may evolve so.
pub update_where-Keeps :
    (p : Order → Bool) (f : Order → Order) (db db' : Db)
    → db'.orders ≡ update_where p f db.orders
    → db'.next_id ≡ db.next_id
    → ((o : Order) → (f o).id ≡ o.id)
    → ((o : Order) → find_order o.id db.orders ≡ some o → p o ≡ true → Evolves o (f o))
    → Keeps db db'
unfolding find_order
update_where-Keeps p f db db' e n same may = record {
  tracks = λ i o h.
      let keeps : (y : Order) → has_id i (f y) ≡ has_id i y = λ y. ap (λ k. k == i) (same y) in
      let found = find?-update_where (has_id i) p f db.orders keeps h in
      let test = find?_holds (has_id i) db.orders h in
      let key : o.id ≡ i = ground arith in
      elim (Bool-cases (p o)) [
        | inl t ↦ (
          f o,
          rw (e, found, t) refl,
          may o (subst (λ k. find? (has_id k) db.orders ≡ some o) (sym key) h) t,
        )
        | inr t ↦ (o, rw (e, found, t) refl, Evolves-refl o)
      ];
  same_ids = ap ids e ∙ ids-update_where p f db.orders same;
  same_next = n;
}

-- The primary key of `orders`, and the counter of its numbers.
abbrev pub IsDistinct : List ℕ → Type 0
IsDistinct [] = Unit
IsDistinct (i ∷ is) = All (λ j. i ≢ j) is × IsDistinct is

pub record Keyed (db : Db) : Type 0 where
  pub distinct : IsDistinct (ids db.orders)
  pub fresh : All (λ i. i < db.next_id) (ids db.orders)

pub Keyed-Keeps : {db db' : Db} → Keeps db db' → Keyed db → Keyed db'
Keyed-Keeps k key = record {
  distinct = rw k.same_ids key.distinct;
  fresh = rw (k.same_ids, k.same_next) key.fresh;
}

pub All-find? :
    (P : ℕ → Type 0) (p : Order → Bool) (os : List Order) {o : Order}
    → find? p os ≡ some o
    → All P (ids os)
    → P o.id
All-find? P p [] h all = absurd (cc)
All-find? P p (x ∷ xs) {o} h (n, ns) = elim (Bool-cases (p x)) [
  | inl e ↦
      let found : some x ≡ some o = rw e at h in let this : x ≡ o = cc in subst (λ z. P z.id) this n
  | inr e ↦ All-find? P p xs (rw e at h) ns
]

-- The row that a store's query finds is the row of the key.
find_is_order :
    (store k : ℕ) (os : List Order) {o : Order}
    → IsDistinct (ids os)
    → find? (is_order store k) os ≡ some o
    → find? (has_id k) os ≡ some o
find_is_order store k [] d h = absurd (cc)
find_is_order store k (x ∷ xs) {o} (n, ns) h = elim (Bool-cases (is_order store k x)) [
  | inl e ↦
      let found : some x ≡ some o = rw e at h in
      let key : has_id k x ≡ true = ground arith in rw key found
  | inr e ↦
      let rest : find? (is_order store k) xs ≡ some o = rw e at h in
      elim (Bool-cases (has_id k x)) [
        | inl f ↦
            let test = find?_holds (is_order store k) xs rest in
            let same : x.id ≡ o.id = ground arith in
            absurd (All-find? (λ j. x.id ≢ j) (is_order store k) xs rest n same)
        | inr f ↦ rw f (find_is_order store k xs ns rest)
      ]
]

-- Under the primary key, the row that an UPDATE by number meets is the one that was loaded.
pub loaded_row :
    (store k : ℕ) (db : Db) {o y : Order}
    → Keyed db
    → load_order store k db ≡ ok o
    → find_order y.id db.orders ≡ some y
    → y.id ≡ k
    → o ≡ y
unfolding find_order
loaded_row store k db {o} {y} key h f e =
    let one = find_is_order store k db.orders key.distinct (load_order_find store k db h) in
    let two = subst (λ i. find? (has_id i) db.orders ≡ some y) e f in
    let both : some o ≡ some y = sym one ∙ two in cc
