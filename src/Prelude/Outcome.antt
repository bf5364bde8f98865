-- ===== src/Prelude/Outcome.antt =====
-- Go's `(value, error)` pairs: a value, or an error of the package.
use mathlib.Core.Path.{◌≡◌, refl}
use mathlib.Core.Bool.{Bool, true, false}

pub data Result {ℓ κ} (E : Type ℓ) (A : Type κ) : Type (ℓ ⊔ κ) where
  ok : A → Result E A
  err : E → Result E A

module _ {ℓ} {E : Type ℓ} where
  -- `if refused { return e }`
  abbrev pub fail_if : Bool → E → Result E (Unit {0})
  fail_if true refusal = err refusal
  fail_if false refusal = ok tt

  -- `if err != nil { return err }` between two calls.
  infixl 5 ◌>>=◌
  infixl 5 ◌>>◌
  abbrev pub ◌>>=◌ {κ μ} :
      {A : Type κ} {B : Type μ} (call : Result E A) (next : A → Result E B) → Result E B
  err failure >>= next = err failure
  ok value >>= next = next value

  pub >>=-eq-ok {κ μ} :
      {A : Type κ} {B : Type μ} (call : Result E A) (next : A → Result E B) {b : B}
      → (call >>= next) ≡ ok b
      → (a : A) × (call ≡ ok a) × (next a ≡ ok b)
  >>=-eq-ok (ok value) next h = (value, refl, h)
  >>=-eq-ok (err failure) next h = cc

  pub ok_inj {κ} : {A : Type κ} {a b : A} → ◌≡◌ {A = Result E A} (ok a) (ok b) → a ≡ b
  ok_inj h = cc

  abbrev pub ◌>>◌ {κ} : {B : Type κ} → Result E (Unit {0}) → Result E B → Result E B
  call >> next = call >>= λ done. next

-- What a passed guard leaves.
pub fail_if-eq-ok {ℓ κ} :
    {E : Type ℓ} {B : Type κ} (refused : Bool) (refusal : E) (rest : Result E B) {b : B}
    → (fail_if refused refusal >> rest) ≡ ok b
    → (refused ≡ false) × (rest ≡ ok b)
fail_if-eq-ok true refusal rest h = cc
fail_if-eq-ok false refusal rest h = (refl, h)
