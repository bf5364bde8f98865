-- ===== src/Migrate/Scripts.antt =====
-- cmd/migrate/main.go: `execInTx` runs each statement of a script, in a transaction.
use dishflow_glm.Prelude.{◌≡◌, refl, Bool, true, List, [], ◌∷◌, Bool-cases, inl, inr, ◌⊎◌, ap}
use dishflow_glm.Migrate.Split.{Text, split_statements}
use dishflow_glm.Migrate.Run.{
  Migration, Site, Driver, Outcome, done, apply_failed, record_failed, run_statements, exec_in_tx,
}

module _ {ℓ} {S : Type ℓ} (driver : Driver S) where
  -- Each statement is executed without an error, in the order in which they stand.
  abbrev pub Executed : List Text → S → S → Type ℓ
  Executed [] s s' = s ≡ s'
  Executed (t ∷ ts) s s' = (r : S) × (driver.exec t s ≡ (true, r)) × Executed ts r s'

  -- A transaction of the statements of a script.
  pub record Committed (script : Text) (s s' : S) : Type ℓ where
    pub begun : S
    pub last : S
    pub begins : driver.begin_tx s ≡ (true, begun)
    pub executed : Executed (split_statements script) begun last
    pub commits : driver.commit last ≡ (true, s')

  -- The up scripts of migrations, one after another.
  abbrev pub Upgraded : List Migration → S → S → Type ℓ
  Upgraded [] s s' = s ≡ s'
  Upgraded (m ∷ ms) s s' = (r : S) × Committed m.up s r × Upgraded ms r s'

  -- How the run ends, with the migrations that have not been applied.
  abbrev pub Ends : List Migration → S → Outcome × Site S → Type ℓ
  Ends [] s after = (after.0 ≡ done) × (after.1.schema ≡ s)
  Ends (m ∷ ms) s after =
      (after.0 ≡ apply_failed m.version)
      ⊎ ((after.0 ≡ record_failed m.version) × Committed m.up s after.1.schema)

  run_statements-Executed :
      (ts : List Text) (s s' : S)
      → run_statements driver ts s ≡ (true, s')
      → (last : S) × Executed ts s last × (driver.commit last ≡ (true, s'))
  unfolding run_statements
  run_statements-Executed [] s s' h = (s, refl, h)
  run_statements-Executed (t ∷ ts) s s' h = elim (Bool-cases (driver.exec t s).0) [
    | inl e ↦
        let r = (driver.exec t s).1 in
        let (last, ran, ends) = run_statements-Executed ts r s' (rw e at h) in
        (last, (r, rw e refl, ran), ends)
    | inr e ↦ absurd (let bad = ap (λ (p : Bool × S). p.0) (rw e at h) in cc)
  ]

  pub exec_in_tx-Committed :
      (script : Text) (s s' : S) → exec_in_tx driver script s ≡ (true, s') → Committed script s s'
  unfolding exec_in_tx
  exec_in_tx-Committed script s s' h = elim (Bool-cases (driver.begin_tx s).0) [
    | inl e ↦
        let (last, ran, ends) =
          run_statements-Executed (split_statements script) (driver.begin_tx s).1 s' (rw e at h) in
        record {
          begun = (driver.begin_tx s).1;
          last = last;
          begins = rw e refl;
          executed = ran;
          commits = ends;
        }
    | inr e ↦ absurd (let bad = ap (λ (p : Bool × S). p.0) (rw e at h) in cc)
  ]
