-- ===== src/Migrate/Order.antt =====
-- cmd/migrate/main.go: `migrate up` runs the scripts that are left, in the order of their versions.
use dishflow_glm.Prelude.{ℕ, zero, suc, ◌+◌, ◌≡◌, true, false, List, [], ◌∷◌, ◌++◌, length, All}
use dishflow_glm.Migrate.Run.{Migration, Site, Driver, Outcome, is_applied}
use dishflow_glm.Migrate.Scripts.{Upgraded, Ends}
use dishflow_glm.Migrate.Versions.{Other}

-- The first `k` migrations are applied, and no others.
abbrev pub Marked : ℕ → List Migration → List ℕ → Type 0
Marked k [] applied = Unit
Marked zero (m ∷ ms) applied = (is_applied m.version applied ≡ false) × Marked zero ms applied
Marked (suc k) (m ∷ ms) applied = (is_applied m.version applied ≡ true) × Marked k ms applied

-- Those after the first `k`.
abbrev pub left_after : ℕ → List Migration → List Migration
left_after zero ms = ms
left_after (suc k) [] = []
left_after (suc k) (m ∷ ms) = left_after k ms

module _ {ℓ} {S : Type ℓ} (driver : Driver S) where
  -- What a run leaves of the migrations from some place on, of which the first `k` are applied.
  pub record Climbed (k : ℕ) (ms : List Migration) (site : Site S) (after : Outcome × Site S)
      : Type ℓ where
    pub ran : List Migration
    pub rest : List Migration
    pub split : left_after k ms ≡ ran ++ rest
    pub schema : S
    pub upgraded : Upgraded driver ran site.schema schema
    pub ends : Ends driver rest schema after
    pub marked : Marked (k + length ran) ms after.1.applied

  abbrev IsFrame : List Migration → Site S → Outcome × Site S → Type 0
  IsFrame ms site after =
      (v : ℕ) → All (Other v) ms → is_applied v after.1.applied ≡ is_applied v site.applied
