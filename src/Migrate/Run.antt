-- ===== src/Migrate/Run.antt =====
-- cmd/migrate/main.go: `loadMigrations` from the files whose names have a version, `execInTx`, `migrateUp`,
-- `migrateDown` and `redo`. What the statements do to the database is a parameter.
use mathlib.Core.List.{reverse}
use dishflow_glm.Prelude.{
  ℕ, zero, suc, ltb, ◌==◌, if◌then◌else◌, Bool, true, false, not, ◌&&◌, List, [], ◌∷◌, foldl,
}
use dishflow_glm.Migrate.Split.{Text, split_statements}

pub record Migration : Type 0 where
  pub version : ℕ
  pub name : ℕ
  pub up : Text
  pub down : Text

-- The ending of a file's name.
pub data Ending : Type 0 where
  up_sql down_sql other_sql : Ending

-- A file of the directory whose name `splitVersion` takes apart.
pub record File : Type 0 where
  pub version : ℕ
  pub name : ℕ
  pub ending : Ending
  pub body : Text

abbrev pub set_body : Ending → Text → Migration → Migration
set_body up_sql body m = record m { up = body }
set_body down_sql body m = record m { down = body }
set_body other_sql body m = m

abbrev pub take_file : File → Migration → Migration
take_file f m = set_body f.ending f.body (record m { name = f.name })

-- `byVer`: one migration for each version.
unfoldable pub add_file : File → List Migration → List Migration
add_file f [] = take_file f (record { version = f.version; name = 0; up = []; down = [] }) ∷ []
add_file f (m ∷ ms) = if m.version == f.version then take_file f m ∷ ms else m ∷ add_file f ms

unfoldable pub insert_migration : Migration → List Migration → List Migration
insert_migration m [] = m ∷ []
insert_migration m (x ∷ xs) =
    if ltb m.version x.version then m ∷ x ∷ xs else x ∷ insert_migration m xs

-- `sort.Slice` by the version.
unfoldable pub sort_migrations : List Migration → List Migration
unfolding insert_migration
sort_migrations [] = []
sort_migrations (m ∷ ms) = insert_migration m (sort_migrations ms)

unfoldable pub load_migrations : List File → List Migration
unfolding add_file sort_migrations
load_migrations files = sort_migrations (foldl (λ ms f. add_file f ms) [] files)

-- The database: `schema_migrations`, and the rest.
pub record Site {ℓ} (S : Type ℓ) : Type ℓ where
  pub applied : List ℕ
  pub schema : S

-- What the database does, and whether it reports success: MySQL commits the statements of a schema at once, so that
-- what a statement or a `Rollback` leaves is not determined by the code. `inserts` and `deletes` say whether the
-- statements on `schema_migrations` go through.
pub record Driver {ℓ} (S : Type ℓ) : Type ℓ where
  pub begin_tx : S → Bool × S
  pub exec : Text → S → Bool × S
  pub commit : S → Bool × S
  pub rollback : S → S
  pub inserts : ℕ → S → Bool
  pub deletes : ℕ → S → Bool

pub data Outcome : Type 0 where
  done : Outcome
  apply_failed record_failed : ℕ → Outcome
  no_down_migration rollback_failed unrecord_failed : ℕ → Outcome

unfoldable pub is_applied : ℕ → List ℕ → Bool
is_applied v [] = false
is_applied v (w ∷ ws) = if w == v then true else is_applied v ws

unfoldable pub remove_version : ℕ → List ℕ → List ℕ
remove_version v [] = []
remove_version v (w ∷ ws) = if w == v then remove_version v ws else w ∷ remove_version v ws

abbrev pub is_blank : Text → Bool
is_blank [] = true
is_blank s = false

module _ {ℓ} {S : Type ℓ} (driver : Driver S) where
  -- `if err != nil { ...; return err }`, with what is done before the return.
  abbrev pub if_succeeds : (S → S) → Bool × S → (S → Bool × S) → Bool × S
  if_succeeds undo (false, s) rest = (false, undo s)
  if_succeeds undo (true, s) rest = rest s

  -- The loop over the statements, and the commit after it.
  unfoldable pub run_statements : List Text → S → Bool × S
  run_statements [] s = driver.commit s
  run_statements (t ∷ ts) s =
      if_succeeds driver.rollback (driver.exec t s) (λ s'. run_statements ts s')

  unfoldable pub exec_in_tx : Text → S → Bool × S
  unfolding split_statements run_statements
  exec_in_tx script s =
      let stmts = split_statements script in
      if_succeeds (λ s'. s') (driver.begin_tx s) (λ s'. run_statements stmts s')

  -- The loop goes on after a round that is done.
  abbrev pub and_then : Outcome × Site S → (Site S → Outcome × Site S) → Outcome × Site S
  and_then (done, site) rest = rest site
  and_then (failed, site) rest = (failed, site)

  -- The script has run, and the INSERT is left, which the primary key refuses for a version that is there.
  abbrev pub record_version : ℕ → List ℕ → Bool × S → Outcome × Site S
  record_version v applied (false, s) = (apply_failed v, record { applied = applied; schema = s })
  record_version v applied (true, s) =
      if not (is_applied v applied) && driver.inserts v s
      then (done, record { applied = v ∷ applied; schema = s })
      else (record_failed v, record { applied = applied; schema = s })

  -- A round of the loop; `seen` are the versions that were read before it.
  unfoldable pub apply_one : List ℕ → Migration → Site S → Outcome × Site S
  unfolding exec_in_tx is_applied
  apply_one seen m site =
      if is_applied m.version seen
      then (done, site)
      else record_version m.version site.applied (exec_in_tx m.up site.schema)

  unfoldable pub up_from : List ℕ → List Migration → Site S → Outcome × Site S
  unfolding apply_one
  up_from seen [] site = (done, site)
  up_from seen (m ∷ ms) site = and_then (apply_one seen m site) (λ site'. up_from seen ms site')

  unfoldable pub migrate_up : List Migration → Site S → Outcome × Site S
  unfolding up_from
  migrate_up migs site = up_from site.applied migs site

  abbrev pub unrecord_version : ℕ → List ℕ → Bool × S → Outcome × Site S
  unrecord_version v applied (false, s) =
      (rollback_failed v, record { applied = applied; schema = s })
  unrecord_version v applied (true, s) =
      if driver.deletes v s
      then (done, record { applied = remove_version v applied; schema = s })
      else (unrecord_failed v, record { applied = applied; schema = s })

  -- A migration that is applied is taken back.
  unfoldable pub take_back : Migration → Site S → Outcome × Site S
  unfolding exec_in_tx
  take_back m site =
      if is_blank m.down
      then (no_down_migration m.version, site)
      else unrecord_version m.version site.applied (exec_in_tx m.down site.schema)

  -- The loop of `migrateDown`, over the migrations in reverse, with the number of those still to be taken back.
  unfoldable pub down_from : List ℕ → List Migration → ℕ → Site S → Outcome × Site S
  unfolding take_back is_applied
  down_from seen [] n site = (done, site)
  down_from seen (m ∷ ms) zero site = (done, site)
  down_from seen (m ∷ ms) (suc n) site = elim (is_applied m.version seen) [
    | false ↦ down_from seen ms (suc n) site
    | true ↦ and_then (take_back m site) (λ site'. down_from seen ms n site')
  ]

  unfoldable pub migrate_down : List Migration → ℕ → Site S → Outcome × Site S
  unfolding down_from
  migrate_down migs n site = down_from site.applied (reverse migs) n site

  unfoldable pub redo : List Migration → Site S → Outcome × Site S
  unfolding migrate_down migrate_up
  redo migs site = and_then (migrate_down migs 1 site) (λ site'. migrate_up migs site')
