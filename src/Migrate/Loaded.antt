-- ===== src/Migrate/Loaded.antt =====
-- cmd/migrate/main.go: the up scripts of the migrations that `loadMigrations` returns.
use dishflow_glm.Prelude.{
  ℕ, ltb, ◌==◌, ◌≡◌, refl, arith, if◌then◌else◌, Bool, true, false, ◌&&◌, List, [], ◌∷◌, foldl, All,
  Bool-cases, inl, inr, sym,
}
use dishflow_glm.Migrate.Split.{Text}
use dishflow_glm.Migrate.Run.{
  Migration, Ending, up_sql, down_sql, other_sql, File, set_body, take_file, add_file,
  insert_migration, sort_migrations, load_migrations,
}
use dishflow_glm.Migrate.Versions.{Other, Distinct, add_file-Distinct, sort_migrations-All}

abbrev is_up : Ending → Bool
is_up up_sql = true
is_up down_sql = false
is_up other_sql = false

abbrev is_up_of : ℕ → File → Bool
is_up_of v f = (f.version == v) && is_up f.ending

-- The body of the last up file of a version.
abbrev pub up_script : ℕ → List File → Text → Text
up_script v [] old = old
up_script v (f ∷ files) old = up_script v files (if is_up_of v f then f.body else old)

-- Each migration has the script of its version, and there is no script without a migration.
pub record Scripted (script : ℕ → Text) (ms : List Migration) : Type 0 where
  pub scripts : All (λ m. m.up ≡ script m.version) ms
  pub complete : (v : ℕ) → All (Other v) ms → script v ≡ []

abbrev with_file : (ℕ → Text) → File → ℕ → Text
with_file g f v = if is_up_of v f then f.body else g v

set_body-up :
    (e : Ending) (body : Text) (m : Migration)
    → (set_body e body m).up ≡ (if is_up e then body else m.up)
set_body-up up_sql body m = refl
set_body-up down_sql body m = refl
set_body-up other_sql body m = refl

set_body-version :
    (e : Ending) (body : Text) (m : Migration) → (set_body e body m).version ≡ m.version
set_body-version up_sql body m = refl
set_body-version down_sql body m = refl
set_body-version other_sql body m = refl

take_file-up :
    (g : ℕ → Text) (f : File) (m : Migration)
    → (f.version == m.version) ≡ true
    → m.up ≡ g m.version
    → (take_file f m).up ≡ with_file g f (take_file f m).version
take_file-up g f m same h =
    let named : Migration = record m { name = f.name } in
    rw (set_body-up f.ending f.body named, set_body-version f.ending f.body named, same, h) refl

untouched :
    (g : ℕ → Text) (f : File) (ms : List Migration)
    → All (Other f.version) ms
    → All (λ m. m.up ≡ g m.version) ms
    → All (λ m. m.up ≡ with_file g f m.version) ms
untouched g f [] o h = tt
untouched g f (m ∷ ms) (n, o) (h, hs) =
    let off : (f.version == m.version) ≡ false = ground arith in (rw off h, untouched g f ms o hs)

add_file-scripts :
    (g : ℕ → Text) (f : File) (ms : List Migration)
    → Distinct ms
    → (All (Other f.version) ms → g f.version ≡ [])
    → All (λ m. m.up ≡ g m.version) ms
    → All (λ m. m.up ≡ with_file g f m.version) (add_file f ms)
unfolding add_file
add_file-scripts g f [] d new h =
    let first : Migration = record { version = f.version; name = 0; up = []; down = [] } in
    (take_file-up g f first (ground arith) (sym (new tt)), tt)
add_file-scripts g f (m ∷ ms) (o, d) new (h, hs) = elim (Bool-cases (m.version == f.version)) [
  | inl e ↦
      let same : m.version ≡ f.version = ground arith in
      let others : All (Other f.version) ms = rw (← same) o in
      rw e (take_file-up g f m (ground arith) h, untouched g f ms others hs)
  | inr e ↦
      let off : (f.version == m.version) ≡ false = ground arith in
      rw e (rw off h, add_file-scripts g f ms d (λ os. new (e, os)) hs)
]

add_file-absent :
    (v : ℕ) (f : File) (ms : List Migration)
    → All (Other v) (add_file f ms)
    → ((f.version == v) ≡ false) × All (Other v) ms
unfolding add_file
add_file-absent v f [] (n, h) = (rw (set_body-version f.ending f.body _) at n, tt)
add_file-absent v f (m ∷ ms) h = elim (Bool-cases (m.version == f.version)) [
  | inl e ↦
      let (n, o) = rw e at h in
      let other : (m.version == v) ≡ false = rw (set_body-version f.ending f.body _) at n in
      (ground arith, (other, o))
  | inr e ↦ let (n, o) = rw e at h in let (off, os) = add_file-absent v f ms o in (off, (n, os))
]

add_file-Scripted :
    (g : ℕ → Text) (f : File) (ms : List Migration)
    → Distinct ms
    → Scripted g ms
    → Scripted (with_file g f) (add_file f ms)
add_file-Scripted g f ms d s = record {
  scripts = add_file-scripts g f ms d (s.complete f.version) s.scripts;
  complete = λ v o. let (off, os) = add_file-absent v f ms o in rw (off, s.complete v os) refl;
}

add_files-Scripted :
    (files : List File) (g : ℕ → Text) (ms : List Migration)
    → Distinct ms
    → Scripted g ms
    → Scripted (λ v. up_script v files (g v)) (foldl (λ ms f. add_file f ms) ms files)
add_files-Scripted [] g ms d s = s
add_files-Scripted (f ∷ files) g ms d s =
    add_files-Scripted files (with_file g f) (add_file f ms) (add_file-Distinct f ms d)
      (add_file-Scripted g f ms d s)

insert_migration-absent :
    (v : ℕ) (m : Migration) (ms : List Migration)
    → All (Other v) (insert_migration m ms)
    → All (Other v) (m ∷ ms)
unfolding insert_migration
insert_migration-absent v m [] h = h
insert_migration-absent v m (x ∷ xs) h = elim (Bool-cases (ltb m.version x.version)) [
  | inl e ↦ rw e at h
  | inr e ↦ let (n, o) = rw e at h in let (k, os) = insert_migration-absent v m xs o in (k, (n, os))
]

sort_migrations-absent :
    (v : ℕ) (ms : List Migration) → All (Other v) (sort_migrations ms) → All (Other v) ms
unfolding sort_migrations
sort_migrations-absent v [] h = tt
sort_migrations-absent v (m ∷ ms) h =
    let (n, o) = insert_migration-absent v m (sort_migrations ms) h in
    (n, sort_migrations-absent v ms o)

pub load_migrations-Scripted :
    (files : List File) → Scripted (λ v. up_script v files []) (load_migrations files)
unfolding load_migrations
load_migrations-Scripted files =
    let all = foldl (λ ms f. add_file f ms) [] files in
    let s =
      add_files-Scripted files (λ v. []) [] tt (record { scripts = tt; complete = λ v o. refl }) in
    record {
      scripts = sort_migrations-All (λ m. m.up ≡ up_script m.version files []) all s.scripts;
      complete = λ v o. s.complete v (sort_migrations-absent v all o);
    }
