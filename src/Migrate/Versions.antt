-- ===== src/Migrate/Versions.antt =====
-- cmd/migrate/main.go: the versions of the migrations that are loaded.
use dishflow_glm.Prelude.{
  ℕ, ◌<◌, ltb, ◌==◌, ◌≡◌, arith, false, List, [], ◌∷◌, foldl, All, All-map, Bool-cases, inl, inr,
}
use dishflow_glm.Migrate.Run.{
  Migration, File, take_file, add_file, insert_migration, sort_migrations, load_migrations,
}

abbrev pub Other : ℕ → Migration → Type 0
Other v m = (m.version == v) ≡ false

-- No two migrations have one version.
abbrev pub Distinct : List Migration → Type 0
Distinct [] = Unit
Distinct (m ∷ ms) = All (Other m.version) ms × Distinct ms

-- Each version is less than those that follow.
abbrev pub Rising : List Migration → Type 0
Rising [] = Unit
Rising (m ∷ ms) = All (λ (n : Migration). m.version < n.version) ms × Rising ms

pub Rising-Distinct : (ms : List Migration) → Rising ms → Distinct ms
Rising-Distinct [] r = tt
Rising-Distinct (m ∷ ms) (l, r) = (All-map ms (λ n h. ground arith) l, Rising-Distinct ms r)

take_file-version : (f : File) (m : Migration) → (take_file f m).version ≡ m.version
take_file-version f m = ground arith

add_file-Other :
    (v : ℕ) (f : File) (ms : List Migration)
    → (f.version == v) ≡ false
    → All (Other v) ms
    → All (Other v) (add_file f ms)
unfolding add_file
add_file-Other v f [] n o = (rw (take_file-version f _) n, tt)
add_file-Other v f (m ∷ ms) n (h, o) = elim (Bool-cases (m.version == f.version)) [
  | inl e ↦ rw e (rw (take_file-version f m) h, o)
  | inr e ↦ rw e (h, add_file-Other v f ms n o)
]

pub add_file-Distinct : (f : File) (ms : List Migration) → Distinct ms → Distinct (add_file f ms)
unfolding add_file
add_file-Distinct f [] d = (tt, tt)
add_file-Distinct f (m ∷ ms) (o, d) = elim (Bool-cases (m.version == f.version)) [
  | inl e ↦ rw e (rw (take_file-version f m) o, d)
  | inr e ↦ rw e (add_file-Other m.version f ms (ground arith) o, add_file-Distinct f ms d)
]

insert_migration-All {ℓ} :
    (P : Migration → Type ℓ) (m : Migration) (ms : List Migration)
    → P m
    → All P ms
    → All P (insert_migration m ms)
unfolding insert_migration
insert_migration-All P m [] p ps = (p, tt)
insert_migration-All P m (x ∷ xs) p (q, ps) = elim (Bool-cases (ltb m.version x.version)) [
  | inl e ↦ rw e (p, (q, ps))
  | inr e ↦ rw e (q, insert_migration-All P m xs p ps)
]

insert_migration-Rising :
    (m : Migration) (ms : List Migration)
    → All (Other m.version) ms
    → Rising ms
    → Rising (insert_migration m ms)
unfolding insert_migration
insert_migration-Rising m [] o r = (tt, tt)
insert_migration-Rising m (x ∷ xs) (n, o) (l, r) = elim (Bool-cases (ltb m.version x.version)) [
  | inl e ↦
      let less : m.version < x.version = ground arith in
      let others = All-map xs (λ (y : Migration) (h : x.version < y.version). omega arith) l in
      rw e ((less, others), (l, r))
  | inr e ↦ rw e (
    insert_migration-All (λ (y : Migration). x.version < y.version) m xs (ground arith) l,
    insert_migration-Rising m xs o r,
  )
]

pub sort_migrations-All {ℓ} :
    (P : Migration → Type ℓ) (ms : List Migration) → All P ms → All P (sort_migrations ms)
unfolding sort_migrations
sort_migrations-All P [] ps = tt
sort_migrations-All P (m ∷ ms) (p, ps) =
    insert_migration-All P m (sort_migrations ms) p (sort_migrations-All P ms ps)

sort_migrations-Rising : (ms : List Migration) → Distinct ms → Rising (sort_migrations ms)
unfolding sort_migrations
sort_migrations-Rising [] d = tt
sort_migrations-Rising (m ∷ ms) (o, d) =
    insert_migration-Rising m (sort_migrations ms) (sort_migrations-All (Other m.version) ms o)
      (sort_migrations-Rising ms d)

add_files-Distinct :
    (files : List File) (ms : List Migration)
    → Distinct ms
    → Distinct (foldl (λ ms f. add_file f ms) ms files)
add_files-Distinct [] ms d = d
add_files-Distinct (f ∷ files) ms d =
    add_files-Distinct files (add_file f ms) (add_file-Distinct f ms d)

pub load_migrations-Rising : (files : List File) → Rising (load_migrations files)
unfolding load_migrations
load_migrations-Rising files = sort_migrations-Rising _ (add_files-Distinct files [] tt)
