-- ===== src/Tests/Migrate.antt =====
-- cmd/migrate: scripts with semicolons in quotes and comments, and a directory of two migrations.
use dishflow_glm.Prelude.{
  ◌≡◌, refl, List, [], ◌∷◌, ◌++◌, map, All, Bool, true, not, ◌==◌, ◌&&◌, arith,
}
use dishflow_glm.Printing.Receipt.{codes}
use dishflow_glm.Migrate.Split.{Text, split_statements, trim_space}
use dishflow_glm.Migrate.Statements.{write_script}
use dishflow_glm.Migrate.Pieces.{
  Piece, is_special, IsPiece, other, single, line, block, IsWritten, split_statements-write_pieces,
}
use dishflow_glm.Migrate.Run.{
  File, up_sql, down_sql, load_migrations, Site, Driver, done, record_failed, migrate_up,
}

abbrev comment_pieces : List Piece
comment_pieces = line (codes " no; end") ∷ map other (codes ", (2)") ++ []

abbrev value_pieces : List Piece
value_pieces = single (codes "a;b") ∷ map other (codes ") ") ++ comment_pieces

abbrev insert_pieces : List Piece
insert_pieces = map other (codes "INSERT INTO t VALUES (") ++ value_pieces

abbrev drop_pieces : List Piece
drop_pieces = map other (codes "DROP TABLE t ") ++ block (codes " ; ") ∷ []

abbrev are_plain : Text → Bool
are_plain [] = true
are_plain (c ∷ s) = not (is_special c) && are_plain s

map_other-IsPiece :
    (s : Text) (ps : List Piece)
    → are_plain s ≡ true
    → All IsPiece ps
    → All IsPiece (map other s ++ ps)
map_other-IsPiece [] ps h hs = hs
map_other-IsPiece (c ∷ s) ps h hs = (ground arith, map_other-IsPiece s ps (ground arith) hs)

insert-IsPiece : All IsPiece insert_pieces
insert-IsPiece = map_other-IsPiece (codes "INSERT INTO t VALUES (") value_pieces refl (
  (refl, (refl, (refl, tt))),
  map_other-IsPiece (codes ") ") comment_pieces refl (
    (refl, (refl, (refl, (refl, (refl, (refl, (refl, (refl, tt)))))))),
    map_other-IsPiece (codes ", (2)") [] refl tt,
  ),
)

pieces-IsWritten : IsWritten insert_pieces × IsWritten drop_pieces
unfolding trim_space
pieces-IsWritten = (
  record { pieces = insert-IsPiece; some_text = λ e. cc; trimmed = refl },
  record {
    pieces =
        map_other-IsPiece (codes "DROP TABLE t ") (block (codes " ; ") ∷ []) refl
          ((refl, (refl, tt)), tt);
    some_text = λ e. cc;
    trimmed = refl;
  },
)

abbrev insert_text : Text
insert_text = codes "INSERT INTO t VALUES ('a;b') -- no; end\n, (2)"

abbrev drop_text : Text
drop_text = codes "DROP TABLE t /* ; */"

split_statements-write_pieces_example :
    split_statements (write_script (insert_text ∷ drop_text ∷ [])) ≡ insert_text ∷ drop_text ∷ []
split_statements-write_pieces_example =
    split_statements-write_pieces (insert_pieces ∷ drop_pieces ∷ [])
      (pieces-IsWritten.0, (pieces-IsWritten.1, tt))

abbrev files : List File
files =
    record { version = 2; name = 7; ending = up_sql; body = drop_text }
    ∷ record { version = 1; name = 6; ending = up_sql; body = insert_text }
    ∷ record { version = 1; name = 6; ending = down_sql; body = drop_text }
    ∷ []

-- A database that keeps the statements, the last one first, and in which nothing fails but the record of version 3.
abbrev journal : Driver (List Text)
journal = record {
  begin_tx = λ s. (true, s);
  exec = λ t s. (true, t ∷ s);
  commit = λ s. (true, s);
  rollback = λ s. s;
  inserts = λ v s. not (v == 3);
  deletes = λ v s. true;
}

abbrev site : Site (List Text)
site = record { applied = 1 ∷ []; schema = insert_text ∷ [] }

applied_both :
    migrate_up journal (load_migrations files) site
    ≡ (done, record { applied = 2 ∷ 1 ∷ []; schema = drop_text ∷ insert_text ∷ [] })
unfolding migrate_up load_migrations
applied_both = refl

abbrev third : File
third = record { version = 3; name = 8; ending = up_sql; body = insert_text }

-- The script of version 3 has run, and will be run again.
not_recorded : migrate_up journal (load_migrations (third ∷ files)) site ≡ (
  record_failed 3,
  record { applied = 2 ∷ 1 ∷ []; schema = insert_text ∷ drop_text ∷ insert_text ∷ [] },
)
unfolding migrate_up load_migrations
not_recorded = refl
