-- ===== src/Migrate/Pieces.antt =====
-- cmd/migrate/main.go: the texts that are statements of a script, described without the loop that reads them.
use dishflow_glm.Prelude.{
  ℕ, ◌==◌, ◌≡◌, refl, arith, Bool, true, false, ◌&&◌, ◌||◌, Option, none, some, List, [], ◌∷◌, ◌++◌,
  All, ◌∙◌, ◌≢◌, map, ap, if◌then◌else◌,
}
use mathlib.Core.List.{append_assoc}
use dishflow_glm.Migrate.Split.{
  Text, trim_space, split_statements, Mode, plain, in_single, in_double, in_line_comment,
  in_block_comment, put, act,
}
use dishflow_glm.Migrate.Statements.{
  mode_after, IsStatement, write_script, split_statements-write_script,
}

-- What a statement is made of: a character that starts nothing, one such after a minus or a slash, a string in
-- single or double quotes, and the two kinds of comments.
pub data Piece : Type 0 where
  other minus slash : ℕ → Piece
  single double line block : Text → Piece

abbrev pub write_piece : Piece → Text
write_piece (other c) = c ∷ []
write_piece (minus c) = b'-' ∷ c ∷ []
write_piece (slash c) = b'/' ∷ c ∷ []
write_piece (single s) = b'\'' ∷ (s ++ b'\'' ∷ [])
write_piece (double s) = b'"' ∷ (s ++ b'"' ∷ [])
write_piece (line s) = b'-' ∷ b'-' ∷ (s ++ b'\n' ∷ [])
write_piece (block s) = b'/' ∷ b'*' ∷ (s ++ b'*' ∷ b'/' ∷ [])

abbrev pub write_pieces : List Piece → Text
write_pieces [] = []
write_pieces (p ∷ ps) = write_piece p ++ write_pieces ps

abbrev pub is_special : ℕ → Bool
is_special c = (c == b'\'') || (c == b'"') || (c == b'-') || (c == b'/') || (c == b';')

abbrev pub Without : ℕ → Text → Type 0
Without d s = All (λ c. (c == d) ≡ false) s

-- No `*/` in a comment.
abbrev pub Unclosed : Text → Type 0
Unclosed [] = Unit
Unclosed (c ∷ []) = Unit
Unclosed (c ∷ d ∷ s) = (((c == b'*') && (d == b'/')) ≡ false) × Unclosed (d ∷ s)

abbrev pub IsPiece : Piece → Type 0
IsPiece (other c) = is_special c ≡ false
IsPiece (minus c) = is_special c ≡ false
IsPiece (slash c) = (is_special c || (c == b'*')) ≡ false
IsPiece (single s) = Without b'\'' s
IsPiece (double s) = Without b'"' s
IsPiece (line s) = Without b'\n' s
IsPiece (block s) = Unclosed s

-- A round that writes one character, whatever follows.
put_any :
    (mode mode' : Mode) (c : ℕ) (rest : Text)
    → ((next : Option ℕ) → act mode c next ≡ put mode')
    → mode_after mode (c ∷ rest) ≡ mode_after mode' rest
unfolding mode_after
put_any mode mode' c [] h = rw (h none, mode_after) refl
put_any mode mode' c (d ∷ s) h = rw (h (some d), mode_after) refl

through :
    (mode : Mode) (stop : ℕ) (s rest : Text)
    → ((c : ℕ) (next : Option ℕ) → (c == stop) ≡ false → act mode c next ≡ put mode)
    → ((next : Option ℕ) → act mode stop next ≡ put plain)
    → Without stop s
    → mode_after mode (s ++ stop ∷ rest) ≡ mode_after plain rest
through mode stop [] rest stay leave w = put_any mode plain stop rest leave
through mode stop (c ∷ s) rest stay leave (n, w) =
    put_any mode mode c (s ++ stop ∷ rest) (λ next. stay c next n)
    ∙ through mode stop s rest stay leave w

-- A star that no slash follows ends no comment.
star_apart :
    (c d : ℕ)
    → ((c == b'*') && (d == b'/')) ≡ false
    → act in_block_comment c (some d) ≡ put in_block_comment
unfolding act
star_apart c d n = rw n refl

star_star : (c : ℕ) → ((c == b'*') && (b'*' == b'/')) ≡ false
star_star c = ground arith

block_end : (rest : Text) → mode_after in_block_comment (b'*' ∷ b'/' ∷ rest) ≡ mode_after plain rest
unfolding mode_after act
block_end rest = refl

-- A round that writes one character of a comment.
block_round :
    (c d : ℕ) (s : Text)
    → ((c == b'*') && (d == b'/')) ≡ false
    → mode_after in_block_comment (c ∷ d ∷ s) ≡ mode_after in_block_comment (d ∷ s)
unfolding mode_after
block_round c d s n = rw (star_apart c d n, mode_after) refl

through_block :
    (s rest : Text)
    → Unclosed s
    → mode_after in_block_comment (s ++ b'*' ∷ b'/' ∷ rest) ≡ mode_after plain rest
through_block [] rest u = block_end rest
through_block (c ∷ []) rest u = block_round c b'*' (b'/' ∷ rest) (star_star c) ∙ block_end rest
through_block (c ∷ d ∷ s) rest (n, u) =
    block_round c d (s ++ b'*' ∷ b'/' ∷ rest) n ∙ through_block (d ∷ s) rest u

unquoted : (c : ℕ) (next : Option ℕ) → is_special c ≡ false → act plain c next ≡ put plain
unfolding act
unquoted c next h = ground arith

-- A minus or a slash that no other character makes a comment of.
minus_apart : (c : ℕ) → is_special c ≡ false → act plain b'-' (some c) ≡ put plain
unfolding act
minus_apart c h = ground arith

slash_apart : (c : ℕ) → (is_special c || (c == b'*')) ≡ false → act plain b'/' (some c) ≡ put plain
unfolding act
slash_apart c h = ground arith

two_rounds :
    (a c : ℕ) (rest : Text)
    → is_special c ≡ false
    → act plain a (some c) ≡ put plain
    → mode_after plain (a ∷ c ∷ rest) ≡ mode_after plain rest
unfolding mode_after
two_rounds a c rest h e =
    let first : mode_after plain (a ∷ c ∷ rest) ≡ mode_after plain (c ∷ rest) =
      rw (e, mode_after) refl in
    first ∙ put_any plain plain c rest (λ next. unquoted c next h)

same : (c : ℕ) → (c == c) ≡ true
same c = ground arith

-- A text in quotes or in a comment to the end of the line.
quoted :
    (mode : Mode) (stop : ℕ) (s rest : Text)
    → ((c : ℕ) (next : Option ℕ) → act mode c next ≡ (if c == stop then put plain else put mode))
    → Without stop s
    → mode_after mode ((s ++ stop ∷ []) ++ rest) ≡ mode_after plain rest
quoted mode stop s rest h w =
    ap (mode_after mode) (append_assoc s (stop ∷ []) rest)
    ∙ through mode stop s rest (λ c next n. h c next ∙ rw n refl)
        (λ next. h stop next ∙ rw (same stop) refl) w

write_piece_plain :
    (p : Piece) (rest : Text)
    → IsPiece p
    → mode_after plain (write_piece p ++ rest) ≡ mode_after plain rest
unfolding mode_after act
write_piece_plain (other c) rest h = put_any plain plain c rest (λ next. unquoted c next h)
write_piece_plain (minus c) rest h = two_rounds b'-' c rest h (minus_apart c h)
write_piece_plain (slash c) rest h = two_rounds b'/' c rest (ground arith) (slash_apart c h)
write_piece_plain (single s) rest h =
    put_any plain in_single b'\'' ((s ++ b'\'' ∷ []) ++ rest) (λ next. refl)
    ∙ quoted in_single b'\'' s rest (λ c next. refl) h
write_piece_plain (double s) rest h =
    put_any plain in_double b'"' ((s ++ b'"' ∷ []) ++ rest) (λ next. refl)
    ∙ quoted in_double b'"' s rest (λ c next. refl) h
write_piece_plain (line s) rest h = quoted in_line_comment b'\n' s rest (λ c next. refl) h
write_piece_plain (block s) rest h =
    ap (mode_after in_block_comment) (append_assoc s (b'*' ∷ b'/' ∷ []) rest)
    ∙ through_block s rest h

write_pieces_plain :
    (ps : List Piece) → All IsPiece ps → mode_after plain (write_pieces ps) ≡ some plain
unfolding mode_after
write_pieces_plain [] h = refl
write_pieces_plain (p ∷ ps) (h, hs) =
    write_piece_plain p (write_pieces ps) h ∙ write_pieces_plain ps hs

-- The pieces of a statement, which has some text and no space round it.
pub record IsWritten (ps : List Piece) : Type 0 where
  pub pieces : All IsPiece ps
  pub some_text : write_pieces ps ≢ []
  pub trimmed : trim_space (write_pieces ps) ≡ write_pieces ps

statements_written :
    (pss : List (List Piece)) → All IsWritten pss → All IsStatement (map write_pieces pss)
statements_written [] h = tt
statements_written (ps ∷ pss) (h, hs) = (
  record { closed = write_pieces_plain ps h.pieces; some_text = h.some_text; trimmed = h.trimmed },
  statements_written pss hs,
)

-- A script that holds one statement to a line, each ended by a semicolon, is split into those statements, where a
-- statement is written piece by piece: characters that are no quote, minus, slash or semicolon, such a character
-- after a minus or a slash, texts in single or double quotes, and comments of both kinds. What stands in the quotes
-- and in the comments may hold semicolons and all else but their own end.
pub split_statements-write_pieces :
    (pss : List (List Piece))
    → All IsWritten pss
    → split_statements (write_script (map write_pieces pss)) ≡ map write_pieces pss
split_statements-write_pieces pss h =
    split_statements-write_script (map write_pieces pss) (statements_written pss h)
