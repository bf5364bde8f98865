-- ===== src/Migrate/Split.antt =====
-- cmd/migrate/main.go: `splitStatements`. A text is a list of code points: the characters that the code tests are
-- ASCII, so that they are its bytes.
use mathlib.Core.List.{reverse}
use dishflow_glm.Prelude.{
  ℕ, leb, ◌==◌, if◌then◌else◌, Bool, false, ◌&&◌, ◌||◌, Option, none, some, List, [], ◌∷◌, ◌++◌,
}

abbrev pub Text : Type 0
Text = List ℕ

-- `unicode.IsSpace`
abbrev pub is_space : ℕ → Bool
is_space c =
    (leb 9 c && leb c 13)
    || (c == 32)
    || (c == 0x85)
    || (c == 0xa0)
    || (c == 0x1680)
    || (leb 0x2000 c && leb c 0x200a)
    || (c == 0x2028)
    || (c == 0x2029)
    || (c == 0x202f)
    || (c == 0x205f)
    || (c == 0x3000)

unfoldable pub drop_space : Text → Text
drop_space [] = []
drop_space (c ∷ s) = if is_space c then drop_space s else c ∷ s

-- `strings.TrimSpace`
unfoldable pub trim_space : Text → Text
unfolding drop_space
trim_space s = reverse (drop_space (reverse (drop_space s)))

-- The four flags of the loop, of which one at most is set.
pub data Mode : Type 0 where
  plain in_single in_double in_line_comment in_block_comment : Mode

-- What one round of the loop does: write the character, write it with the next one, or end the statement.
pub data Action : Type 0 where
  put put_two : Mode → Action
  cut : Action

abbrev pub is_next : ℕ → Option ℕ → Bool
is_next c none = false
is_next c (some d) = d == c

unfoldable pub act : Mode → ℕ → Option ℕ → Action
act in_line_comment c next = if c == b'\n' then put plain else put in_line_comment
act in_block_comment c next =
    if (c == b'*') && is_next b'/' next then put_two plain else put in_block_comment
act in_single c next = if c == b'\'' then put plain else put in_single
act in_double c next = if c == b'"' then put plain else put in_double
act plain c next =
    if c == b'\''
    then put in_single
    else if c == b'"'
    then put in_double
    else if c == b'-'
    then if is_next b'-' next then put_two in_line_comment else put plain
    else if c == b'/'
    then if is_next b'*' next then put_two in_block_comment else put plain
    else if c == b';'
    then cut
    else put plain

-- A statement of spaces alone is left out.
abbrev pub keep_statement : Text → List Text → List Text
keep_statement [] out = out
keep_statement s out = s ∷ out

abbrev pub flush : Text → List Text → List Text
flush buf out = keep_statement (trim_space buf) out

-- The loop; the statements come in the order of the script. The last character has no next one.
unfoldable pub split_from : Mode → Text → Text → List Text
unfolding act trim_space
split_from mode buf [] = flush buf []
split_from mode buf (c ∷ []) = elim (act mode c none) [
  | put mode' ↦ split_from mode' (buf ++ c ∷ []) []
  | put_two mode' ↦ split_from mode' (buf ++ c ∷ []) []
  | cut ↦ flush buf (split_from plain [] [])
]
split_from mode buf (c ∷ d ∷ s) = elim (act mode c (some d)) [
  | put mode' ↦ split_from mode' (buf ++ c ∷ []) (d ∷ s)
  | put_two mode' ↦ split_from mode' (buf ++ c ∷ d ∷ []) s
  | cut ↦ flush buf (split_from plain [] (d ∷ s))
]

unfoldable pub split_statements : Text → List Text
unfolding split_from
split_statements script = split_from plain [] script
