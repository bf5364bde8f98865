-- ===== src/Migrate/Statements.antt =====
-- cmd/migrate/main.go: scripts that are written statement by statement are split into those statements.
use mathlib.Core.List.{append_assoc, append-nil}
use mathlib.Core.Option.{some_inj}
use dishflow_glm.Prelude.{
  ℕ, ◌≡◌, ◌≢◌, refl, sym, arith, Option, none, some, ◌⊎◌, List, [], ◌∷◌, ◌++◌, All, inl, inr, ◌∙◌,
  ap,
}
use dishflow_glm.Migrate.Split.{
  Text, trim_space, Mode, plain, in_single, in_double, in_line_comment, in_block_comment, Action,
  put, put_two, cut, act, keep_statement, flush, split_from, split_statements,
}

-- The mode after a text that ends no statement.
unfoldable pub mode_after : Mode → Text → Option Mode
unfolding act
mode_after mode [] = some mode
mode_after mode (c ∷ []) = elim (act mode c none) [
  | put mode' ↦ some mode'
  | put_two mode' ↦ none
  | cut ↦ none
]
mode_after mode (c ∷ d ∷ s) = elim (act mode c (some d)) [
  | put mode' ↦ mode_after mode' (d ∷ s)
  | put_two mode' ↦ mode_after mode' s
  | cut ↦ none
]

-- A statement: no semicolon outside of quotes and comments, none of which is left open, and no space round it.
pub record IsStatement (s : Text) : Type 0 where
  pub closed : mode_after plain s ≡ some plain
  pub some_text : s ≢ []
  pub trimmed : trim_space s ≡ s

split_from-semicolon :
    (buf rest : Text) → split_from plain buf (b';' ∷ rest) ≡ flush buf (split_from plain [] rest)
unfolding split_from
split_from-semicolon buf [] = refl
split_from-semicolon buf (c ∷ s) = refl

-- A semicolon is not the second half of a pair.
act-semicolon : (mode : Mode) (c : ℕ) → act mode c (some b';') ≡ act mode c none
unfolding act
act-semicolon plain c = ground arith
act-semicolon in_single c = ground arith
act-semicolon in_double c = ground arith
act-semicolon in_line_comment c = ground arith
act-semicolon in_block_comment c = ground arith

Action-cases :
    (a : Action) → ((m : Mode) × (a ≡ put m)) ⊎ (((m : Mode) × (a ≡ put_two m)) ⊎ (a ≡ cut))
Action-cases (put m) = inl (m, refl)
Action-cases (put_two m) = inr (inl (m, refl))
Action-cases cut = inr (inr refl)

split_from-closed :
    (mode : Mode) (buf s rest : Text)
    → mode_after mode s ≡ some plain
    → split_from mode buf (s ++ b';' ∷ rest) ≡ flush (buf ++ s) (split_from plain [] rest)
unfolding mode_after split_from
split_from-closed mode buf [] rest h =
    let same : mode ≡ plain = some_inj.0 h in rw (same, append-nil) (split_from-semicolon buf rest)
split_from-closed mode buf (c ∷ []) rest h = elim (Action-cases (act mode c none)) [
  | inl (m, e) ↦
      let same : m ≡ plain = some_inj.0 (rw (e, mode_after) at h) in
      let wide : act mode c (some b';') ≡ put plain = act-semicolon mode c ∙ e ∙ ap put same in
      rw (wide, split_from) (split_from-semicolon (buf ++ c ∷ []) rest)
  | inr (inl (m, e)) ↦ absurd (let bad : none ≡ some plain = rw (e, mode_after) at h in cc)
  | inr (inr e) ↦ absurd (let bad : none ≡ some plain = rw (e, mode_after) at h in cc)
]
split_from-closed mode buf (c ∷ d ∷ s) rest h = elim (Action-cases (act mode c (some d))) [
  | inl (m, e) ↦
      rw (e, split_from)
        (split_from-closed m (buf ++ c ∷ []) (d ∷ s) rest (rw (e, mode_after) at h)
          ∙ rw append_assoc refl)
  | inr (inl (m, e)) ↦
      rw (e, split_from)
        (split_from-closed m (buf ++ c ∷ d ∷ []) s rest (rw (e, mode_after) at h)
          ∙ rw append_assoc refl)
  | inr (inr e) ↦ absurd (let bad : none ≡ some plain = rw (e, mode_after) at h in cc)
]

-- One statement to a line, as the files of migrations/ write them.
unfoldable pub write_script : List Text → Text
write_script [] = []
write_script (s ∷ ss) = s ++ b';' ∷ b'\n' ∷ write_script ss

trim_space-newline : (s : Text) → trim_space (b'\n' ∷ s) ≡ trim_space s
unfolding trim_space
trim_space-newline s = refl

keep_statement-statement : (s : Text) (out : List Text) → s ≢ [] → keep_statement s out ≡ s ∷ out
keep_statement-statement [] out h = absurd (h refl)
keep_statement-statement (c ∷ s) out h = refl

split_from-newline :
    (buf s : Text) → split_from plain buf (b'\n' ∷ s) ≡ split_from plain (buf ++ b'\n' ∷ []) s
unfolding split_from
split_from-newline buf [] = refl
split_from-newline buf (c ∷ s) = refl

trim_space-nil : trim_space [] ≡ []
unfolding trim_space
trim_space-nil = refl

split_from-end : (buf : Text) → trim_space buf ≡ [] → split_from plain buf [] ≡ []
unfolding split_from
split_from-end buf h = rw h refl

-- The text before a statement is empty, or the end of the line before.
split_from-write_script :
    (buf : Text) (ss : List Text)
    → ((s : Text) → trim_space (buf ++ s) ≡ trim_space s)
    → All IsStatement ss
    → split_from plain buf (write_script ss) ≡ ss
unfolding write_script
split_from-write_script buf [] blank h =
    let nothing : trim_space buf ≡ [] =
      ap trim_space (sym (append-nil buf)) ∙ blank [] ∙ trim_space-nil in
    split_from-end buf nothing
split_from-write_script buf (s ∷ ss) blank (h, hs) =
    split_from-closed plain buf s (b'\n' ∷ write_script ss) h.closed
    ∙ rw
        (
          blank s,
          h.trimmed,
          keep_statement-statement s (split_from plain [] (b'\n' ∷ write_script ss)) h.some_text,
          split_from-newline [] (write_script ss),
        )
        (ap (λ (t : List Text). s ∷ t)
          (split_from-write_script (b'\n' ∷ []) ss trim_space-newline hs))

-- A script that holds one statement to a line, each ended by a semicolon, is split into those statements:
-- semicolons in quotes and in comments end none.
pub split_statements-write_script :
    (ss : List Text) → All IsStatement ss → split_statements (write_script ss) ≡ ss
unfolding split_statements
split_statements-write_script ss h = split_from-write_script [] ss (λ s. refl) h
