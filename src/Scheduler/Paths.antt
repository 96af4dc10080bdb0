-- ===== src/Scheduler/Paths.antt =====
-- The paths that tasks declare to write, and the test that two tasks may write one file
-- (src/lib/scheduler/conflicts.ts).
pub mod Overlap
use swarm_z.Base.{
  ℕ, Bool, true, false, not, ◌&&◌, ◌||◌, List, [], ◌∷◌, ◌++◌, map, reverse, any, select, sort_by,
  ◌==◌, if◌then◌else◌, Text, codes, text_eq, text_lt, trim, is_empty, is_prefix, mem, distinct,
}

-- `.split("\\").join("/")`.
abbrev to_slash : ℕ → ℕ
to_slash c = if c == 92 then b'/' else c

abbrev starts_with : ℕ → Text → Bool
starts_with c [] = false
starts_with c (d ∷ s) = d == c

-- `.replace(/\/+/g, "/")`.
merge_slashes : Text → Text
merge_slashes [] = []
merge_slashes (c ∷ s) =
    let rest = merge_slashes s in if c == b'/' && starts_with b'/' s then rest else c ∷ rest

-- `.replace(/^\.\//, "")`.
drop_dot : Text → Text
drop_dot (c ∷ d ∷ s) = if c == b'.' && d == b'/' then s else c ∷ d ∷ s
drop_dot s = s

-- `.replace(/\/$/, "")`.
drop_last_slash : Text → Text
drop_last_slash [] = []
drop_last_slash (c ∷ []) = if c == b'/' then [] else c ∷ []
drop_last_slash (c ∷ d ∷ s) = c ∷ drop_last_slash (d ∷ s)

unfoldable pub normalize : Text → Text
unfolding trim merge_slashes drop_dot drop_last_slash
normalize value = drop_last_slash (drop_dot (merge_slashes (map to_slash (trim value))))

unfoldable pub unique_sorted : List Text → List Text
unique_sorted values =
    sort_by text_lt (distinct (select (λ v. not (is_empty v)) (map normalize values)))

-- What stands for a part of a glob in the regular expression: `.*`, `[^/]*`, `[^/]` and a character.
pub data Piece : Type 0 where
  any_run segment_run one_char : Piece
  literal : ℕ → Piece

-- Where the loop is: at a character, at the second of two stars, or inside brackets.
pub data Mode : Type 0 where
  plain second_star brackets : Mode

-- `*`, `?`, `[` and `]`, the characters of `/[*?[\]]/`.
unfoldable pub is_wildcard : ℕ → Bool
is_wildcard c = c == b'*' || c == b'?' || c == b'[' || c == 93

abbrev has_close : Text → Bool
has_close s = any (λ c. c == 93) s

unfoldable pub piece_at : ℕ → Text → Piece
piece_at c s =
    if c == b'*'
    then (if starts_with b'*' s then any_run else segment_run)
    else if c == b'?' || c == b'['
    then one_char
    else literal c

unfoldable pub mode_after : Mode → ℕ → Text → Mode
mode_after plain c s =
    if c == b'*' && starts_with b'*' s
    then second_star
    else if c == b'[' && has_close s
    then brackets
    else plain
mode_after second_star c s = plain
mode_after brackets c s = if c == 93 then plain else brackets

unfoldable pub pieces_from : Mode → Text → List Piece
pieces_from mode [] = []
pieces_from mode (c ∷ s) =
    let rest = pieces_from (mode_after mode c s) s in
    elim mode [ plain ↦ piece_at c s ∷ rest | other ↦ rest ]

-- `globRegex(pattern)`.
unfoldable pub glob_pieces : Text → List Piece
glob_pieces pattern = pieces_from plain (normalize pattern)

-- What `.` does not match: the line terminators.
is_line_end : ℕ → Bool
is_line_end c = c == 10 || c == 13 || c == 8232 || c == 8233

-- `regex.test(s)` for an expression between `^` and `$`.
unfoldable pub matches : List Piece → Text → Bool
unfolding is_line_end
matches [] [] = true
matches [] (c ∷ s) = false
matches (literal d ∷ ps) [] = false
matches (literal d ∷ ps) (c ∷ s) = c == d && matches ps s
matches (one_char ∷ ps) [] = false
matches (one_char ∷ ps) (c ∷ s) = not (c == b'/') && matches ps s
matches (any_run ∷ ps) [] = matches ps []
matches (any_run ∷ ps) (c ∷ s) =
    matches ps (c ∷ s) || not (is_line_end c) && matches (any_run ∷ ps) s
matches (segment_run ∷ ps) [] = matches ps []
matches (segment_run ∷ ps) (c ∷ s) =
    matches ps (c ∷ s) || not (c == b'/') && matches (segment_run ∷ ps) s

unfoldable pub glob_matches : Text → Text → Bool
glob_matches glob path = matches (glob_pieces glob) path

unfoldable pub path_matches_declared_intent : Text → List Text → List Text → Bool
path_matches_declared_intent path files globs =
    let normalized = normalize path in
    if is_empty normalized || is_prefix (codes "../") normalized || is_prefix (codes "/") normalized
    then false
    else mem normalized (unique_sorted files)
      || any (λ glob. glob_matches glob normalized) (unique_sorted globs)

unfoldable pub has_wildcard : Text → Bool
has_wildcard value = any is_wildcard value

-- The text before the first wildcard.
unfoldable pub before_wildcard : Text → Text
before_wildcard [] = []
before_wildcard (c ∷ s) = let rest = before_wildcard s in if is_wildcard c then [] else c ∷ rest

unfoldable pub static_prefix : Text → Text
static_prefix pattern = before_wildcard (normalize pattern)

unfoldable pub segment_prefix_could_overlap : Text → Text → Bool
segment_prefix_could_overlap left right =
    let a = static_prefix left in
    let b = static_prefix right in is_empty a || is_empty b || is_prefix b a || is_prefix a b

-- The test of two globs.
unfoldable pub globs_overlap : Text → Text → Bool
globs_overlap left right =
    text_eq left right
    || not (has_wildcard left) && glob_matches right left
    || not (has_wildcard right) && glob_matches left right
    || segment_prefix_could_overlap left right

unfoldable pub path_intents_overlap : List Text → List Text → List Text → List Text → Bool
path_intents_overlap left_files left_globs right_files right_globs =
    let a_files = unique_sorted left_files in
    let b_files = unique_sorted right_files in
    let a_globs = unique_sorted left_globs in
    let b_globs = unique_sorted right_globs in
    any (λ file. mem file b_files) a_files
    || any (λ file. any (λ glob. glob_matches glob file) b_globs) a_files
    || any (λ file. any (λ glob. glob_matches glob file) a_globs) b_files
    || any (λ left. any (globs_overlap left) b_globs) a_globs
