-- ===== src/Diff/Hunk/Numbering.antt =====
-- The line numbers and flags in a body that `parseGitDiffHunk` has read.
use livegrep.Diff.{
  GitDiffLineType, add_line, delete_line, context_line, no_trailing_newline_line, GitDiffLine,
}
use livegrep.Diff.Hunk.{get_diff_line_type}
use livegrep.Diff.Hunk.Reads.{Reads, done, marker, addition, deletion, unchanged}
use livegrep.GoText.Decimal.{word}
use mathlib.Core.Path.{subst}
use livegrep.Prelude.{
  ℕ, zero, suc, ◌+◌, ◌%◌, ◌<◌, ◌≡◌, refl, Bool, true, false, some, List, [], ◌∷◌, arith, map,
  if◌then◌else◌, some-eq, Text, get_elem?, take, All,
}

-- lines of the old file, and of the new file
abbrev pub is_old : GitDiffLineType → Bool
is_old delete_line = true
is_old context_line = true
is_old _ = false

abbrev pub is_new : GitDiffLineType → Bool
is_new add_line = true
is_new context_line = true
is_new _ = false

abbrev pub count_type : (GitDiffLineType → Bool) → List GitDiffLine → ℕ
count_type p [] = 0
count_type p (l ∷ ls) = (if p l.type then 1 else 0) + count_type p ls

-- The number that a line has in its file: the start of the hunk, and the lines of that file before it.
abbrev pub Numbered : (before after : ℕ) (earlier : List GitDiffLine) → GitDiffLine → Type 0
Numbered before after earlier l =
    (l.old_line_number ≡ (if is_old l.type then (before + count_type is_old earlier) % word else 0))
    × (l.new_line_number
        ≡ (if is_new l.type then (after + count_type is_new earlier) % word else 0))

pub Reads-Numbered :
    {before after : ℕ} {taken : List Text} {new : List GitDiffLine}
    (r : Reads before after taken new) (i : ℕ) {l : GitDiffLine}
    → before < word
    → after < word
    → get_elem? new i ≡ some l
    → Numbered before after (take i new) l
Reads-Numbered done i hb ha e = cc
Reads-Numbered (marker x y r) i hb ha e = Reads-Numbered r i hb ha e
Reads-Numbered (addition x r) zero hb ha e = subst (Numbered _ _ []) (some-eq e) (omega arith)
Reads-Numbered (addition x r) (suc i) hb ha e =
    ground (arith, Reads-Numbered r i hb (omega arith) e)
Reads-Numbered (deletion x r) zero hb ha e = subst (Numbered _ _ []) (some-eq e) (omega arith)
Reads-Numbered (deletion x r) (suc i) hb ha e =
    ground (arith, Reads-Numbered r i (omega arith) ha e)
Reads-Numbered (unchanged x r) zero hb ha e = subst (Numbered _ _ []) (some-eq e) (omega arith)
Reads-Numbered (unchanged x r) (suc i) hb ha e =
    ground (arith, Reads-Numbered r i (omega arith) (omega arith) e)

-- No line of the body has the flag of a missing newline.
pub Reads-flag :
    {before after : ℕ} {taken : List Text} {new : List GitDiffLine}
    → Reads before after taken new
    → All (λ l. (l.no_trailing_newline ≡ false) × (l.original_line_number ≡ 0)) new
Reads-flag done = tt
Reads-flag (marker x y r) = Reads-flag r
Reads-flag (addition x r) = ((refl, refl), Reads-flag r)
Reads-flag (deletion x r) = ((refl, refl), Reads-flag r)
Reads-flag (unchanged x r) = ((refl, refl), Reads-flag r)

abbrev is_marker : GitDiffLineType → Bool
is_marker no_trailing_newline_line = true
is_marker _ = false

-- the lines without the markers `\ No newline at end of file`
abbrev pub without_markers : List Text → List Text
without_markers [] = []
without_markers (t ∷ ts) =
    if is_marker (get_diff_line_type t) then without_markers ts else t ∷ without_markers ts

pub map-text-Reads :
    {before after : ℕ} {taken : List Text} {new : List GitDiffLine}
    → Reads before after taken new
    → map (λ l. l.text) new ≡ without_markers taken
map-text-Reads done = refl
map-text-Reads (marker x y r) = rw x (map-text-Reads r)
map-text-Reads (addition x r) = rw (x, map-text-Reads r)
map-text-Reads (deletion x r) = rw (x, map-text-Reads r)
map-text-Reads (unchanged x r) = rw (x, map-text-Reads r)
