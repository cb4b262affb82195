-- ===== src/Diff/Rows/Sides.antt =====
-- The two sides of the split view are the two files.
use livegrep.Diff.{GitDiffLineType, GitDiffLine}
use livegrep.Diff.Hunk.Numbering.{is_new, is_old}
use livegrep.Diff.Rows.{
  added_row, is_delete, modified_row, added_rows, deleted_row, get_modified_diff_rows, is_add,
  lines_of_type, modified_rows, row_added, row_context, row_modified, row_deleted, IDiffRow,
  deleted_rows, tail_text,
}
use livegrep.Prelude.{
  ℕ, ◌≡◌, refl, ◌≢◌, Bool, true, false, ◌||◌, List, [], ◌∷◌, ◌++◌, append_assoc, arith,
  if◌then◌else◌, Text, drop, All,
}
use livegrep.Runtime.{ret, Run}

-- The side of the old file (`true`) or of the new one: text and number of a line.
abbrev pub Side : Type 0
Side = List (Text × ℕ)

abbrev pub row_side : Bool → IDiffRow → Side
row_side true (row_deleted r) = (r.line.content, r.line.line_number) ∷ []
row_side true (row_modified r) = (r.before_data.content, r.before_data.line_number) ∷ []
row_side true (row_context r) = (r.content, r.before_line_number) ∷ []
row_side false (row_added r) = (r.line.content, r.line.line_number) ∷ []
row_side false (row_modified r) = (r.after_data.content, r.after_data.line_number) ∷ []
row_side false (row_context r) = (r.content, r.after_line_number) ∷ []
row_side _ _ = []

abbrev pub rows_side : Bool → List IDiffRow → Side
rows_side old [] = []
rows_side old (r ∷ rs) = row_side old r ++ rows_side old rs

-- What a line of a hunk is in one of the files: its text without the prefix, and its number there.
abbrev pub line_side : Bool → GitDiffLine → Side
line_side true l = if is_old l.type then (drop 1 l.text, l.old_line_number) ∷ [] else []
line_side false l = if is_new l.type then (drop 1 l.text, l.new_line_number) ∷ [] else []

abbrev pub lines_side : Bool → List GitDiffLine → Side
lines_side old [] = []
lines_side old (l ∷ ls) = line_side old l ++ lines_side old ls

abbrev pub HasPrefixByte : GitDiffLine → Type 0
HasPrefixByte l = l.text ≢ []

-- `m` returns rows whose two sides are those of the lines.
abbrev pub ShowsLines : Run (List IDiffRow) → Side → Side → Type 0
ShowsLines m old new =
    (rows : List IDiffRow) × (m ≡ ret rows)
    × (rows_side true rows ≡ old)
    × (rows_side false rows ≡ new)

pub rows_side-append :
    (old : Bool) (rs ss : List IDiffRow)
    → rows_side old (rs ++ ss) ≡ rows_side old rs ++ rows_side old ss
rows_side-append old [] ss = refl
rows_side-append old (r ∷ rs) ss = simp (rows_side-append old rs, append_assoc)

pub tail_text-ne-nil : (s : Text) → s ≢ [] → tail_text s ≡ ret (drop 1 s)
unfolding tail_text
tail_text-ne-nil [] h = absurd (h refl)
tail_text-ne-nil (c ∷ s) h = refl

-- the numbers and texts of the deleted and of the added lines
abbrev old_side : List GitDiffLine → Side
old_side [] = []
old_side (l ∷ ls) = (drop 1 l.text, l.old_line_number) ∷ old_side ls

abbrev new_side : List GitDiffLine → Side
new_side [] = []
new_side (l ∷ ls) = (drop 1 l.text, l.new_line_number) ∷ new_side ls

deleted_rows-ShowsLines :
    (ls : List GitDiffLine) → All HasPrefixByte ls → ShowsLines (deleted_rows ls) (old_side ls) []
unfolding deleted_rows
deleted_rows-ShowsLines [] h = ([], refl, refl, refl)
deleted_rows-ShowsLines (l ∷ ls) (p, h) =
    let (rows, e, o, n) = deleted_rows-ShowsLines ls h in
    (deleted_row l (drop 1 l.text) ∷ rows, rw (tail_text-ne-nil l.text p, e), rw o, n)

added_rows-ShowsLines :
    (ls : List GitDiffLine) → All HasPrefixByte ls → ShowsLines (added_rows ls) [] (new_side ls)
unfolding added_rows
added_rows-ShowsLines [] h = ([], refl, refl, refl)
added_rows-ShowsLines (l ∷ ls) (p, h) =
    let (rows, e, o, n) = added_rows-ShowsLines ls h in
    (added_row l (drop 1 l.text) ∷ rows, rw (tail_text-ne-nil l.text p, e), o, rw n)

modified_rows-ShowsLines :
    (als dls : List GitDiffLine)
    → All HasPrefixByte als
    → All HasPrefixByte dls
    → ShowsLines (modified_rows als dls) (old_side dls) (new_side als)
unfolding modified_rows
modified_rows-ShowsLines (al ∷ als) (dl ∷ dls) (pa, ha) (pd, hd) =
    let (rows, e, o, n) = modified_rows-ShowsLines als dls ha hd in
    (
      modified_row al dl (drop 1 dl.text) (drop 1 al.text) ∷ rows,
      rw (tail_text-ne-nil dl.text pd, tail_text-ne-nil al.text pa, e),
      rw o,
      rw n,
    )
modified_rows-ShowsLines [] [] ha hd = added_rows-ShowsLines [] tt
modified_rows-ShowsLines (al ∷ als) [] ha hd = added_rows-ShowsLines (al ∷ als) ha
modified_rows-ShowsLines [] (dl ∷ dls) ha hd = deleted_rows-ShowsLines (dl ∷ dls) hd

All-lines_of_type :
    (p : GitDiffLineType → Bool) (ls : List GitDiffLine)
    → All HasPrefixByte ls
    → All HasPrefixByte (lines_of_type p ls)
All-lines_of_type p [] h = tt
All-lines_of_type p (l ∷ ls) (x, h) = ground (arith, All-lines_of_type p ls h)

-- only added and deleted lines
abbrev pub IsChange : GitDiffLine → Type 0
IsChange l = (is_add l.type || is_delete l.type) ≡ true

old_side-lines_of_type :
    (ls : List GitDiffLine)
    → All IsChange ls
    → old_side (lines_of_type is_delete ls) ≡ lines_side true ls
old_side-lines_of_type [] h = refl
old_side-lines_of_type (l ∷ ls) (x, h) = ground (arith, old_side-lines_of_type ls h)

new_side-lines_of_type :
    (ls : List GitDiffLine)
    → All IsChange ls
    → new_side (lines_of_type is_add ls) ≡ lines_side false ls
new_side-lines_of_type [] h = refl
new_side-lines_of_type (l ∷ ls) (x, h) = ground (arith, new_side-lines_of_type ls h)

-- For added and deleted lines with a prefix byte, `getModifiedDiffRows` returns rows whose old side
-- lists the deleted lines and whose new side lists the added lines, in order, with texts and
-- numbers.
pub get_modified_diff_rows-ShowsLines :
    (ls : List GitDiffLine)
    → All IsChange ls
    → All HasPrefixByte ls
    → ShowsLines (get_modified_diff_rows ls) (lines_side true ls) (lines_side false ls)
unfolding get_modified_diff_rows
get_modified_diff_rows-ShowsLines ls c h =
    rw (← old_side-lines_of_type ls c, ← new_side-lines_of_type ls c)
      (modified_rows-ShowsLines _ _ (All-lines_of_type is_add ls h)
        (All-lines_of_type is_delete ls h))
