-- ===== src/Diff/Rows.antt =====
-- The rows of the split view: `IDiffRow` and its five kinds, `getModifiedDiffRows`,
-- `getDiffRowsFromHunk` and `GetDiffRowsSplit` of `server/fileviewer/fileview.go`. The field `Type` of
-- a row is its constructor here, and the field `Row`, which the code never sets, is left out.
pub mod Parsed
pub mod Sides
pub mod Split
use livegrep.Diff.{
  context_line, hunk_line, unset, add_line, delete_line, DiffHunkExpansionType, GitDiff,
  GitDiffHunk, GitDiffLine, GitDiffLineType,
}
use livegrep.Prelude.{ℕ, ◌+◌, Bool, true, false, ◌||◌, List, [], ◌∷◌, ◌++◌, if◌then◌else◌, Text}
use livegrep.Runtime.{slice_out_of_range, Run, ret, panic, ◌>>=◌}

pub record IDiffRowData : Type 0 where
  pub content : Text
  pub line_number : ℕ
  pub diff_line_number : ℕ
  pub no_new_line_indicator : Bool

pub record IDiffRowAdded : Type 0 where
  pub line : IDiffRowData
  pub hunk_start_line : ℕ

pub record IDiffRowDeleted : Type 0 where
  pub line : IDiffRowData
  pub hunk_start_line : ℕ

pub record IDiffRowModified : Type 0 where
  pub before_data : IDiffRowData
  pub after_data : IDiffRowData
  pub hunk_start_line : ℕ

pub record IDiffRowContext : Type 0 where
  pub line : IDiffRowData
  pub content : Text
  pub before_line_number : ℕ
  pub after_line_number : ℕ

pub record IDiffRowHunk : Type 0 where
  pub content : Text
  pub expansion_type : DiffHunkExpansionType
  pub hunk_index : ℕ

pub data IDiffRow : Type 0 where
  row_added : IDiffRowAdded → IDiffRow
  row_deleted : IDiffRowDeleted → IDiffRow
  row_modified : IDiffRowModified → IDiffRow
  row_context : IDiffRowContext → IDiffRow
  row_hunk : IDiffRowHunk → IDiffRow

abbrev empty_data : IDiffRowData
empty_data = record {
  content = [];
  line_number = 0;
  diff_line_number = 0;
  no_new_line_indicator = false;
}

-- `gl.Text[1:]`
unfoldable pub tail_text : Text → Run Text
tail_text [] = panic slice_out_of_range
tail_text (c ∷ s) = ret s

abbrev pub content : GitDiffLine → Run Text
content l = tail_text l.text

abbrev pub row_data : GitDiffLine → Text → ℕ → IDiffRowData
row_data l c number = record {
  content = c;
  line_number = number;
  diff_line_number = l.original_line_number;
  no_new_line_indicator = l.no_trailing_newline;
}

abbrev pub lines_of_type : (GitDiffLineType → Bool) → List GitDiffLine → List GitDiffLine
lines_of_type p [] = []
lines_of_type p (l ∷ ls) = if p l.type then l ∷ lines_of_type p ls else lines_of_type p ls

abbrev pub is_add : GitDiffLineType → Bool
is_add add_line = true
is_add _ = false

abbrev pub is_delete : GitDiffLineType → Bool
is_delete delete_line = true
is_delete _ = false

abbrev pub deleted_row : GitDiffLine → Text → IDiffRow
deleted_row dl c =
    row_deleted (record { line = row_data dl c dl.old_line_number; hunk_start_line = 0 })

abbrev pub added_row : GitDiffLine → Text → IDiffRow
added_row al c = row_added (record { line = row_data al c al.new_line_number; hunk_start_line = 0 })

-- the loop over the remaining deleted lines
unfoldable pub deleted_rows : List GitDiffLine → Run (List IDiffRow)
deleted_rows [] = ret []
deleted_rows (dl ∷ dls) = do c ← content dl; rows ← deleted_rows dls; ret (deleted_row dl c ∷ rows)

-- the loop over the remaining added lines
unfoldable pub added_rows : List GitDiffLine → Run (List IDiffRow)
added_rows [] = ret []
added_rows (al ∷ als) = do c ← content al; rows ← added_rows als; ret (added_row al c ∷ rows)

abbrev pub modified_row : GitDiffLine → GitDiffLine → Text → Text → IDiffRow
modified_row al dl dc ac = row_modified (record {
  before_data = row_data dl dc dl.old_line_number;
  after_data = row_data al ac al.new_line_number;
  hunk_start_line = 0;
})

-- The three loops: pairs of an added and a deleted line, then what is left of either.
unfoldable pub modified_rows : List GitDiffLine → List GitDiffLine → Run (List IDiffRow)
modified_rows (al ∷ als) (dl ∷ dls) = do
  dc ← content dl
  ac ← content al
  rows ← modified_rows als dls
  ret (modified_row al dl dc ac ∷ rows)
modified_rows als [] = added_rows als
modified_rows [] dls = deleted_rows dls

unfoldable pub get_modified_diff_rows : List GitDiffLine → Run (List IDiffRow)
get_modified_diff_rows ls = modified_rows (lines_of_type is_add ls) (lines_of_type is_delete ls)

-- `if len(modifiedLines) > 0 { … }`
abbrev pub flush : List IDiffRow → List GitDiffLine → Run (List IDiffRow)
flush rows [] = ret rows
flush rows (l ∷ ls) = do more ← get_modified_diff_rows (l ∷ ls); ret (rows ++ more)

abbrev pub hunk_row : GitDiffLine → ℕ → IDiffRow
hunk_row line index =
    row_hunk (record { content = line.text; expansion_type = unset; hunk_index = index })

abbrev pub context_row : GitDiffLine → Text → IDiffRow
context_row line c = row_context (record {
  line = empty_data;
  content = c;
  before_line_number = line.old_line_number;
  after_line_number = line.new_line_number;
})

-- what a line that is neither added nor deleted appends
abbrev pub line_rows : ℕ → List IDiffRow → GitDiffLineType → GitDiffLine → Run (List IDiffRow)
line_rows index rows hunk_line line = ret (rows ++ hunk_row line index ∷ [])
line_rows index rows context_line line = do c ← content line; ret (rows ++ context_row line c ∷ [])
line_rows index rows _ line = ret rows

unfoldable pub rows_loop :
    ℕ → List IDiffRow → List GitDiffLine → List GitDiffLine → Run (List IDiffRow)
rows_loop index rows modified_lines [] = flush rows modified_lines
rows_loop index rows modified_lines (line ∷ ls) = elim (is_add line.type || is_delete line.type) [
  | true ↦ rows_loop index rows (modified_lines ++ line ∷ []) ls
  | false ↦ do
    flushed ← flush rows modified_lines
    extended ← line_rows index flushed line.type line
    rows_loop index extended [] ls
]

unfoldable pub get_diff_rows_from_hunk : GitDiffHunk → ℕ → Run (List IDiffRow)
get_diff_rows_from_hunk hunk index = rows_loop index [] [] hunk.lines

unfoldable pub rows_of_hunks : ℕ → List IDiffRow → List GitDiffHunk → Run (List IDiffRow)
rows_of_hunks i rows [] = ret rows
rows_of_hunks i rows (hunk ∷ hunks) = do
  more ← get_diff_rows_from_hunk hunk i
  rows_of_hunks (i + 1) (rows ++ more) hunks

unfoldable pub get_diff_rows_split : GitDiff → Run (List IDiffRow)
get_diff_rows_split gd = rows_of_hunks 0 [] gd.hunks
