-- ===== src/Templates/DiffRow.antt =====
-- `getDiffRowType` and `getClassFromRowType` of `server/templates/templates.go`.
use livegrep.Diff.Rows.{row_modified, row_context, row_deleted, row_added, row_hunk, IDiffRow}
use livegrep.Prelude.{if◌then◌else◌, Text, codes, text_eq}

unfoldable pub get_diff_row_type : IDiffRow → Text
get_diff_row_type (row_added r) = codes "added"
get_diff_row_type (row_deleted r) = codes "deleted"
get_diff_row_type (row_context r) = codes "context"
get_diff_row_type (row_modified r) = codes "modified"
get_diff_row_type (row_hunk r) = codes "hunk"

unfoldable pub get_class_from_row_type : Text → Text
unfolding text_eq
get_class_from_row_type t = if text_eq t (codes "hunk") then codes "hunk-row" else codes "row"
