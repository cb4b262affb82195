-- ===== src/Tests/DiffViewTests.antt =====
-- Runs of the whole diff parser and of the split view of `server/fileviewer/fileview.go`, and the
-- theorems about them at these diffs.
use livegrep.Diff.{GitDiff, GitDiffHunk, GitDiffLine}
use livegrep.Diff.Header.{
  number_from_group, skip_comma, span_digits, match_number_pair, match_diff_header, to_string,
  parse_git_diff_hunk_header,
}
use livegrep.Diff.Header.RoundTrip.{parse_git_diff_hunk_header-to_string, InRange}
use livegrep.Diff.Hunk.{
  context, added, get_diff_line_type, header_line, deleted, make_hunk, scan_hunk,
  parse_git_diff_hunk,
}
use livegrep.Diff.Rows.{
  IDiffRow, tail_text, added_rows, deleted_rows, modified_rows, rows_loop, get_diff_rows_from_hunk,
  rows_of_hunks, added_row, deleted_row, modified_row, context_row, get_modified_diff_rows,
  hunk_row, get_diff_rows_split,
}
use livegrep.Diff.Rows.Parsed.{get_diff_rows_split-parse}
use livegrep.Diff.Rows.Sides.{lines_side, HasPrefixByte, ShowsLines}
use livegrep.Diff.Rows.Split.{all_lines}
use livegrep.Diff.Unified.{
  parse_hunks, parse_git_diff_header, make_diff, is_binary_line, parse_git_unified_diff,
}
use livegrep.Diff.Unified.RoundTrip.{
  parse_git_unified_diff-render, Matches, render, IsBodyLine, IsPreamble, IsWellFormed, SourceHunk,
}
use livegrep.Diff.Unified.Total.{parse_git_unified_diff_total}
use livegrep.GoText.Decimal.{print_int, atoi}
use livegrep.GoText.Prefix.{has_suffix, strip_prefix, has_prefix}
use livegrep.Prelude.{
  ℕ, ◌≡◌, refl, inl, inr, true, false, Option, some, List, [], ◌∷◌, ◌++◌, arith, Text, codes, All,
}
use livegrep.Runtime.{Run, ret}
use livegrep.Scanner.{Scanner}
use livegrep.Tests.DiffTests.{body, start, first_hunk, first_header}
use mathlib.Core.List.{cons-ne-nil}

-- everything that a run computes with
run : (ℕ → Scanner → Option (Run (Option GitDiff))) × (GitDiff → Run (List IDiffRow))
unfolding parse_git_diff_hunk scan_hunk get_diff_line_type parse_git_diff_hunk_header
    match_diff_header match_number_pair span_digits skip_comma number_from_group atoi strip_prefix
    has_prefix has_suffix is_binary_line parse_git_diff_header parse_hunks parse_git_unified_diff
    get_diff_rows_split rows_of_hunks get_diff_rows_from_hunk rows_loop get_modified_diff_rows
    modified_rows deleted_rows added_rows tail_text to_string print_int
run = (parse_git_unified_diff, get_diff_rows_split)

first-InRange : InRange first_header
first-InRange = record {
  old_start = omega arith;
  old_count = omega arith;
  new_start = omega arith;
  new_count = omega arith;
}

parse_git_diff_hunk_header-to_string_example :
    parse_git_diff_hunk_header (to_string first_header ++ codes " func f()") ≡ some first_header
parse_git_diff_hunk_header-to_string_example =
    parse_git_diff_hunk_header-to_string first_header (codes " func f()") first-InRange

abbrev first_source : SourceHunk
first_source = record { header = first_header; heading = codes " func f()"; body = body }

abbrev preamble : List Text
preamble = codes "diff --git a/x b/x" ∷ codes "--- a/x" ∷ []

preamble_lem : IsPreamble preamble
unfolding run
preamble_lem = ((refl, refl), ((refl, refl), tt))

plus_lem :
    (is_binary_line (codes "+++ b/x") ≡ false) × (has_prefix (codes "+++ b/x") (codes "+++") ≡ true)
unfolding run
plus_lem = (refl, refl)

body_lem : All IsBodyLine body
unfolding run
body_lem = (inl refl, (inl refl, (inl refl, (inl refl, (inr (refl, refl), tt)))))

first-IsWellFormed : IsWellFormed first_source
first-IsWellFormed = record { in_range = first-InRange; body_lines = body_lem }

parse_git_unified_diff-render_example :
    (ks : List GitDiffHunk) × (parse_git_unified_diff 4 (record {
      tokens = preamble ++ (codes "+++ b/x" ∷ render (first_source ∷ first_source ∷ []));
      failed = false;
    })
      ≡ some (ret (some (make_diff false ks))))
    × Matches (first_source ∷ first_source ∷ []) ks
parse_git_unified_diff-render_example =
    parse_git_unified_diff-render 4 false preamble (codes "+++ b/x")
      (first_source ∷ first_source ∷ []) preamble_lem plus_lem.0 plus_lem.1
      (first-IsWellFormed, (first-IsWellFormed, tt))

abbrev whole : Scanner
whole = record { tokens = preamble ++ (codes "+++ b/x" ∷ start.input); failed = false }

abbrev second_hunk : GitDiffHunk
second_hunk =
    make_hunk
      (record { old_start_line = 20; old_line_count = 1; new_start_line = 22; new_line_count = 1 })
      (header_line (codes "@@ -20 +22 @@") ∷ added (codes "+e") 22 ∷ [])

abbrev whole_diff : GitDiff
whole_diff = make_diff false (first_hunk ∷ second_hunk ∷ [])

whole_run : parse_git_unified_diff 1 whole ≡ some (ret (some whole_diff))
unfolding run
whole_run = refl

get_diff_rows_split-parse_example :
    ShowsLines
      (get_diff_rows_split whole_diff)
      (lines_side true (all_lines whole_diff.hunks))
      (lines_side false (all_lines whole_diff.hunks))
get_diff_rows_split-parse_example = get_diff_rows_split-parse 1 whole whole_run

rows_run :
    get_diff_rows_split whole_diff
    ≡ ret (
        hunk_row (header_line (codes "@@ -4,3 +7,2 @@ f")) 0
        ∷ context_row (context (codes " a") 4 7) (codes "a")
        ∷ modified_row (added (codes "+d") 8) (deleted (codes "-b") 5) (codes "b") (codes "d")
        ∷ deleted_row (deleted (codes "-c") 6) (codes "c")
        ∷ hunk_row (header_line (codes "@@ -20 +22 @@")) 1
        ∷ added_row (added (codes "+e") 22) (codes "e")
        ∷ [])
unfolding run
rows_run = refl

abbrev changes : List GitDiffLine
changes = deleted (codes "-b") 5 ∷ deleted (codes "-c") 6 ∷ added (codes "+d") 8 ∷ []

changes_lem : All HasPrefixByte changes
changes_lem = (cons-ne-nil _ _, (cons-ne-nil _ _, (cons-ne-nil _ _, tt)))

parse_git_unified_diff_total_example :
    (r : Run (Option GitDiff)) × (parse_git_unified_diff 1 whole ≡ some r)
parse_git_unified_diff_total_example = parse_git_unified_diff_total 1 whole
