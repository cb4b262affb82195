-- ===== src/Tests/DiffTests.antt =====
-- Runs of `parseGitDiffHunk` of `server/fileviewer/fileview.go` on a small diff, and the theorems about
-- it at that diff.
use livegrep.Diff.{GitDiffHunk, GitDiffHunkHeader}
use livegrep.Diff.Header.{
  number_from_group, skip_comma, span_digits, match_number_pair, match_diff_header,
  parse_git_diff_hunk_header,
}
use livegrep.Diff.Hunk.{
  Parsed, added, context, get_diff_line_type, header_line, deleted, make_hunk, scan_hunk,
  HunkScanner, parse_git_diff_hunk, take_header,
}
use livegrep.Diff.Hunk.Laws.{parse_git_diff_hunk-nil_dereference}
use livegrep.Diff.Hunk.Spec.{parse_git_diff_hunk-IsHunk, IsHunk}
use livegrep.GoText.Decimal.{atoi}
use livegrep.GoText.Prefix.{has_prefix, strip_prefix}
use livegrep.Prelude.{ℕ, ◌≡◌, refl, ◌≢◌, ◌↔◌, none, some, List, [], ◌∷◌, ◌++◌, Text, codes}
use livegrep.Runtime.{index_out_of_range, nil_dereference, Run, ret, panic}

-- everything that a run computes with
run : ℕ → HunkScanner → Run Parsed
unfolding parse_git_diff_hunk scan_hunk get_diff_line_type parse_git_diff_hunk_header
    match_diff_header match_number_pair span_digits skip_comma number_from_group atoi strip_prefix
    has_prefix
run = parse_git_diff_hunk

abbrev no_newline_marker : Text
no_newline_marker = codes "\\ No newline at end of file"

abbrev pub body : List Text
body = codes " a" ∷ codes "-b" ∷ codes "-c" ∷ codes "+d" ∷ no_newline_marker ∷ []

abbrev pub start : HunkScanner
start = record {
  input = codes "@@ -4,3 +7,2 @@ f" ∷ (body ++ codes "@@ -20 +22 @@" ∷ codes "+e" ∷ []);
  next_hunk_header = none;
}

abbrev behind : HunkScanner
behind = record { input = codes "+e" ∷ []; next_hunk_header = some (codes "@@ -20 +22 @@") }

abbrev pub first_header : GitDiffHunkHeader
first_header = record {
  old_start_line = 4;
  old_line_count = 3;
  new_start_line = 7;
  new_line_count = 2;
}

abbrev pub first_hunk : GitDiffHunk
first_hunk = make_hunk first_header (
    header_line (codes "@@ -4,3 +7,2 @@ f")
    ∷ context (codes " a") 4 7
    ∷ deleted (codes "-b") 5
    ∷ deleted (codes "-c") 6
    ∷ added (codes "+d") 8
    ∷ [])

first_run : parse_git_diff_hunk 1 start ≡ ret (record { hunk = some first_hunk; scanner = behind })
unfolding run
first_run = refl

parse_git_diff_hunk-IsHunk_example :
    IsHunk (take_header start).0 (take_header start).1 first_hunk behind
parse_git_diff_hunk-IsHunk_example = parse_git_diff_hunk-IsHunk 1 start first_run refl

abbrev malformed : HunkScanner
malformed = record { input = codes "@@ -x +y @@" ∷ []; next_hunk_header = none }

parse_git_diff_hunk-nil_dereference_example :
    (parse_git_diff_hunk 1 malformed ≡ panic nil_dereference) ↔ (
      ((take_header malformed).0 ≢ [])
      × (parse_git_diff_hunk_header (take_header malformed).0 ≡ none))
parse_git_diff_hunk-nil_dereference_example = parse_git_diff_hunk-nil_dereference 1 malformed

malformed_run : parse_git_diff_hunk 1 malformed ≡ panic nil_dereference
unfolding run
malformed_run = refl

empty_line_run :
    parse_git_diff_hunk 1
      (record { input = codes "@@ -1 +1 @@" ∷ [] ∷ []; next_hunk_header = none })
    ≡ panic index_out_of_range
unfolding run
empty_line_run = refl
