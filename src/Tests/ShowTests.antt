-- ===== src/Tests/ShowTests.antt =====
-- The entries of `git show` at concrete outputs, and instances of the theorems.
use livegrep.Blame.{is_blank}
use livegrep.Diff.Header.{span_digits}
use livegrep.GoText.Decimal.{is_digit}
use livegrep.GoText.Prefix.{has_prefix}
use livegrep.Prelude.{ℕ, ◌≡◌, refl, true, false, List, [], ◌∷◌, Text, codes}
use livegrep.Runtime.{Run, ret, panic, nil_dereference}
use livegrep.Show.Patch.{
  context_type, delete_type, start_patch, PatchState, insert_type, patch_line, ShowDiff, read_patch,
}
use livegrep.Show.Patch.Diffs.{read_patch-lines, bodies, all_texts, headers, all_headers}
use livegrep.Show.Stat.{
  DiffStat, StatLine, full_lines, from_first, to_line_end, cut_last_bar, skip_blanks, span_word,
  match_path, find_path, parse_stat_line, parse_stat,
}

run :
    (PatchState → List Text → Run (List ShowDiff))
    × (ℕ → List StatLine → List Text → DiffStat)
    × (Text → List Text)
unfolding read_patch patch_line has_prefix parse_stat parse_stat_line find_path match_path span_word
    skip_blanks cut_last_bar span_digits is_digit to_line_end from_first is_blank full_lines
run = (read_patch, parse_stat, full_lines)

abbrev patch : Text
patch = codes "diff --git a/x b/x\n--- a/x\n@@ -1 +1 @@\n-a\n+b\n@@ -9 +9 @@\n c\nend"

abbrev shown_diff : ShowDiff
shown_diff = record {
  header = codes "diff --git a/x b/x\n";
  header_lines = codes "--- a/x\n" ∷ [];
  chunk_line = codes "@@ -9 +9 @@\n";
  lines =
      record { line = codes "-a\n"; line_type = delete_type }
      ∷ record { line = codes "+b\n"; line_type = insert_type }
      ∷ record { line = codes " c\n"; line_type = context_type }
      ∷ [];
  hunk_num = 0;
}

-- the first chunk line is lost, and so is a last line without a newline
patch_run : read_patch start_patch (full_lines patch) ≡ ret (shown_diff ∷ [])
unfolding run
patch_run = refl

-- of a path with a blank only the last word is shown
stat_run :
    parse_stat 0 [] (codes " my file.c | 12 ++--\n" ∷ codes " 1 file changed\n" ∷ []) ≡ record {
      stat_lines =
          record {
            path = codes "file.c";
            lines_changed = codes "12";
            graph_string_plus = codes "++";
            graph_string_minus = codes "--";
            hunk_num = 0;
          }
          ∷ [];
      summary_line = codes " 1 file changed\n";
    }
unfolding run
stat_run = refl

read_patch-lines_example :
    (has_prefix (codes "diff") (codes "diff") ≡ true
      → (ds : List ShowDiff) × (read_patch start_patch (codes "diff" ∷ codes "@@" ∷ codes "+b" ∷ [])
          ≡ ret ds)
        × (all_headers ds ≡ headers (codes "diff" ∷ codes "@@" ∷ codes "+b" ∷ []))
        × (all_texts ds ≡ bodies (codes "diff" ∷ codes "@@" ∷ codes "+b" ∷ [])))
    × (has_prefix (codes "diff") (codes "diff") ≡ false
        → read_patch start_patch (codes "diff" ∷ codes "@@" ∷ codes "+b" ∷ [])
          ≡ panic nil_dereference)
read_patch-lines_example = read_patch-lines (codes "diff") (codes "@@" ∷ codes "+b" ∷ [])
