-- ===== src/Diff/Hunk/Reads.antt =====
-- What it is for a run of lines to be the body of a hunk, and for the scanner to stop behind it: the
-- relation that `parseGitDiffHunk` of `server/fileviewer/fileview.go` decides.
use livegrep.Diff.{
  add_line, delete_line, context_line, no_trailing_newline_line, unknown_line, GitDiffLine,
}
use livegrep.Diff.Header.{match_diff_header, HeaderMatch}
use livegrep.Diff.Hunk.{get_diff_line_type, HunkScanner, added, deleted, context}
use livegrep.GoText.Decimal.{increment}
use livegrep.Prelude.{ℕ, ◌≡◌, ◌≢◌, true, false, none, some, List, [], ◌∷◌, ltb, Text, length}

-- `Reads before after taken new`: from these counters the lines `taken` give the lines `new`.
pub data Reads : ℕ → ℕ → List Text → List GitDiffLine → Type 0 where
  done : {before after : ℕ} → Reads before after [] []
  marker :
      {before after : ℕ} {line : Text} {ts : List Text} {ls : List GitDiffLine}
      → get_diff_line_type line ≡ no_trailing_newline_line
      → ltb (length line) 12 ≡ false
      → Reads before after ts ls
      → Reads before after (line ∷ ts) ls
  addition :
      {before after : ℕ} {line : Text} {ts : List Text} {ls : List GitDiffLine}
      → get_diff_line_type line ≡ add_line
      → Reads before (increment after) ts ls
      → Reads before after (line ∷ ts) (added line after ∷ ls)
  deletion :
      {before after : ℕ} {line : Text} {ts : List Text} {ls : List GitDiffLine}
      → get_diff_line_type line ≡ delete_line
      → Reads (increment before) after ts ls
      → Reads before after (line ∷ ts) (deleted line before ∷ ls)
  unchanged :
      {before after : ℕ} {line : Text} {ts : List Text} {ls : List GitDiffLine}
      → get_diff_line_type line ≡ context_line
      → Reads (increment before) (increment after) ts ls
      → Reads before after (line ∷ ts) (context line before after ∷ ls)

-- `StopsAt rest hs`: the lines `rest` end the hunk, and the scanner is then `hs`.
pub data StopsAt : List Text → HunkScanner → Type 0 where
  at_end : StopsAt [] (record { input = []; next_hunk_header = none })
  at_header :
      {line : Text} {ts : List Text} {m : HeaderMatch}
      → get_diff_line_type line ≡ unknown_line
      → match_diff_header line ≡ some m
      → StopsAt (line ∷ ts) (record { input = ts; next_hunk_header = some line })
  at_unknown :
      {line : Text} {ts : List Text}
      → get_diff_line_type line ≡ unknown_line
      → match_diff_header line ≡ none
      → line ≢ []
      → StopsAt (line ∷ ts) (record { input = ts; next_hunk_header = none })
  at_short_marker :
      {line : Text} {ts : List Text}
      → get_diff_line_type line ≡ no_trailing_newline_line
      → ltb (length line) 12 ≡ true
      → StopsAt (line ∷ ts) (record { input = ts; next_hunk_header = none })
