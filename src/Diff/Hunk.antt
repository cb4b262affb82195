-- ===== src/Diff/Hunk.antt =====
-- `getDiffLineType`, `HunkScanner` and `parseGitDiffHunk` of `server/fileviewer/fileview.go`.
-- `lines` and `hunk.Lines` are two slices of one array until an `append` to `hunk.Lines` moves the
-- latter to an array of its own, so a write through `lines` is seen in `hunk.Lines` only before that.
-- The capacity of the array behind `lines` is the Go runtime's choice and a parameter here.
pub mod Complete
pub mod Numbering
pub mod Reads
pub mod Sound
pub mod Laws
pub mod Spec
use livegrep.Diff.{
  GitDiffLineType, add_line, delete_line, context_line, no_trailing_newline_line, unknown_line,
  hunk_line, GitDiffLine, GitDiffHunkHeader, unset, GitDiffHunk,
}
use livegrep.Diff.Header.{parse_git_diff_hunk_header, match_diff_header}
use livegrep.GoText.Decimal.{increment}
use livegrep.GoText.Prefix.{has_prefix}
use livegrep.Runtime.{Run, ret, panic, nil_dereference, index_out_of_range, ◌>>=◌}
use livegrep.Scanner.{next_token, rest_tokens}
use livegrep.Prelude.{
  ℕ, Bool, true, false, ◌&&◌, Option, none, some, List, [], ◌∷◌, ◌++◌, ltb, if◌then◌else◌, Text,
  codes, length,
}

unfoldable pub get_diff_line_type : Text → GitDiffLineType
unfolding has_prefix
get_diff_line_type line =
    if has_prefix line (codes "+")
    then add_line
    else if has_prefix line (codes "-")
    then delete_line
    else if has_prefix line (codes " ")
    then context_line
    else if has_prefix line (codes "\\")
    then no_trailing_newline_line
    else unknown_line

pub record HunkScanner : Type 0 where
  pub input : List Text
  pub next_hunk_header : Option Text

-- `lines[0]`, `hunk.Lines`, and whether the two slices still share their array
pub record Buffer : Type 0 where
  pub head : GitDiffLine
  pub hunk_lines : List GitDiffLine
  pub shared : Bool

abbrev pub mark_line : GitDiffLine → GitDiffLine
mark_line l = record l { no_trailing_newline = true }

abbrev pub mark_head : List GitDiffLine → List GitDiffLine
mark_head [] = []
mark_head (l ∷ ls) = mark_line l ∷ ls

-- `lines[len(lines)-1].NoTrailingNewline = true`, where `len(lines)` is 1
abbrev pub mark : Buffer → Buffer
mark b = record b {
  head = mark_line b.head;
  hunk_lines = if b.shared then mark_head b.hunk_lines else b.hunk_lines;
}

-- `hunk.Lines = append(hunk.Lines, *diffLine)`
abbrev pub append_line : ℕ → Buffer → GitDiffLine → Buffer
append_line capacity b l = record b {
  hunk_lines = b.hunk_lines ++ l ∷ [];
  shared = b.shared && ltb (length b.hunk_lines) capacity;
}

abbrev pub added : Text → ℕ → GitDiffLine
added line after = record {
  text = line;
  type = add_line;
  original_line_number = 0;
  old_line_number = 0;
  new_line_number = after;
  no_trailing_newline = false;
}

abbrev pub deleted : Text → ℕ → GitDiffLine
deleted line before = record {
  text = line;
  type = delete_line;
  original_line_number = 0;
  old_line_number = before;
  new_line_number = 0;
  no_trailing_newline = false;
}

abbrev pub context : Text → ℕ → ℕ → GitDiffLine
context line before after = record {
  text = line;
  type = context_line;
  original_line_number = 0;
  old_line_number = before;
  new_line_number = after;
  no_trailing_newline = false;
}

-- Where the loop of `parseGitDiffHunk` leaves the buffer and the scanner.
pub record Scanned : Type 0 where
  pub buffer : Buffer
  pub scanner : HunkScanner

abbrev stop : Buffer → List Text → Option Text → Run Scanned
stop b ts next =
    ret (record { buffer = b; scanner = record { input = ts; next_hunk_header = next } })

-- a line of none of the four known types: `line[0]` of the message panics at an empty line
abbrev stop_unknown : Buffer → Text → List Text → Run Scanned
stop_unknown b line ts = elim (match_diff_header line) [
  | some h ↦ stop b ts (some line)
  | none ↦ elim line [ [] ↦ panic index_out_of_range | c ∷ s ↦ stop b ts none ]
]

-- The loop over the lines of the hunk. `before` and `after` are the two rolling counters.
unfoldable pub scan_hunk : ℕ → ℕ → ℕ → Buffer → List Text → Run Scanned
scan_hunk capacity before after b [] = stop b [] none
scan_hunk capacity before after b (line ∷ ts) = elim (get_diff_line_type line) [
  | unknown_line ↦ stop_unknown b line ts
  | no_trailing_newline_line ↦ elim (ltb (length line) 12) [
    | true ↦ stop b ts none
    | false ↦ scan_hunk capacity before after (mark b) ts
  ]
  | add_line ↦
      scan_hunk capacity before (increment after) (append_line capacity b (added line after)) ts
  | delete_line ↦
      scan_hunk capacity (increment before) after (append_line capacity b (deleted line before)) ts
  | context_line ↦
      scan_hunk capacity (increment before) (increment after)
        (append_line capacity b (context line before after)) ts
  -- `getDiffLineType` gives no other type; `diffLine` would be nil
  | _ ↦ panic nil_dereference
]

abbrev pub header_line : Text → GitDiffLine
header_line line = record {
  text = line;
  type = hunk_line;
  original_line_number = 1;
  old_line_number = 0;
  new_line_number = 0;
  no_trailing_newline = false;
}

abbrev pub start_buffer : Text → Buffer
start_buffer line = record {
  head = header_line line;
  hunk_lines = header_line line ∷ [];
  shared = true;
}

abbrev pub make_hunk : GitDiffHunkHeader → List GitDiffLine → GitDiffHunk
make_hunk h ls = record {
  header = h;
  lines = ls;
  unified_diff_start = 0;
  unified_diff_end = 0;
  expansion_type = unset;
}

-- A hunk, or `nil` once nothing is left, and the scanner behind it.
pub record Parsed : Type 0 where
  pub hunk : Option GitDiffHunk
  pub scanner : HunkScanner

-- the header line is stored, or the next token; then `nextHunkHeader` is empty
abbrev pub take_header : HunkScanner → Text × List Text
take_header hs = elim hs.next_hunk_header [
  | some line ↦ (line, hs.input)
  | none ↦ (next_token hs.input, rest_tokens hs.input)
]

abbrev parse_body : ℕ → Text → List Text → Run Parsed
parse_body capacity [] ts =
    ret (record { hunk = none; scanner = record { input = ts; next_hunk_header = none } })
parse_body capacity (c ∷ s) ts = elim (parse_git_diff_hunk_header (c ∷ s)) [
  -- `header.toString()` is called on the nil header before the error is looked at
  | none ↦ panic nil_dereference
  | some h ↦ do
    r ← scan_hunk capacity h.old_start_line h.new_start_line (start_buffer (c ∷ s)) ts
    ret (record { hunk = some (make_hunk h r.buffer.hunk_lines); scanner = r.scanner })
]

unfoldable pub parse_git_diff_hunk : ℕ → HunkScanner → Run Parsed
parse_git_diff_hunk capacity hs = let (line, ts) = take_header hs in parse_body capacity line ts
