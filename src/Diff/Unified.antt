-- ===== src/Diff/Unified.antt =====
-- `parseGitDiffHeader` and `parseGitUnifiedDiff` of `server/fileviewer/fileview.go`. The loop over the
-- hunks takes fuel; Diff/Unified/Total shows that the fuel given is enough.
pub mod RoundTrip
pub mod Total
use livegrep.Diff.{GitDiffHunk, GitDiff}
use livegrep.Diff.Hunk.{parse_git_diff_hunk, HunkScanner}
use livegrep.GoText.Prefix.{has_suffix, has_prefix}
use livegrep.Prelude.{
  ℕ, zero, suc, ◌+◌, Bool, true, false, ◌&&◌, Option, none, some, List, [], ◌∷◌, ◌++◌,
  if◌then◌else◌, Text, codes, length,
}
use livegrep.Runtime.{panic, ret, Run}
use livegrep.Scanner.{Scanner}

pub record GitDiffHeader : Type 0 where
  pub is_binary : Bool

-- a header, `nil` without an error at the end of the input, or the error of the scanner
pub data HeaderResult : Type 0 where
  found : GitDiffHeader → HeaderResult
  missing failure : HeaderResult

unfoldable pub is_binary_line : Text → Bool
unfolding has_prefix has_suffix
is_binary_line line = has_prefix line (codes "Binary files ") && has_suffix line (codes "differ")

unfoldable pub parse_git_diff_header : Bool → List Text → HeaderResult × List Text
unfolding is_binary_line
parse_git_diff_header failed [] = (if failed then failure else missing, [])
parse_git_diff_header failed (line ∷ ts) = elim (is_binary_line line) [
  | true ↦ (found (record { is_binary = true }), ts)
  | false ↦ elim (has_prefix line (codes "+++")) [
    | true ↦ (found (record { is_binary = false }), ts)
    | false ↦ parse_git_diff_header failed ts
  ]
]

-- The loop over the hunks; `none` means that the fuel ran out.
unfoldable pub parse_hunks :
    ℕ → ℕ → HunkScanner → List GitDiffHunk → Option (Run (List GitDiffHunk))
parse_hunks capacity zero hs hunks = none
parse_hunks capacity (suc fuel) hs hunks = elim (parse_git_diff_hunk capacity hs) [
  | panic reason ↦ some (panic reason)
  | ret p ↦ elim p.hunk [
    | none ↦ some (ret hunks)
    | some k ↦ parse_hunks capacity fuel p.scanner (hunks ++ k ∷ [])
  ]
]

abbrev pub make_diff : Bool → List GitDiffHunk → GitDiff
make_diff binary hunks = record {
  header = [];
  contents = [];
  hunks = hunks;
  is_binary = binary;
  max_line_number = 0;
  has_hidden_bidi_chars = false;
}

abbrev pub finish_diff : Option (Run (List GitDiffHunk)) → Option (Run (Option GitDiff))
finish_diff none = none
finish_diff (some (panic reason)) = some (panic reason)
finish_diff (some (ret hunks)) = some (ret (some (make_diff false hunks)))

-- what follows the header; a binary diff gives `nil`
abbrev pub parse_after_header : ℕ → HeaderResult → List Text → Option (Run (Option GitDiff))
parse_after_header capacity missing ts = some (ret none)
parse_after_header capacity failure ts = some (ret none)
parse_after_header capacity (found h) ts =
    if h.is_binary
    then some (ret none)
    else finish_diff
        (parse_hunks capacity (length ts + 1) (record { input = ts; next_hunk_header = none }) [])

unfoldable pub parse_git_unified_diff : ℕ → Scanner → Option (Run (Option GitDiff))
parse_git_unified_diff capacity input =
    let (h, ts) = parse_git_diff_header input.failed input.tokens in
    parse_after_header capacity h ts
