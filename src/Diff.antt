-- ===== src/Diff.antt =====
-- Unified diffs of `server/fileviewer/fileview.go`: the types of a parsed diff. The hunk header is in
-- Diff/Header, the body of a hunk in Diff/Hunk, the whole diff in Diff/Unified, and the rows of the
-- split view in Diff/Rows. Line numbers are `int`s, kept as their 64-bit patterns.
pub mod Header
pub mod Hunk
pub mod Rows
pub mod Unified
use livegrep.Prelude.{ℕ, Bool, List, Text}

pub data GitDiffLineType : Type 0 where
  context_line add_line delete_line hunk_line no_trailing_newline_line unknown_line modified_line :
      GitDiffLineType

pub record GitDiffLine : Type 0 where
  pub text : Text
  pub type : GitDiffLineType
  pub original_line_number : ℕ
  pub old_line_number : ℕ
  pub new_line_number : ℕ
  pub no_trailing_newline : Bool

pub record GitDiffHunkHeader : Type 0 where
  pub old_start_line : ℕ
  pub old_line_count : ℕ
  pub new_start_line : ℕ
  pub new_line_count : ℕ

-- `unset` is the zero value, which none of the five constants has.
pub data DiffHunkExpansionType : Type 0 where
  unset not_expandable up down both short : DiffHunkExpansionType

pub record GitDiffHunk : Type 0 where
  pub header : GitDiffHunkHeader
  pub lines : List GitDiffLine
  pub unified_diff_start : ℕ
  pub unified_diff_end : ℕ
  pub expansion_type : DiffHunkExpansionType

pub record GitDiff : Type 0 where
  pub header : Text
  pub contents : Text
  pub hunks : List GitDiffHunk
  pub is_binary : Bool
  pub max_line_number : ℕ
  pub has_hidden_bidi_chars : Bool
