-- ===== src/Diff/Rows/Parsed.antt =====
-- The split view of a parsed diff never panics.
use livegrep.Diff.{GitDiff, GitDiffHunkHeader, unknown_line, GitDiffHunk, GitDiffLine}
use livegrep.Diff.Header.{parse_git_diff_hunk_header}
use livegrep.Diff.Hunk.{parse_git_diff_hunk, HunkScanner, get_diff_line_type}
use livegrep.Diff.Hunk.Laws.{head-text}
use livegrep.Diff.Hunk.Reads.{done, unchanged, deletion, addition, marker, Reads}
use livegrep.Diff.Hunk.Spec.{parse_git_diff_hunk-IsHunk, IsHunk}
use livegrep.Diff.Rows.{get_diff_rows_split}
use livegrep.Diff.Rows.Sides.{lines_side, ShowsLines, HasPrefixByte}
use livegrep.Diff.Rows.Split.{get_diff_rows_split-ShowsLines, all_lines}
use livegrep.Diff.Unified.{
  parse_git_diff_header, failure, missing, finish_diff, found, parse_after_header, HeaderResult,
  parse_git_unified_diff, parse_hunks,
}
use livegrep.Prelude.{
  ℕ, zero, suc, ◌+◌, ◌≡◌, refl, sym, ◌∙◌, ◌≢◌, inl, inr, true, false, Option, none, some, List, [],
  ◌∷◌, ◌++◌, Bool-cases, Option-cases, some-eq, Text, length, All, All-append,
}
use livegrep.Runtime.{ret-injective, panic, ret, Run}
use livegrep.Scanner.{Scanner}
use mathlib.Core.List.{cons-ne-nil}
use mathlib.Core.Path.{subst}

-- what the parser guarantees of a hunk
abbrev pub IsShowable : GitDiffHunk → Type 0
IsShowable k = All HasPrefixByte k.lines

get_diff_line_type_nil : get_diff_line_type [] ≡ unknown_line
unfolding get_diff_line_type
get_diff_line_type_nil = refl

known-ne-nil : (line : Text) → get_diff_line_type line ≢ unknown_line → line ≢ []
known-ne-nil [] h = absurd (h get_diff_line_type_nil)
known-ne-nil (c ∷ s) h = cons-ne-nil c s

Reads-HasPrefixByte :
    {before after : ℕ} {taken : List Text} {new : List GitDiffLine}
    → Reads before after taken new
    → All HasPrefixByte new
Reads-HasPrefixByte done = tt
Reads-HasPrefixByte (marker x y r) = Reads-HasPrefixByte r
Reads-HasPrefixByte (addition {line} x r) =
    (known-ne-nil line (λ e. cc (sym x ∙ e)), Reads-HasPrefixByte r)
Reads-HasPrefixByte (deletion {line} x r) =
    (known-ne-nil line (λ e. cc (sym x ∙ e)), Reads-HasPrefixByte r)
Reads-HasPrefixByte (unchanged {line} x r) =
    (known-ne-nil line (λ e. cc (sym x ∙ e)), Reads-HasPrefixByte r)

header-ne-nil :
    (line : Text) {h : GitDiffHunkHeader} → parse_git_diff_hunk_header line ≡ some h → line ≢ []
unfolding parse_git_diff_hunk_header
header-ne-nil [] e = cc
header-ne-nil (c ∷ s) e = cons-ne-nil c s

IsHunk-IsShowable :
    {line : Text} {ts : List Text} {k : GitDiffHunk} {hs : HunkScanner}
    → IsHunk line ts k hs
    → IsShowable k
IsHunk-IsShowable {line} o = rw o.lines (
  λ e. header-ne-nil line o.parsed (sym (head-text o.head_kept) ∙ e),
  Reads-HasPrefixByte o.reads,
)

parse_hunks-IsShowable :
    (capacity fuel : ℕ) (hs : HunkScanner) (hunks : List GitDiffHunk) {ks : List GitDiffHunk}
    → All IsShowable hunks
    → parse_hunks capacity fuel hs hunks ≡ some (ret ks)
    → All IsShowable ks
unfolding parse_hunks
parse_hunks-IsShowable capacity zero hs hunks h e = cc
parse_hunks-IsShowable capacity (suc fuel) hs hunks {ks} h e =
    (elim (parse_git_diff_hunk capacity hs)
        as (λ o. parse_git_diff_hunk capacity hs ≡ o → All IsShowable ks) [
          | panic reason ↦ λ x. absurd (cc (let e' = rw (x, parse_hunks) at e in e'))
          | ret p ↦ λ x. elim (Option-cases p.hunk) [
            | inl n ↦
                subst (All IsShowable) (ret-injective (some-eq (rw (x, n, parse_hunks) at e))) h
            | inr (k, ek) ↦
                parse_hunks-IsShowable capacity fuel p.scanner (hunks ++ k ∷ [])
                  (All-append IsShowable hunks (k ∷ []) h
                    (IsHunk-IsShowable (parse_git_diff_hunk-IsHunk capacity hs x ek), tt))
                  (rw (x, ek, parse_hunks) at e)
          ]
        ])
      refl

finish_diff-IsShowable :
    (o : Option (Run (List GitDiffHunk))) {gd : GitDiff}
    → ((ks : List GitDiffHunk) → o ≡ some (ret ks) → All IsShowable ks)
    → finish_diff o ≡ some (ret (some gd))
    → All IsShowable gd.hunks
finish_diff-IsShowable none h e = cc
finish_diff-IsShowable (some (panic reason)) h e = cc
finish_diff-IsShowable (some (ret ks)) h e =
    subst (λ (gd : GitDiff). All IsShowable gd.hunks) (some-eq (ret-injective (some-eq e)))
      (h ks refl)

parse_after_header-IsShowable :
    (capacity : ℕ) (h : HeaderResult) (ts : List Text) {gd : GitDiff}
    → parse_after_header capacity h ts ≡ some (ret (some gd))
    → All IsShowable gd.hunks
parse_after_header-IsShowable capacity missing ts e = cc
parse_after_header-IsShowable capacity failure ts e = cc
parse_after_header-IsShowable capacity (found h) ts e = elim (Bool-cases h.is_binary) [
  | inl b ↦ absurd (cc (let e' = rw b at e in e'))
  | inr b ↦
      finish_diff-IsShowable _ (λ ks x. parse_hunks-IsShowable capacity (length ts + 1) _ [] tt x)
        (rw b at e)
]

-- For every diff that `parseGitUnifiedDiff` returns, `GetDiffRowsSplit` returns without a panic,
-- and each side of its rows lists the lines of that file in all hunks, in order, with their texts
-- and numbers.
pub get_diff_rows_split-parse :
    (capacity : ℕ) (input : Scanner) {gd : GitDiff}
    → parse_git_unified_diff capacity input ≡ some (ret (some gd))
    → ShowsLines
        (get_diff_rows_split gd)
        (lines_side true (all_lines gd.hunks))
        (lines_side false (all_lines gd.hunks))
unfolding parse_git_unified_diff
get_diff_rows_split-parse capacity input {gd} e =
    get_diff_rows_split-ShowsLines gd (
      parse_after_header-IsShowable capacity _ (parse_git_diff_header input.failed input.tokens).1
        e)
