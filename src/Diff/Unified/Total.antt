-- ===== src/Diff/Unified/Total.antt =====
-- The fuel of the loop over the hunks is enough: each hunk uses up a line.
use livegrep.Diff.{GitDiff, GitDiffHunk, GitDiffHunkHeader}
use livegrep.Diff.Header.{parse_git_diff_hunk_header}
use livegrep.Diff.Hunk.{take_header, parse_git_diff_hunk, Parsed, HunkScanner}
use livegrep.Diff.Hunk.Reads.{at_end, at_short_marker, at_unknown, at_header, StopsAt}
use livegrep.Diff.Hunk.Spec.{parse_git_diff_hunk-IsHunk}
use livegrep.Diff.Unified.{
  failure, make_diff, missing, found, parse_after_header, HeaderResult, finish_diff,
  parse_git_diff_header, parse_git_unified_diff, parse_hunks,
}
use livegrep.Prelude.{
  false, ℕ, zero, suc, ◌+◌, ◌≤◌, ◌<◌, ◌≡◌, refl, ap, ◌≢◌, inl, inr, Option, none, some, List, [],
  ◌∷◌, ◌++◌, arith, Bool-cases, Option-cases, Text, length, length-append,
}
use livegrep.Runtime.{panic, ret, Run}
use livegrep.Scanner.{Scanner}

-- the lines that the scanner still holds
abbrev pub lines_left : HunkScanner → ℕ
lines_left hs = length hs.input + elim hs.next_hunk_header [ none ↦ 0 | some line ↦ 1 ]

StopsAt-lines_left :
    {rest : List Text} {hs : HunkScanner} → StopsAt rest hs → lines_left hs ≤ length rest
StopsAt-lines_left at_end = omega arith
StopsAt-lines_left (at_header x y) = omega arith
StopsAt-lines_left (at_unknown x y ne) = omega arith
StopsAt-lines_left (at_short_marker x y) = omega arith

no_header : (h : GitDiffHunkHeader) → parse_git_diff_hunk_header [] ≢ some h
unfolding parse_git_diff_hunk_header
no_header h = cc

take_lines_left :
    (next : Option Text) (ts : List Text) {h : GitDiffHunkHeader}
    → parse_git_diff_hunk_header (take_header (record { input = ts; next_hunk_header = next })).0
      ≡ some h
    → length (take_header (record { input = ts; next_hunk_header = next })).1
      < lines_left (record { input = ts; next_hunk_header = next })
take_lines_left (some line) ts e = omega arith
take_lines_left none [] {h} e = absurd (no_header h e)
take_lines_left none (line ∷ ts) e = omega arith

take_header-lines_left :
    (hs : HunkScanner) {h : GitDiffHunkHeader}
    → parse_git_diff_hunk_header (take_header hs).0 ≡ some h
    → length (take_header hs).1 < lines_left hs
take_header-lines_left hs e = take_lines_left hs.next_hunk_header hs.input e

-- A hunk leaves fewer lines.
pub parse_git_diff_hunk-lines_left :
    (capacity : ℕ) (hs : HunkScanner) {p : Parsed} {k : GitDiffHunk}
    → parse_git_diff_hunk capacity hs ≡ ret p
    → p.hunk ≡ some k
    → lines_left p.scanner < lines_left hs
parse_git_diff_hunk-lines_left capacity hs e ek =
    let o = parse_git_diff_hunk-IsHunk capacity hs e ek in
    omega (
      arith,
      take_header-lines_left hs o.parsed,
      StopsAt-lines_left o.stops,
      ap length o.split,
      length-append o.taken o.rest,
    )

-- With more fuel than lines the loop over the hunks ends: it returns a list of hunks or panics.
pub parse_hunks_total :
    (capacity fuel : ℕ) (hs : HunkScanner) (hunks : List GitDiffHunk)
    → lines_left hs < fuel
    → (r : Run (List GitDiffHunk)) × (parse_hunks capacity fuel hs hunks ≡ some r)
unfolding parse_hunks
parse_hunks_total capacity zero hs hunks h = elim h [ ]
parse_hunks_total capacity (suc fuel) hs hunks h =
    (elim (parse_git_diff_hunk capacity hs)
        as (λ o.
          parse_git_diff_hunk capacity hs ≡ o
          → (r : Run (List GitDiffHunk)) × (parse_hunks capacity (suc fuel) hs hunks ≡ some r)) [
            | panic reason ↦ λ e. (panic reason, rw (e, parse_hunks))
            | ret p ↦ λ e. elim (Option-cases p.hunk) [
              | inl n ↦ (ret hunks, rw (e, parse_hunks, n))
              | inr (k, ek) ↦
                  rw (e, parse_hunks, ek)
                    (parse_hunks_total capacity fuel p.scanner (hunks ++ k ∷ [])
                      (omega (arith, parse_git_diff_hunk-lines_left capacity hs e ek)))
            ]
          ])
      refl

finish_diff_total :
    {o : Option (Run (List GitDiffHunk))} (r : Run (List GitDiffHunk))
    → o ≡ some r
    → (d : Run (Option GitDiff)) × (finish_diff o ≡ some d)
finish_diff_total (ret hunks) e = (ret (some (make_diff false hunks)), rw e)
finish_diff_total (panic reason) e = (panic reason, rw e)

parse_after_header_total :
    (capacity : ℕ) (h : HeaderResult) (ts : List Text)
    → (r : Run (Option GitDiff)) × (parse_after_header capacity h ts ≡ some r)
parse_after_header_total capacity missing ts = (ret none, refl)
parse_after_header_total capacity failure ts = (ret none, refl)
parse_after_header_total capacity (found h) ts = elim (Bool-cases h.is_binary) [
  | inl b ↦ (ret none, rw b)
  | inr b ↦
      let (r, e) =
        parse_hunks_total capacity (length ts + 1) (record { input = ts; next_hunk_header = none })
          [] (omega arith) in
      rw b (finish_diff_total r e)
]

-- `parseGitUnifiedDiff` ends on every input: the fuel it is given never runs out.
pub parse_git_unified_diff_total :
    (capacity : ℕ) (input : Scanner)
    → (r : Run (Option GitDiff)) × (parse_git_unified_diff capacity input ≡ some r)
unfolding parse_git_unified_diff
parse_git_unified_diff_total capacity input =
    parse_after_header_total capacity _ (parse_git_diff_header input.failed input.tokens).1
