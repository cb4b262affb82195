-- ===== src/Diff/Header/Range.antt =====
-- The numbers of a parsed hunk header are bit patterns of 64 bits.
use livegrep.Diff.{GitDiffHunkHeader}
use livegrep.Diff.Header.{match_diff_header, number_from_group, parse_git_diff_hunk_header}
use livegrep.GoText.Decimal.{word, atoi}
use livegrep.GoText.Decimal.Bounds.{atoi-lt-word}
use mathlib.Core.Path.{subst}
use livegrep.Prelude.{ℕ, ◌<◌, ◌≡◌, inl, inr, some, arith, Option-cases, bind-eq-some, some-eq, Text}

number_from_group-lt-word : (s : Text) (df : ℕ) → df < word → number_from_group s df < word
unfolding number_from_group
number_from_group-lt-word s df h = elim (Option-cases (atoi s)) [
  | inl e ↦ rw (e, number_from_group) h
  | inr (n, e) ↦ rw (e, number_from_group) (atoi-lt-word s e)
]

pub parse_git_diff_hunk_header-lt-word :
    (line : Text) {h : GitDiffHunkHeader}
    → parse_git_diff_hunk_header line ≡ some h
    → (h.old_start_line < word) × (h.new_start_line < word)
unfolding parse_git_diff_hunk_header
parse_git_diff_hunk_header-lt-word line {h} e =
    let (m, em, eh) = bind-eq-some (match_diff_header line) _ e in
    subst (λ (h : GitDiffHunkHeader). (h.old_start_line < word) × (h.new_start_line < word))
      (some-eq eh)
      (
        number_from_group-lt-word m.old.start 0 (omega arith),
        number_from_group-lt-word m.new.start 0 (omega arith),
      )
