-- ===== src/Diff/Header.antt =====
-- `parseGitDiffHunkHeader`, `numberFromGroup` and `GitDiffHunkHeader.toString` of
-- `server/fileviewer/fileview.go`, with the expression `diffHeaderRe`, whose greedy match needs no
-- backtracking: a digit never matches what follows a run of digits.
pub mod Range
pub mod RoundTrip
use livegrep.Diff.{GitDiffHunkHeader}
use livegrep.GoText.Decimal.{is_digit, atoi, print_int}
use livegrep.GoText.Prefix.{strip_prefix}
use livegrep.Prelude.{ℕ, Option, none, some, [], ◌∷◌, ◌++◌, ◌==◌, if◌then◌else◌, ◌>>=◌, Text, codes}

-- `\d*`, and what is left
unfoldable pub span_digits : Text → Text × Text
unfolding is_digit
span_digits [] = ([], [])
span_digits (c ∷ s) =
    let rest = span_digits s in if is_digit c then (c ∷ rest.0, rest.1) else ([], c ∷ s)

-- `,?`
unfoldable pub skip_comma : Text → Text
skip_comma [] = []
skip_comma (c ∷ s) = if c == b',' then s else c ∷ s

pub record NumberPair : Type 0 where
  pub start : Text
  pub count : Text
  pub after : Text

abbrev pair_of : Text → Text → Option NumberPair
pair_of [] r = none
pair_of (d ∷ ds) r =
    let count = span_digits (skip_comma r) in
    some (record { start = d ∷ ds; count = count.0; after = count.1 })

-- `(\d+),?(\d*)`
unfoldable pub match_number_pair : Text → Option NumberPair
unfolding span_digits skip_comma
match_number_pair s = pair_of (span_digits s).0 (span_digits s).1

pub record HeaderMatch : Type 0 where
  pub old : NumberPair
  pub new : NumberPair

-- `diffHeaderRe`: `^@@ -(\d+),?(\d*) \+(\d+),?(\d*) @@`
unfoldable pub match_diff_header : Text → Option HeaderMatch
unfolding strip_prefix
match_diff_header line = do
  r ← strip_prefix (codes "@@ -") line
  old ← match_number_pair r
  r' ← strip_prefix (codes " +") old.after
  new ← match_number_pair r'
  r'' ← strip_prefix (codes " @@") new.after
  some (record { old = old; new = new })

unfoldable pub number_from_group : Text → ℕ → ℕ
unfolding atoi
number_from_group input df = elim (atoi input) [ none ↦ df | some n ↦ n ]

-- `none` is the error `Invalid patch string`
unfoldable pub parse_git_diff_hunk_header : Text → Option GitDiffHunkHeader
unfolding match_diff_header
parse_git_diff_hunk_header line = do
  h ← match_diff_header line
  some (record {
    old_start_line = number_from_group h.old.start 0;
    old_line_count = number_from_group h.old.count 1;
    new_start_line = number_from_group h.new.start 0;
    new_line_count = number_from_group h.new.count 1;
  })

unfoldable pub to_string : GitDiffHunkHeader → Text
unfolding print_int
to_string h =
    codes "@@ -"
    ++ (print_int h.old_start_line
        ++ (b','
            ∷ (print_int h.old_line_count
                ++ (codes " +"
                    ++ (print_int h.new_start_line
                        ++ (b',' ∷ (print_int h.new_line_count ++ codes " @@")))))))
