-- ===== src/Diff/Header/RoundTrip.antt =====
-- What `toString` writes, `parseGitDiffHunkHeader` reads.
use livegrep.Diff.{GitDiffHunkHeader}
use livegrep.Diff.Header.{
  span_digits, match_number_pair, number_from_group, parse_git_diff_hunk_header, to_string,
}
use livegrep.GoText.Decimal.{half_word, is_digit, print_int}
use livegrep.GoText.Decimal.RoundTrip.{
  IsDigits, print_int-IsDigits, print_int-ne-nil, atoi-print_int,
}
use livegrep.Prelude.{ℕ, ◌<◌, ◌≡◌, refl, ◌≢◌, false, some, [], ◌∷◌, ◌++◌, append_assoc, Text, codes}

-- All four numbers are `int`s that are not negative.
pub record InRange (h : GitDiffHunkHeader) : Type 0 where
  pub old_start : h.old_start_line < half_word
  pub old_count : h.old_line_count < half_word
  pub new_start : h.new_start_line < half_word
  pub new_count : h.new_line_count < half_word

comma_lem : is_digit b',' ≡ false
unfolding is_digit
comma_lem = refl

blank_lem : is_digit b' ' ≡ false
unfolding is_digit
blank_lem = refl

-- Digits in front of a byte that is none are read whole.
span_digits-append :
    (d : Text) (c : ℕ) (r : Text)
    → IsDigits d
    → is_digit c ≡ false
    → span_digits (d ++ (c ∷ r)) ≡ (d, c ∷ r)
unfolding span_digits
span_digits-append [] c r h nd = rw nd
span_digits-append (x ∷ d) c r (hx, h) nd = rw (hx, span_digits-append d c r h nd)

match_number_pair-digits :
    (d e : Text) (c : ℕ) (r : Text)
    → d ≢ []
    → IsDigits d
    → IsDigits e
    → is_digit c ≡ false
    → match_number_pair (d ++ (b',' ∷ (e ++ (c ∷ r))))
      ≡ some (record { start = d; count = e; after = c ∷ r })
unfolding match_number_pair
match_number_pair-digits [] e c r ne hd he nd = absurd (ne refl)
match_number_pair-digits (x ∷ d) e c r ne hd he nd =
    rw (span_digits-append (x ∷ d) b',' (e ++ (c ∷ r)) hd comma_lem, span_digits-append e c r he nd)

match_number_pair-print :
    (a b c : ℕ) (r : Text)
    → a < half_word
    → b < half_word
    → is_digit c ≡ false
    → match_number_pair (print_int a ++ (b',' ∷ (print_int b ++ (c ∷ r))))
      ≡ some (record { start = print_int a; count = print_int b; after = c ∷ r })
match_number_pair-print a b c r ha hb =
    match_number_pair-digits (print_int a) (print_int b) c r (print_int-ne-nil a ha)
      (print_int-IsDigits a ha) (print_int-IsDigits b hb)

number_from_group-print : (n df : ℕ) → n < half_word → number_from_group (print_int n) df ≡ n
unfolding number_from_group
number_from_group-print n df h = rw (atoi-print_int n h, number_from_group)

-- The part of the print that begins at the second blank.
abbrev new_part : GitDiffHunkHeader → Text → Text
new_part h heading =
    print_int h.new_start_line ++ (b',' ∷ (print_int h.new_line_count ++ (codes " @@" ++ heading)))

to_string-append :
    (h : GitDiffHunkHeader) (heading : Text)
    → to_string h ++ heading
      ≡ codes "@@ -"
        ++ (print_int h.old_start_line
            ++ (b',' ∷ (print_int h.old_line_count ++ (codes " +" ++ new_part h heading))))
unfolding to_string
to_string-append h heading = simp append_assoc

-- A header whose four numbers are not negative is read back from what `toString` writes, whatever
-- section heading follows.
pub parse_git_diff_hunk_header-to_string :
    (h : GitDiffHunkHeader) (heading : Text)
    → InRange h
    → parse_git_diff_hunk_header (to_string h ++ heading) ≡ some h
unfolding parse_git_diff_hunk_header
parse_git_diff_hunk_header-to_string h heading v = rw (
  to_string-append h heading,
  match_number_pair-print h.old_start_line h.old_line_count b' ' _ v.old_start v.old_count
      blank_lem,
  match_number_pair-print h.new_start_line h.new_line_count b' ' _ v.new_start v.new_count
      blank_lem,
  number_from_group-print h.old_start_line 0 v.old_start,
  number_from_group-print h.old_line_count 1 v.old_count,
  number_from_group-print h.new_start_line 0 v.new_start,
  number_from_group-print h.new_line_count 1 v.new_count,
)
