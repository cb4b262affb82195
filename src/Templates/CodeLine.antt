-- ===== src/Templates/CodeLine.antt =====
-- `CodePart`, `renderCodeLine` and `splitCodeLineIntoParts` of `server/templates/templates.go`. Bounds are
-- `int`s, kept as 64-bit patterns. A length is below 2 ^ 63, so a pattern that is at most a length is
-- not negative.
pub mod Cover
use livegrep.GoText.Decimal.{int_lt}
use livegrep.Prelude.{
  ℕ, ◌-◌, Bool, true, false, ◌&&◌, List, [], ◌∷◌, ◌++◌, leb, if◌then◌else◌, Text, length, take,
  drop,
}
use livegrep.Runtime.{index_out_of_range, slice_out_of_range, Run, ret, panic, ◌>>=◌}

pub record CodePart : Type 0 where
  pub line : Text
  pub is_match : Bool

pub record LineParts : Type 0 where
  pub before : Text
  pub highlighted : Text
  pub after : Text

-- `line[left:right]`
unfoldable pub slice : Text → ℕ → ℕ → Run Text
slice line left right =
    if leb left right && leb right (length line)
    then ret (take (right - left) (drop left line))
    else panic slice_out_of_range

-- `bounds[0]` and `bounds[1]`, then the three slices
unfoldable pub split_code_line_into_parts : Text → List ℕ → Run LineParts
unfolding slice
split_code_line_into_parts line (start ∷ (end ∷ bs)) = do
  before ← slice line 0 start
  highlighted ← slice line start end
  after ← slice line end (length line)
  ret (record { before = before; highlighted = highlighted; after = after })
split_code_line_into_parts line _ = panic index_out_of_range

abbrev pub plain_part : Text → CodePart
plain_part s = record { line = s; is_match = false }

abbrev pub match_part : Text → CodePart
match_part s = record { line = s; is_match = true }

-- the part in front of a match, if the match begins behind `curr_idx`
abbrev pub gap_parts : Text → ℕ → ℕ → Run (List CodePart)
gap_parts line curr_idx left =
    if int_lt curr_idx left
    then (do s ← slice line curr_idx left; ret (plain_part s ∷ []))
    else ret []

-- what follows the last of the bounds
abbrev pub suffix_parts : Text → ℕ → List (ℕ × ℕ) → Run (List CodePart)
suffix_parts line curr_idx [] =
    if int_lt (length line) curr_idx
    then ret []
    else (do s ← slice line curr_idx (length line); ret (plain_part s ∷ []))
suffix_parts line curr_idx (b ∷ bs) = ret []

-- the loop over the bounds
unfoldable pub render_loop : Text → ℕ → List (ℕ × ℕ) → Run (List CodePart)
render_loop line curr_idx [] = ret []
render_loop line curr_idx ((left, right) ∷ bs) = do
  gap ← gap_parts line curr_idx left
  found ← slice line left right
  suffix ← suffix_parts line right bs
  more ← render_loop line right bs
  ret (gap ++ (match_part found ∷ (suffix ++ more)))

unfoldable pub render_code_line : Text → List (ℕ × ℕ) → Run (List CodePart)
render_code_line line bounds = render_loop line 0 bounds
