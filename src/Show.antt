-- ===== src/Show.antt =====
-- `dropCR`, `ScanGitShowEntry`, `CommitId.Short` and `isValidDiffLinePrefix` of
-- `server/fileviewer/fileview.go`: the split function of the scanner that reads `git show`.
pub mod Patch
pub mod Progress
pub mod Stat
use livegrep.GoText.Regexp.{contains_byte}
use livegrep.GoText.Split.{cut_at}
use livegrep.Prelude.{
  ℕ, zero, suc, ◌+◌, Bool, true, Option, none, some, List, [], ◌∷◌, leb, ◌==◌, if◌then◌else◌, Text,
  codes, length, take, drop,
}

unfoldable pub drop_cr : Text → Text
drop_cr [] = []
drop_cr (c ∷ []) = if c == b'\r' then [] else c ∷ []
drop_cr (c ∷ (d ∷ s)) = c ∷ drop_cr (d ∷ s)

-- `token` is nil where the function asks for more data
pub record SplitResult : Type 0 where
  pub advance : ℕ
  pub token : Option Text

-- the results without a NUL byte in the data
abbrev pub at_end_of_data : Text → Bool → SplitResult
at_end_of_data s at_eof =
    if at_eof
    then record { advance = length s; token = some (drop_cr s) }
    else record { advance = 0; token = none }

unfoldable pub scan_git_show_entry : Text → Bool → SplitResult
unfolding cut_at drop_cr
scan_git_show_entry [] at_eof = record { advance = 0; token = none }
scan_git_show_entry (c ∷ s) at_eof = elim (cut_at 0 (c ∷ s)) [
  | some r ↦ record { advance = length r.0 + 1; token = some (drop_cr r.0) }
  | none ↦ at_end_of_data (c ∷ s) at_eof
]

-- a token in front of those behind it; no token ends the loop
abbrev pub push_token : Option Text → Option (List Text) → Option (List Text)
push_token none rest = some []
push_token (some t) none = none
push_token (some t) (some ts) = some (t ∷ ts)

-- The tokens of the scanner once all data is there; `none` means that the fuel ran out.
unfoldable pub scan_entries : ℕ → Text → Option (List Text)
scan_entries zero s = none
scan_entries (suc fuel) s =
    push_token (scan_git_show_entry s true).token
      (scan_entries fuel (drop (scan_git_show_entry s true).advance s))

-- `CommitId.Short`
unfoldable pub short : Text → Text
short c = if leb 7 (length c) then take 7 c else c

abbrev pub line_prefixes : Text
line_prefixes = codes " -+\\"

unfoldable pub is_valid_diff_line_prefix : ℕ → Bool
unfolding contains_byte
is_valid_diff_line_prefix c = contains_byte c line_prefixes
