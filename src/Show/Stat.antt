-- ===== src/Show/Stat.antt =====
-- The lines that `ReadBytes` gives, and the statistics of `GitShowCommit` in `server/fileviewer/fileview.go`
-- with the expression `diffStatLineRegex`.
use livegrep.Blame.{is_blank}
use livegrep.Diff.Header.{span_digits}
use livegrep.GoText.Decimal.{increment}
use livegrep.Prelude.{
  ℕ, Option, none, some, List, [], ◌∷◌, ◌++◌, reverse, ◌==◌, if◌then◌else◌, ◌>>=◌, Text,
}

pub record StatLine : Type 0 where
  pub path : Text
  pub lines_changed : Text
  pub graph_string_plus : Text
  pub graph_string_minus : Text
  pub hunk_num : ℕ

pub record DiffStat : Type 0 where
  pub stat_lines : List StatLine
  pub summary_line : Text

abbrev cons_first : ℕ → List Text → List Text
cons_first c [] = []
cons_first c (l ∷ ls) = (c ∷ l) ∷ ls

-- what ReadBytes('\n') gives, call by call, until it fails: a last line without a newline is lost
unfoldable pub full_lines : Text → List Text
full_lines [] = []
full_lines (c ∷ s) =
    let more = full_lines s in if c == 10 then (c ∷ []) ∷ more else cons_first c more

-- what stands in front of the first `c` is dropped
unfoldable pub from_first : ℕ → Text → Text
from_first c [] = []
from_first c (x ∷ s) = if x == c then x ∷ s else from_first c s

-- from the first to the last `c` of the graph
abbrev pub graph_part : ℕ → Text → Text
graph_part c graph = reverse (from_first c (reverse (from_first c graph)))

-- `[^\s]*`, and what is left
unfoldable pub span_word : Text → Text × Text
unfolding is_blank
span_word [] = ([], [])
span_word (c ∷ s) =
    let rest = span_word s in if is_blank c then ([], c ∷ s) else (c ∷ rest.0, rest.1)

unfoldable pub skip_blanks : Text → Text
unfolding is_blank
skip_blanks [] = []
skip_blanks (c ∷ s) = if is_blank c then skip_blanks s else c ∷ s

-- what stands in front of the last `|` of a word, and behind it
unfoldable pub cut_last_bar : Text → Option (Text × Text)
cut_last_bar [] = none
cut_last_bar (c ∷ w) =
    let later = cut_last_bar w in
    elim later [ some r ↦ some (c ∷ r.0, r.1) | none ↦ if c == b'|' then some ([], w) else none ]

abbrev behind_bar : Text → Option Text
behind_bar [] = none
behind_bar (c ∷ s) = if c == b'|' then some s else none

-- `([^\s]*)\s*\|` at the beginning: the word is as long as it can be
unfoldable pub match_path : Text → Option (Text × Text)
unfolding span_word skip_blanks cut_last_bar
match_path s = elim (behind_bar (skip_blanks (span_word s).1)) [
  | some rest ↦ some ((span_word s).0, rest)
  | none ↦ elim (cut_last_bar (span_word s).0) [
    | none ↦ none
    | some r ↦ some (r.0, r.1 ++ (span_word s).1)
  ]
]

-- the first place where it matches
unfoldable pub find_path : Text → Option (Text × Text)
unfolding match_path
find_path [] = none
find_path (c ∷ s) =
    let later = find_path s in elim (match_path (c ∷ s)) [ some r ↦ some r | none ↦ later ]

-- `(.*)`: up to the end of the line
unfoldable pub to_line_end : Text → Text
to_line_end [] = []
to_line_end (c ∷ s) = if c == 10 then [] else c ∷ to_line_end s

-- a line of the statistics by `diffStatLineRegex`
unfoldable pub parse_stat_line : ℕ → Text → Option StatLine
unfolding find_path skip_blanks span_digits to_line_end from_first
parse_stat_line hunk_num line = do
  m ← find_path line
  let number = span_digits (skip_blanks m.1)
  let graph = to_line_end (skip_blanks number.1)
  some (record {
    path = m.0;
    lines_changed = number.0;
    graph_string_plus = graph_part b'+' graph;
    graph_string_minus = graph_part b'-' graph;
    hunk_num = hunk_num;
  })

unfoldable pub parse_stat : ℕ → List StatLine → List Text → DiffStat
unfolding parse_stat_line
parse_stat hunk_num stats [] = record { stat_lines = stats; summary_line = [] }
parse_stat hunk_num stats (line ∷ lines) = elim (parse_stat_line hunk_num line) [
  | none ↦ record { stat_lines = stats; summary_line = line }
  | some stat ↦ parse_stat (increment hunk_num) (stats ++ (stat ∷ [])) lines
]
