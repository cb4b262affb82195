-- ===== src/Tests/ApiTests.antt =====
-- The theorems about `server/api.go` and about the entries of `git show` at concrete inputs.
use livegrep.Api.{Extracted, Params, extract_query, override_text, parsed_query}
use livegrep.GoText.Decimal.{atoi}
use livegrep.GoText.Regexp.{quote_meta}
use livegrep.GoText.Space.{trim_space}
use livegrep.GoText.Split.{cut_at, Lacks}
use livegrep.Prelude.{
  ℕ, ◌≡◌, refl, true, Option, none, some, List, [], ◌∷◌, arith, map, if◌then◌else◌, Text, codes,
  text_eq, All,
}
use livegrep.Query.Build.{
  has_upper, choose_line, line_bits, only_one_synonym, build_query, parse_query,
}
use livegrep.Query.Group.{consume_group}
use livegrep.Query.Loop.{round, parse_loop}
use livegrep.Query.Piece.{span_key, match_operator, match_here, find_piece}
use livegrep.Query.Types.{known_tags, get_op, empty_query, Query}
use livegrep.Show.{drop_cr, scan_entries, scan_git_show_entry}
use livegrep.Show.Progress.{scan_entries-terminated, terminated}

run : (Params → Option Extracted) × (ℕ → Text → Option (List Text))
unfolding extract_query parse_query parse_loop round find_piece match_here match_operator span_key
    get_op trim_space build_query only_one_synonym line_bits choose_line has_upper text_eq
    quote_meta known_tags consume_group atoi scan_entries scan_git_show_entry cut_at drop_cr
run = (extract_query, scan_entries)

abbrev request : Params
request k =
    if text_eq k (codes "q")
    then some (codes "foo file:x")
    else if text_eq k (codes "file")
    then some (codes "a.c")
    else if text_eq k (codes "regex")
    then some (codes "false")
    else none

abbrev foo_query : Query
foo_query = record empty_query { line = codes "foo"; file = codes "x"; fold_case = true }

request_lem : parsed_query request ≡ some (record { query = foo_query; error = none })
unfolding run
request_lem = refl

no_fold_case : request (codes "fold_case") ≡ none
unfolding run
no_fold_case = refl

file_run : override_text request (codes "file") (codes "x") ≡ codes "a\\.c"
unfolding run
file_run = refl

abbrev entries : List Text
entries = codes "ab\r" ∷ [] ∷ codes "c" ∷ []

entries_lem : All (Lacks 0) entries
entries_lem = ((refl, (refl, (refl, tt))), (tt, ((refl, tt), tt)))

scan_entries-terminated_example : scan_entries 4 (terminated entries) ≡ some (map drop_cr entries)
scan_entries-terminated_example = scan_entries-terminated entries 4 entries_lem (omega arith)
