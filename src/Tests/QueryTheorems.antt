-- ===== src/Tests/QueryTheorems.antt =====
-- The theorems about `ParseQuery` of `server/query.go` at concrete queries.
use livegrep.GoText.Decimal.{atoi}
use livegrep.GoText.Regexp.{quote_meta}
use livegrep.GoText.Space.{trim_space}
use livegrep.Prelude.{
  ◌≡◌, refl, Bool, true, false, Option, none, some, [], ◌∷◌, Text, codes, text_eq, All,
}
use livegrep.Query.Build.{
  choose_line, line_bits, only_one_synonym, has_upper, build_query, done, ParseResult, parse_query,
}
use livegrep.Query.Build.Shape.{parse_query-IsSearchable, parse_query_total, IsSearchable}
use livegrep.Query.Group.{consume_group}
use livegrep.Query.Loop.{round, parse_loop}
use livegrep.Query.Piece.{span_key, match_operator, match_here, paren, find_piece}
use livegrep.Query.Terms.{Distinct, IsTerm}
use livegrep.Query.Terms.RoundTrip.{parse_query-render_terms}
use livegrep.Query.Types.{known_tags, get_op, empty_query, Ops, Query}
use mathlib.Core.List.{cons-ne-nil}

-- everything that a run computes with
run : Text → Bool → Option ParseResult
unfolding parse_query parse_loop round find_piece match_here match_operator span_key get_op
    trim_space build_query only_one_synonym line_bits choose_line has_upper text_eq quote_meta
    known_tags consume_group atoi
run = parse_query

abbrev two_terms : Ops
two_terms = (codes "file", codes "main.go") ∷ (codes "-repo", codes "linux") ∷ []

two_terms_lem : All IsTerm two_terms
unfolding run
two_terms_lem = (
  record {
    known = refl;
    plain = (refl, (refl, (refl, (refl, (refl, (refl, (refl, tt)))))));
    value_ne_nil = cons-ne-nil _ _;
  },
  (
    record {
      known = refl;
      plain = (refl, (refl, (refl, (refl, (refl, tt)))));
      value_ne_nil = cons-ne-nil _ _;
    },
    tt,
  ),
)

two_terms-Distinct : Distinct two_terms
unfolding run
two_terms-Distinct = (refl, (refl, tt))

parse_query-render_terms_example :
    parse_query (codes "file:main.go -repo:linux") true ≡ some (build_query true (get_op two_terms))
parse_query-render_terms_example =
    parse_query-render_terms true (codes "file", codes "main.go")
      ((codes "-repo", codes "linux") ∷ []) two_terms_lem two_terms-Distinct

abbrev tree_query : Query
tree_query = record empty_query { line = codes "linux"; treename_only = true; fold_case = true }

tree_run : parse_query (codes " repo:linux ") true ≡ some (done tree_query)
unfolding run
tree_run = refl

parse_query-IsSearchable_example : IsSearchable tree_query
parse_query-IsSearchable_example =
    parse_query-IsSearchable (codes " repo:linux ") true tree_run refl

parse_query_total_example :
    (r : ParseResult) × (parse_query (codes "a file:(b c) d") false ≡ some r)
parse_query_total_example = parse_query_total (codes "a file:(b c) d") false

plain_lem : find_piece true (trim_space (codes " a+B ")) ≡ none
unfolding run
plain_lem = refl

find_piece_run :
    find_piece true (codes "ab(c")
    ≡ some (record { before = codes "ab"; piece = paren; after = codes "c" })
unfolding run
find_piece_run = refl
