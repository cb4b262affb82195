-- ===== src/Tests/QueryTests.antt =====
-- `ParseQuery` at every input of `server/query_test.go`.
use livegrep.GoText.Decimal.{atoi}
use livegrep.GoText.Regexp.{quote_meta}
use livegrep.GoText.Space.{trim_space}
use livegrep.Prelude.{◌≡◌, refl, Bool, true, false, Option, none, some, [], Text, codes, text_eq}
use livegrep.Query.Build.{
  has_upper, choose_line, line_bits, only_one_synonym, build_query, ParseResult, parse_query,
}
use livegrep.Query.Group.{consume_group}
use livegrep.Query.Loop.{round, parse_loop}
use livegrep.Query.Piece.{span_key, match_operator, match_here, find_piece}
use livegrep.Query.Types.{
  known_tags, get_op, term_twice, bad_max_matches, QueryError, multiple_patterns, Query,
  empty_query,
}

abbrev of_query : Query → Option ParseResult
of_query q = some (record { query = q; error = none })

abbrev error_of : Option ParseResult → Option QueryError
error_of none = none
error_of (some r) = r.error

-- everything that a run computes with
run : Text → Bool → Option ParseResult
unfolding parse_query parse_loop round find_piece match_here match_operator span_key get_op
    trim_space build_query only_one_synonym line_bits choose_line has_upper text_eq quote_meta
    known_tags consume_group atoi
run = parse_query

abbrev Parses : Text → Bool → Query → Type 0
Parses text regex q = parse_query text regex ≡ of_query q

query_cases_0 :
    Parses (codes "hello") true (record empty_query { line = codes "hello"; fold_case = true })
    × Parses (codes "a b c") true (record empty_query { line = codes "a b c"; fold_case = true })
    × Parses
        (codes "line file:.rb")
        true
        (record empty_query { line = codes "line"; file = codes ".rb"; fold_case = true })
    × Parses (codes " a  ") true (record empty_query { line = codes "a"; fold_case = true })
    × Parses (codes "( a  )") true (record empty_query { line = codes "( a  )"; fold_case = true })
    × Parses (codes "Aa") true (record empty_query { line = codes "Aa"; fold_case = false })
    × Parses (codes "case:abc") true (record empty_query { line = codes "abc"; fold_case = false })
    × Parses
        (codes "case:abc file:^kernel/")
        true
        (record empty_query { line = codes "abc"; fold_case = false; file = codes "^kernel/" })
    × Parses
        (codes "case:abc file:( )")
        true
        (record empty_query { line = codes "abc"; fold_case = false; file = codes "( )" })
unfolding run
query_cases_0 = (refl, refl, refl, refl, refl, refl, refl, refl, refl)

query_cases_1 :
    Parses
      (codes "(  () (   ")
      true
      (record empty_query { line = codes "(  () ("; fold_case = true })
    × Parses
        (codes "a file:\\(")
        true
        (record empty_query { line = codes "a"; file = codes "\\("; fold_case = true })
    × Parses
        (codes "a file:(\\()")
        true
        (record empty_query { line = codes "a"; file = codes "(\\()"; fold_case = true })
    × Parses (codes "(") true (record empty_query { line = codes "("; fold_case = true })
    × Parses
        (codes "(file:)")
        true
        (record empty_query { line = codes "(file:)"; fold_case = true })
    × Parses
        (codes "re tags:kind:function")
        true
        (record empty_query { line = codes "re"; fold_case = true; tags = codes "kind:function" })
    × Parses
        (codes "-file:Godep re")
        true
        (record empty_query { line = codes "re"; not_file = codes "Godep"; fold_case = true })
    × Parses (codes "-file:. -repo:Godep re") true (record empty_query {
      line = codes "re";
      not_file = codes ".";
      not_repo = codes "Godep";
      fold_case = true;
    })
    × Parses
        (codes "-tags:kind:class re")
        true
        (record empty_query { line = codes "re"; not_tags = codes "kind:class"; fold_case = true })
unfolding run
query_cases_1 = (refl, refl, refl, refl, refl, refl, refl, refl, refl)

query_cases_2 :
    Parses (codes "case:foo:") true (record empty_query { line = codes "foo:"; fold_case = false })
    × Parses (codes "lit:.") true (record empty_query { line = codes "\\."; fold_case = false })
    × Parses
        (codes "std::string")
        true
        (record empty_query { line = codes "std::string"; fold_case = true })
    × Parses
        (codes "a max_matches:100")
        true
        (record empty_query { line = codes "a"; fold_case = true; max_matches = 100 })
    × Parses
        (codes "a max_matches:")
        true
        (record empty_query { line = codes "a"; fold_case = true })
    × Parses
        (codes "file:hello")
        true
        (record empty_query { line = codes "hello"; fold_case = true; filename_only = true })
    × Parses
        (codes "file:HELLO")
        true
        (record empty_query { line = codes "HELLO"; fold_case = false; filename_only = true })
    × Parses
        (codes "lit:a( file:b")
        true
        (record empty_query { line = codes "a\\("; file = codes "b"; fold_case = false })
    × Parses
        (codes "lit:a(b file:c")
        true
        (record empty_query { line = codes "a\\(b"; file = codes "c"; fold_case = false })
unfolding run
query_cases_2 = (refl, refl, refl, refl, refl, refl, refl, refl, refl)

query_cases_3 :
    Parses
      (codes "[(] file:\\.c")
      true
      (record empty_query { line = codes "[(]"; file = codes "\\.c"; fold_case = true })
    × Parses
        (codes "[ ] file:\\.c")
        true
        (record empty_query { line = codes "[ ]"; file = codes "\\.c"; fold_case = true })
    × Parses
        (codes "[ \\]] file:\\.c")
        true
        (record empty_query { line = codes "[ \\]]"; file = codes "\\.c"; fold_case = true })
    × Parses
        (codes "a( file:b")
        false
        (record empty_query { line = codes "a\\("; file = codes "b"; fold_case = true })
    × Parses
        (codes "a (file:b")
        false
        (record empty_query { line = codes "a \\(file:b"; fold_case = true })
    × Parses
        (codes "(file:a b")
        false
        (record empty_query { line = codes "\\(file:a b"; fold_case = true })
    × Parses
        (codes "(file:a) b")
        false
        (record empty_query { line = codes "\\(file:a\\) b"; fold_case = true })
    × Parses
        (codes "(file:a repo:b")
        false
        (record empty_query { line = codes "\\(file:a repo:b"; fold_case = true })
    × Parses
        (codes "(file:a) repo:b")
        false
        (record empty_query { line = codes "\\(file:a\\)"; repo = codes "b"; fold_case = true })
unfolding run
query_cases_3 = (refl, refl, refl, refl, refl, refl, refl, refl, refl)

query_cases_4 :
    Parses
      (codes "(file:a) (repo:b)")
      false
      (record empty_query { line = codes "\\(file:a\\) \\(repo:b\\)"; fold_case = true })
    × Parses
        (codes "file:a( b")
        false
        (record empty_query { line = codes "b"; file = codes "a\\("; fold_case = true })
unfolding run
query_cases_4 = (refl, refl)

query_errors :
    (error_of (parse_query (codes "case:a b") true) ≡ some (multiple_patterns))
    × (error_of (parse_query (codes "lit:a b") true) ≡ some (multiple_patterns))
    × (error_of (parse_query (codes "case:a lit:b") true) ≡ some (multiple_patterns))
    × (error_of (parse_query (codes "a max_matches:a") true) ≡ some (bad_max_matches))
    × (error_of (parse_query (codes "a file:b c") true) ≡ some (term_twice []))
    × (error_of (parse_query (codes "a file:((abc()())()) c") true) ≡ some (term_twice []))
unfolding run
query_errors = (refl, refl, refl, refl, refl, refl)
