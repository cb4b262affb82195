-- ===== src/Query/Build.antt =====
-- `onlyOneSynonym`, the part of `ParseQuery` of `server/query.go` behind its loop, and `ParseQuery`.
pub mod Plain
pub mod Shape
use livegrep.GoText.Decimal.{atoi}
use livegrep.GoText.Regexp.{quote_meta}
use livegrep.GoText.Space.{trim_space}
use livegrep.Prelude.{
  ◌+◌, ◌%◌, ◌^◌, Bool, true, false, not, ◌&&◌, ◌||◌, Option, none, some, List, [], ◌∷◌, ◌++◌, leb,
  if◌then◌else◌, Text, codes, length,
}
use livegrep.Query.Loop.{parsed, start_state, is_empty, parse_loop, rejected, LoopResult}
use livegrep.Query.Types.{
  is_given, bad_max_matches, both_synonyms, QueryError, empty_query, multiple_patterns, op_text,
  Lookup, get_op, Query,
}

pub record ParseResult : Type 0 where
  pub query : Query
  pub error : Option QueryError

-- `none` is the error that both are given
unfoldable pub only_one_synonym : Lookup → Text → Text → Option Text
only_one_synonym ops op1 op2 =
    if not (is_empty (op_text ops op1)) && not (is_empty (op_text ops op2))
    then none
    else if not (is_empty (op_text ops op1))
    then some (op_text ops op1)
    else some (op_text ops op2)

-- what one round of the loop over `""`, `case` and `lit` appends to `bits`
abbrev bit : Bool → Lookup → Text → Bool → List Text
bit global_regex ops k is_lit =
    let trimmed = trim_space (op_text ops k) in
    let quoted = if is_lit || not global_regex then quote_meta trimmed else trimmed in
    if is_empty quoted then [] else quoted ∷ []

unfoldable pub line_bits : Bool → Lookup → List Text
line_bits global_regex ops =
    bit global_regex ops [] false
    ++ (bit global_regex ops (codes "case") false ++ bit global_regex ops (codes "lit") true)

abbrev quoted_unless : Bool → Text → Text
quoted_unless global_regex t = if not global_regex then quote_meta t else t

abbrev quote_fields : Bool → Query → Query
quote_fields global_regex q = record q {
  file = quoted_unless global_regex q.file;
  not_file = quoted_unless global_regex q.not_file;
  repo = quoted_unless global_regex q.repo;
  not_repo = quoted_unless global_regex q.not_repo;
}

-- a query with no line searches for file names, or for the names of trees
unfoldable pub choose_line : Query → Query
choose_line q =
    if is_empty q.line && not (is_empty q.file)
    then record q { line = q.file; file = []; filename_only = true }
    else if is_empty q.line && not (is_empty q.repo)
    then record q { line = q.repo; repo = []; treename_only = true }
    else q

unfoldable pub has_upper : Text → Bool
has_upper [] = false
has_upper (c ∷ s) = if leb b'A' c && leb c b'Z' then true else has_upper s

abbrev choose_case : Lookup → Query → Query
choose_case ops q = record q {
  fold_case =
      if is_given ops (codes "case")
      then false
      else if is_given ops (codes "lit")
      then false
      else not (has_upper q.line);
}

abbrev pub done : Query → ParseResult
done q = record { query = q; error = none }

abbrev pub fail : Query → QueryError → ParseResult
fail q e = record { query = q; error = some e }

-- `int32(i)` keeps the low 32 bits
abbrev choose_max_matches : Lookup → Query → ParseResult
choose_max_matches ops q =
    if is_empty (op_text ops (codes "max_matches"))
    then done (record q { max_matches = 0 })
    else elim (atoi (op_text ops (codes "max_matches"))) [
      | some i ↦ done (record q { max_matches = i % 2 ^ 32 })
      | none ↦ fail q bad_max_matches
    ]

-- from the first bit on
abbrev pub build_line : Bool → Lookup → Query → List Text → ParseResult
build_line global_regex ops q [] =
    choose_max_matches ops (choose_case ops (choose_line (quote_fields global_regex q)))
build_line global_regex ops q (b ∷ []) =
    choose_max_matches ops
      (choose_case ops (choose_line (quote_fields global_regex (record q { line = b }))))
build_line global_regex ops q (b ∷ b' ∷ bs) = fail q multiple_patterns

abbrev with_file : Lookup → Text → Query
with_file ops file = record empty_query {
  file = file;
  repo = op_text ops (codes "repo");
  tags = op_text ops (codes "tags");
}

abbrev with_not_file : Lookup → Query → Text → Query
with_not_file ops q not_file = record q {
  not_file = not_file;
  not_repo = op_text ops (codes "-repo");
  not_tags = op_text ops (codes "-tags");
}

-- `ParseQuery` behind its loop
unfoldable pub build_query : Bool → Lookup → ParseResult
build_query global_regex ops = elim (only_one_synonym ops (codes "file") (codes "path")) [
  | none ↦ fail empty_query (both_synonyms (codes "file") (codes "path"))
  | some file ↦ elim (only_one_synonym ops (codes "-file") (codes "-path")) [
    | none ↦ fail (with_file ops file) (both_synonyms (codes "-file") (codes "-path"))
    | some not_file ↦
        build_line global_regex ops (with_not_file ops (with_file ops file) not_file)
          (line_bits global_regex ops)
  ]
]

abbrev pub of_loop : Bool → Option LoopResult → Option ParseResult
of_loop global_regex none = none
of_loop global_regex (some (rejected e)) = some (fail empty_query e)
of_loop global_regex (some (parsed ops)) = some (build_query global_regex (get_op ops))

-- `none` would mean that the fuel ran out
unfoldable pub parse_query : Text → Bool → Option ParseResult
parse_query query global_regex =
    let q = trim_space query in
    of_loop global_regex (parse_loop (length q + 1) global_regex (start_state global_regex q))
