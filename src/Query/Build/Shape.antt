-- ===== src/Query/Build/Shape.antt =====
-- The shape of every query that `ParseQuery` of `server/query.go` accepts.
use livegrep.GoText.Decimal.{atoi}
use livegrep.GoText.Space.{trim_space}
use livegrep.Prelude.{
  ◌+◌, ◌^◌, ◌<◌, ◌≡◌, refl, ap, ◌∙◌, ◌≢◌, inl, inr, Bool, true, false, ◌&&◌, Option, none, some,
  List, [], ◌∷◌, arith, Bool-cases, Option-cases, some-eq, Text, codes, length,
}
use livegrep.Query.Build.{
  fail, line_bits, with_file, choose_case, of_loop, quote_fields, with_not_file, ParseResult,
  build_line, choose_max_matches, only_one_synonym, build_query, parse_query, choose_line,
}
use livegrep.Query.Loop.{parsed, start_state, is_empty, rejected, parse_loop, LoopResult}
use livegrep.Query.Loop.Total.{parse_loop_total}
use livegrep.Query.Types.{Lookup, get_op, empty_query, op_text, Query}
use mathlib.Core.Path.{subst}

-- A query searches lines, or file names, or tree names. The two latter take the place of an empty
-- line, and then nothing is left of the field whose text they took.
pub record IsSearchable (q : Query) : Type 0 where
  pub one_kind : (q.filename_only && q.treename_only) ≡ false
  pub by_file : q.filename_only ≡ true → (q.file ≡ []) × (q.line ≢ [])
  pub by_tree : q.treename_only ≡ true → (q.repo ≡ []) × (q.file ≡ []) × (q.line ≢ [])
  pub no_line : q.line ≡ [] → (q.file ≡ []) × (q.repo ≡ [])
  pub max_matches_fits : q.max_matches < 2 ^ 32

-- the flags of a query on which `choose_line` was not called yet
abbrev IsFresh : Query → Type 0
IsFresh q = (q.filename_only ≡ false) × (q.treename_only ≡ false) × (q.max_matches ≡ 0)

choose_line-IsSearchable : (q : Query) → IsFresh q → IsSearchable (choose_line q)
unfolding choose_line
choose_line-IsSearchable q h = record {
  one_kind = ground arith;
  by_file = λ e. ground arith;
  by_tree = λ e. ground arith;
  no_line = λ e. ground arith;
  max_matches_fits = ground arith;
}

-- The last steps change only the case folding and the number of matches.
choose_max_matches-IsSearchable :
    (ops : Lookup) (q : Query)
    → IsSearchable q
    → (choose_max_matches ops (choose_case ops q)).error ≡ none
    → IsSearchable (choose_max_matches ops (choose_case ops q)).query
choose_max_matches-IsSearchable ops q v e =
    elim (Bool-cases (is_empty (op_text ops (codes "max_matches")))) [
      | inl x ↦ rw x (record {
        one_kind = v.one_kind;
        by_file = v.by_file;
        by_tree = v.by_tree;
        no_line = v.no_line;
        max_matches_fits = omega arith;
      })
      | inr x ↦ elim (Option-cases (atoi (op_text ops (codes "max_matches")))) [
        | inl y ↦ absurd (cc (let e' = rw (x, y) at e in e'))
        | inr (i, y) ↦
            rw (x, y)
              (record {
                one_kind = v.one_kind;
                by_file = v.by_file;
                by_tree = v.by_tree;
                no_line = v.no_line;
                max_matches_fits = omega arith;
              })
      ]
    ]

build_line-IsSearchable :
    (global_regex : Bool) (ops : Lookup) (q : Query) (bits : List Text)
    → IsFresh q
    → (build_line global_regex ops q bits).error ≡ none
    → IsSearchable (build_line global_regex ops q bits).query
build_line-IsSearchable global_regex ops q [] h e =
    choose_max_matches-IsSearchable ops _ (choose_line-IsSearchable (quote_fields global_regex q) h)
      e
build_line-IsSearchable global_regex ops q (b ∷ []) h e =
    choose_max_matches-IsSearchable ops _
      (choose_line-IsSearchable (quote_fields global_regex (record q { line = b })) h) e
build_line-IsSearchable global_regex ops q (b ∷ b' ∷ bs) h e = cc

build_query-IsSearchable :
    (global_regex : Bool) (ops : Lookup)
    → (build_query global_regex ops).error ≡ none
    → IsSearchable (build_query global_regex ops).query
unfolding build_query
build_query-IsSearchable global_regex ops e =
    elim (Option-cases (only_one_synonym ops (codes "file") (codes "path"))) [
      | inl x ↦ absurd (cc (let e' = rw (x, build_query) at e in e'))
      | inr (file, x) ↦ elim (Option-cases (only_one_synonym ops (codes "-file") (codes "-path"))) [
        | inl y ↦ absurd (cc (let e' = rw (x, y, build_query) at e in e'))
        | inr (not_file, y) ↦
            rw (x, y, build_query)
              (build_line-IsSearchable global_regex ops
                (with_not_file ops (with_file ops file) not_file) (line_bits global_regex ops)
                (refl, refl, refl) (rw (x, y, build_query) at e))
      ]
    ]

of_loop-IsSearchable :
    (global_regex : Bool) (o : Option LoopResult) {r : ParseResult}
    → of_loop global_regex o ≡ some r
    → r.error ≡ none
    → IsSearchable r.query
of_loop-IsSearchable global_regex none e x = cc
of_loop-IsSearchable global_regex (some (rejected y)) e x =
    absurd (cc (ap (λ (r : ParseResult). r.error) (some-eq e)))
of_loop-IsSearchable global_regex (some (parsed ops)) e x =
    subst (λ (r : ParseResult). IsSearchable r.query) (some-eq e)
      (build_query-IsSearchable global_regex (get_op ops)
        (ap (λ (r : ParseResult). r.error) (some-eq e) ∙ x))

-- Every query that `ParseQuery` returns without an error searches one kind of thing, has an empty
-- line only if it has neither file nor repo, and keeps no field whose text it took as its line.
pub parse_query-IsSearchable :
    (text : Text) (global_regex : Bool) {r : ParseResult}
    → parse_query text global_regex ≡ some r
    → r.error ≡ none
    → IsSearchable r.query
unfolding parse_query
parse_query-IsSearchable text global_regex e x = of_loop-IsSearchable global_regex _ e x

-- `ParseQuery` returns on every input: the fuel that its loop is given never runs out.
pub parse_query_total :
    (text : Text) (global_regex : Bool)
    → (r : ParseResult) × (parse_query text global_regex ≡ some r)
unfolding parse_query
parse_query_total text global_regex = of_loop_total (
    parse_loop_total (length (trim_space text) + 1) global_regex
      (start_state global_regex (trim_space text)) (omega arith))
  where
    of_loop_total :
        (p : (l : LoopResult) × (parse_loop
              (length (trim_space text) + 1)
              global_regex
              (start_state global_regex (trim_space text))
            ≡ some l))
        → (r : ParseResult) × (of_loop global_regex (
              parse_loop
                (length (trim_space text) + 1)
                global_regex
                (start_state global_regex (trim_space text)))
            ≡ some r)
    of_loop_total (parsed ops, e) = (build_query global_regex (get_op ops), rw e)
    of_loop_total (rejected x, e) = (fail empty_query x, rw e)
