-- ===== src/Api/Extract.antt =====
-- The old-style parameters of a request.
use livegrep.Api.{override, override_text, is_regex, parsed_query, Extracted, Params, extract_query}
use livegrep.Prelude.{◌≡◌, refl, inl, inr, true, false, none, some, Option-cases, codes, text_eq}
use livegrep.Query.Build.{ParseResult}
use livegrep.Query.Build.Shape.{parse_query_total}
use livegrep.Query.Types.{empty_query}

-- Where the parameter `q` parses to a result, or is missing and the result is empty, and there is
-- no `fold_case`, `extractQuery` returns that query with line, file and repo replaced by the
-- parameters of these names, quoted unless the request is a regular expression, and the error of
-- the parser.
pub extract_query_fields :
    (params : Params) {r : ParseResult}
    → parsed_query params ≡ some r
    → params (codes "fold_case") ≡ none
    → extract_query params
      ≡ some (record {
        query = record r.query {
          line = override_text params (codes "line") r.query.line;
          file = override_text params (codes "file") r.query.file;
          repo = override_text params (codes "repo") r.query.repo;
        };
        regex = is_regex params;
        error = r.error;
      })
unfolding extract_query
extract_query_fields params e f = rw (e, f)

parsed_query_total : (params : Params) → (r : ParseResult) × (parsed_query params ≡ some r)
parsed_query_total params = elim (Option-cases (params (codes "q"))) [
  | inl n ↦ rw (n, parsed_query) (record { query = empty_query; error = none }, refl)
  | inr (q, e) ↦ rw (e, parsed_query) (parse_query_total q (is_regex params))
]

-- `extractQuery` returns on every request, with the regex flag of the request, and a `fold_case` of
-- true or false decides the case folding.
pub extract_query_total :
    (params : Params)
    → (x : Extracted) × (extract_query params ≡ some x)
      × (x.regex ≡ is_regex params)
      × (params (codes "fold_case") ≡ some (codes "true") → x.query.fold_case ≡ true)
      × (params (codes "fold_case") ≡ some (codes "false") → x.query.fold_case ≡ false)
unfolding extract_query text_eq
extract_query_total params =
    let (r, e) = parsed_query_total params in
    (
      record { query = override params r.query; regex = is_regex params; error = r.error },
      rw e,
      refl,
      λ h. rw h,
      λ h. rw h,
    )
