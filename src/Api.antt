-- ===== src/Api.antt =====
-- `extractQuery`, `reverse` and `convertBounds` of `server/api.go`. A request gives for each key of its URL
-- the first value: a key that is there has at least one.
pub mod Extract
use livegrep.GoText.Regexp.{quote_meta}
use livegrep.Prelude.{
  ℕ, ◌+◌, ◌-◌, ◌^◌, Bool, true, false, not, Option, none, some, List, [], ◌∷◌, ◌++◌, ltb,
  if◌then◌else◌, ◌>>=◌, Text, codes, text_eq,
}
use livegrep.Query.Build.{parse_query, ParseResult, has_upper}
use livegrep.Query.Types.{QueryError, empty_query, Query}

abbrev pub Params : Type 0
Params = Text → Option Text

pub record Extracted : Type 0 where
  pub query : Query
  pub regex : Bool
  pub error : Option QueryError

abbrev pub is_regex : Params → Bool
is_regex params = elim (params (codes "regex")) [
  | none ↦ true
  | some re ↦ not (text_eq re (codes "false"))
]

-- the query language, if there is a parameter `q`
abbrev pub parsed_query : Params → Option ParseResult
parsed_query params = elim (params (codes "q")) [
  | none ↦ some (record { query = empty_query; error = none })
  | some q ↦ parse_query q (is_regex params)
]

-- an old-style parameter in place of a field
abbrev pub override_text : Params → Text → Text → Text
override_text params key old = elim (params key) [
  | none ↦ old
  | some v ↦ if is_regex params then v else quote_meta v
]

abbrev pub override_fold_case : Option Text → Query → Query
override_fold_case none q = q
override_fold_case (some fc) q = record q {
  fold_case =
      if text_eq fc (codes "false")
      then false
      else if text_eq fc (codes "true")
      then true
      else not (has_upper q.line);
}

abbrev pub override : Params → Query → Query
override params q = override_fold_case (params (codes "fold_case")) (record q {
  line = override_text params (codes "line") q.line;
  file = override_text params (codes "file") q.file;
  repo = override_text params (codes "repo") q.repo;
})

unfoldable pub extract_query : Params → Option Extracted
unfolding text_eq has_upper quote_meta parse_query
extract_query params = do
  r ← parsed_query params
  some (record { query = override params r.query; regex = is_regex params; error = r.error })

-- the loop of `reverse`, from the end
unfoldable pub reverse_strings : List Text → List Text
reverse_strings [] = []
reverse_strings (s ∷ ss) = reverse_strings ss ++ (s ∷ [])

-- `int(bound.Left)`: an int32, as its 32-bit pattern, becomes an int
abbrev pub widen : ℕ → ℕ
widen n = if ltb n (2 ^ 31) then n else n + (2 ^ 64 - 2 ^ 32)

unfoldable pub convert_bounds : List (ℕ × ℕ) → List (ℕ × ℕ)
convert_bounds [] = []
convert_bounds ((left, right) ∷ bounds) = (widen left, widen right) ∷ convert_bounds bounds
