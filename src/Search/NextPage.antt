-- ===== src/Search/NextPage.antt =====
-- `getNextPageUrl` of `server/api.go`. The encoding of the parameters of the URL is that of package
-- net/url, and a parameter.
use livegrep.Api.{widen}
use livegrep.GoText.Decimal.{word, print_int}
use livegrep.GoText.Replace.{replace_first}
use livegrep.Prelude.{
  ℕ, ◌*◌, ◌%◌, Bool, true, false, none, some, [], ◌++◌, if◌then◌else◌, Text, codes, text_eq,
}
use livegrep.Query.Types.{Query}

-- strings.Contains
abbrev contains : Text → Text → Bool
contains s t = elim (replace_first t [] s) [ none ↦ false | some r ↦ true ]

-- ` max_matches:%d`
abbrev pub max_matches_term : ℕ → Text
max_matches_term n = codes " max_matches:" ++ print_int n

-- the text of the query on the next page
unfoldable pub next_query : Text → ℕ → Text
unfolding replace_first
next_query current max_matches =
    let next = widen max_matches * 3 % word in
    if contains current (codes " max_matches:")
    then (elim (replace_first (max_matches_term (widen max_matches)) (max_matches_term next)
        current) [ none ↦ current | some t ↦ t ])
    else current ++ max_matches_term next

-- `encode` is `Encode` of the parameters with `q` set to a text
unfoldable pub get_next_page_url : (Text → Text) → Text → Query → Text → Text
unfolding text_eq
get_next_page_url encode current q exit_reason =
    if text_eq exit_reason (codes "NONE")
    then []
    else codes "?" ++ encode (next_query current q.max_matches)
