-- ===== src/Search/Handlers/NoBackend.antt =====
-- A request that names no backend, to a server that has none.
use livegrep.Api.{extract_query, Extracted, Params}
use livegrep.Backend.{is_empty_text}
use livegrep.Dict.{Dict, text_key}
use livegrep.Prelude.{ℕ, ◌≡◌, false, Option, none, some, [], ◌∷◌, Text, codes}
use livegrep.Runtime.{nil_dereference, ret, panic}
use livegrep.Search.Handlers.{
  refuse, get_param, check_query, get_backend, search_v2, serve_api_search, SearchBackend,
}
use livegrep.Search.Reply.{Surroundings}

module _ (first : Dict Text SearchBackend → Option SearchBackend) (default : ℕ) (env : Surroundings)
    (encode : Text → Text) where
  no_backend :
      (backends : Dict Text SearchBackend) (name : Text)
      → name ≡ []
      → first backends ≡ none
      → get_backend first default env backends name ≡ none
  unfolding get_backend
  no_backend backends [] n f = f
  no_backend backends (c ∷ name) n f = cc

  -- On a request that names no backend and has a query with a line, where the range over the
  -- backends meets none, `ServeAPISearch` dereferences a nil backend, while the search of the pages
  -- answers with status 400 and bad_backend.
  pub search-no_backend :
      (backends : Dict Text SearchBackend) (params : Params) (x : Extracted)
      → get_param params (codes ":backend") ≡ []
      → first backends ≡ none
      → extract_query params ≡ some x
      → x.error ≡ none
      → is_empty_text x.query.line ≡ false
      → (serve_api_search first default env backends params ≡ some (panic nil_dereference))
        × (search_v2 first default env encode backends params
            ≡ some (ret (refuse 400 (codes "bad_backend") (codes "Unknown backend: "))))
  unfolding serve_api_search search_v2 check_query
  search-no_backend backends params x n f e err line =
      let b = no_backend backends (get_param params (codes ":backend")) n f in
      (rw (serve_api_search, b, n, e, err, line, b), rw (search_v2, b, n))
