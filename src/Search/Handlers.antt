-- ===== src/Search/Handlers.antt =====
-- `server/api.go`: the choice of the backend, the calls with the failover to a backup, and the two
-- handlers. A backend is what it answers; the requests to it are the same on every call. What a map
-- range finds first is a parameter, as are the texts of gRPC errors.
pub mod Answers
pub mod NoBackend
pub mod Success
use livegrep.Api.{extract_query, Extracted, Params}
use livegrep.Backend.{is_empty_text}
use livegrep.Dict.{lookup, Dict, text_key}
use livegrep.Prelude.{
  ℕ, Bool, true, false, not, ◌&&◌, Option, none, some, [], ◌++◌, ◌==◌, if◌then◌else◌, Text, codes,
}
use livegrep.Query.Types.{Query, QueryError}
use livegrep.Runtime.{Run, ret, ◌>>=◌}
use livegrep.Search.NextPage.{get_next_page_url}
use livegrep.Search.Reply.{
  make_reply, deref, make_reply_v2, ReplySearch, ReplySearchV2, SearchResponse, Surroundings,
}

-- `grpc.Code(err)`, `grpc.ErrorDesc(err)` and `err.Error()`
pub record RpcError : Type 0 where
  pub code : ℕ
  pub desc : Text
  pub message : Text

pub data Outcome {ℓ} (A : Type ℓ) : Type ℓ where
  done : A → Outcome A
  failed : RpcError → Outcome A

-- the call `Codesearch.Search` of a backend
abbrev pub SearchCall : Type 0
SearchCall = Query → Outcome SearchResponse

pub record SearchBackend : Type 0 where
  pub search : SearchCall
  pub backup : Option SearchCall

-- what a handler answers: a reply with status 200, or a status, a code and a message
pub data Response {ℓ} (A : Type ℓ) : Type ℓ where
  success : A → Response A
  refuse : ℕ → Text → Text → Response A

-- the messages of the errors of `ParseQuery`
abbrev pub query_error_text : QueryError → Text
query_error_text (QueryError.both_synonyms a b) =
    codes "Cannot provide both " ++ a ++ codes ": and " ++ b ++ codes ":, because they are synonyms"
query_error_text (QueryError.term_twice key) = codes "got term twice: " ++ key
query_error_text QueryError.not_contiguous = codes "main search term must be contiguous"
query_error_text QueryError.multiple_patterns =
    codes "You cannot provide multiple of case:, lit:, and a bare regex"
query_error_text QueryError.bad_max_matches =
    codes "Value given to max_matches: must be a valid integer"

-- `getQueryError`; `codes.InvalidArgument` is 3
unfoldable pub get_query_error {ℓ} : {A : Type ℓ} → RpcError → Response A
get_query_error e =
    if e.code == 3
    then refuse 400 (codes "query") e.desc
    else refuse 500 (codes "internal_error") (codes "Talking to backend: " ++ e.message)

-- the calls of `doSearchV2`: the result, and whether it is the backup's
abbrev pub fail_over :
    Query → Outcome SearchResponse → Option SearchCall → Outcome SearchResponse × Bool
fail_over q (done r) backup = (done r, false)
fail_over q (failed e) none = (failed e, false)
fail_over q (failed e) (some backup) = if e.code == 14 then (backup q, true) else (failed e, false)

unfoldable pub search_with_backup : SearchBackend → Query → Outcome SearchResponse × Bool
search_with_backup backend q = fail_over q (backend.search q) backend.backup

abbrev pub kind_text : Bool → Text
kind_text regex = if regex then codes "regex" else codes "string"

abbrev pub no_line : Bool → Text
no_line regex = codes "You must specify a " ++ kind_text regex ++ codes " to match"

abbrev pub with_default : ℕ → Query → Query
with_default default q = if q.max_matches == 0 then record q { max_matches = default } else q

-- `params.Get(key)`
abbrev pub get_param : Params → Text → Text
get_param params key = elim (params key) [ none ↦ [] | some v ↦ v ]

-- `extractQuery` and the guards behind it, up to the call: what to search, or the refusal
unfoldable pub check_query {ℓ} :
    {A : Type ℓ} → ℕ → Extracted → (Query → Run (Response A)) → Run (Response A)
check_query default x search = elim x.error [
  | some e ↦ ret (refuse 400 (codes "bad_query") (query_error_text e))
  | none ↦
      if is_empty_text x.query.line
      then ret (refuse 400 (codes "bad_query") (no_line x.regex))
      else search (with_default default x.query)
]

abbrev pub unknown_backend {ℓ} : {A : Type ℓ} → Text → Run (Response A)
unknown_backend name = ret (refuse 400 (codes "bad_backend") (codes "Unknown backend: " ++ name))

abbrev is_none {ℓ} : {A : Type ℓ} → Option A → Bool
is_none none = true
is_none (some a) = false

-- `first` is what a range over the map meets first; it is `none` where the map is empty
module _ (first : Dict Text SearchBackend → Option SearchBackend) (default : ℕ)
    (env : Surroundings) where
  -- `getBackendFromQuery`
  unfoldable pub get_backend : Dict Text SearchBackend → Text → Option SearchBackend
  get_backend backends name = if is_empty_text name then first backends else lookup name backends

  abbrev pub do_search : Option SearchBackend → Query → Run (Response ReplySearch)
  do_search backend q = do
    b ← deref backend
    elim (b.search q) [
      | failed e ↦ ret (get_query_error e)
      | done found ↦ do r ← make_reply env q found; ret (success r)
    ]

  -- `ServeAPISearch`
  unfoldable pub serve_api_search :
      Dict Text SearchBackend → Params → Option (Run (Response ReplySearch))
  unfolding extract_query
  serve_api_search backends params =
      let name = get_param params (codes ":backend") in
      let backend = get_backend backends name in
      if not (is_empty_text name) && is_none backend
      then some (unknown_backend name)
      else elim (extract_query params) [
        | none ↦ none
        | some x ↦ some (check_query default x (do_search backend))
      ]

  abbrev pub answer_v2 :
      (Text → Text) → Text → Query → Outcome SearchResponse → Bool → Run (Response ReplySearchV2)
  answer_v2 encode current q (failed e) backup_used = ret (get_query_error e)
  answer_v2 encode current q (done found) backup_used = do
    r ← make_reply_v2 env q backup_used found
    ret (success (record r { next_url = get_next_page_url encode current q r.info.exit_reason }))

  abbrev pub do_search_v2 :
      (Text → Text) → Text → SearchBackend → Query → Run (Response ReplySearchV2)
  do_search_v2 encode current backend q =
      answer_v2 encode current q (search_with_backup backend q).0 (search_with_backup backend q).1

  -- `ServerSideAPISearchV2`
  unfoldable pub search_v2 :
      (Text → Text) → Dict Text SearchBackend → Params → Option (Run (Response ReplySearchV2))
  unfolding extract_query
  search_v2 encode backends params =
      let name = get_param params (codes ":backend") in
      elim (get_backend backends name) [
        | none ↦ some (unknown_backend name)
        | some backend ↦ elim (extract_query params) [
          | none ↦ none
          | some x ↦
              some
                (check_query default x (do_search_v2 encode (get_param params (codes "q")) backend))
        ]
      ]
