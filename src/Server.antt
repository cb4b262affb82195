-- ===== src/Server.antt =====
-- The HTTP handlers of `server/server.go`: what they read of the server and of a request, and what they
-- answer. A handler that does not return gives `none` where the result is an option.
pub mod Env
pub mod Experimental
pub mod Revision
pub mod Blob
pub mod Git
pub mod History
pub mod Repos
pub mod Status
pub mod Zoekt
use livegrep.Api.{Params}
use livegrep.Call.{panics, error, value, Call}
use livegrep.Dict.{text_key, number_key, Dict, lookup}
use livegrep.Pages.{RepoConfig}
use livegrep.Prelude.{
  ℕ, zero, suc, ◌+◌, ◌/◌, refl, Bool, true, false, not, Option, none, some, List, [], ◌∷◌, ◌++◌,
  if◌then◌else◌, ◌>>=◌, Text, codes,
}
use livegrep.Runtime.{panic, ret, Run}
use livegrep.Search.Handlers.{get_param}

-- the fields of the struct that the handlers of this model read
pub record Server : Type 0 where
  pub repos : Dict Text RepoConfig
  pub new_repos : Dict Text (Dict Text RepoConfig)
  pub zoekt_repo_cache : Text

-- `params` is `r.URL.Query()`, and `tail` is `pat.Tail` with `r.URL.Path`
pub record Request : Type 0 where
  pub params : Params
  pub path : Text
  pub tail : Text → Text

-- the struct `page` with the name of its template, without what `renderPage` adds
pub record Page {ℓ} (S : Type 0) (D : Type ℓ) : Type ℓ where
  pub template_name : Text
  pub title : Text
  pub script_name : Text
  pub script_data : Option S
  pub include_header : Bool
  pub page_data : D
  pub body_id : Text

abbrev pub plain_page {ℓ} : {D : Type ℓ} → Text → Text → D → Page Unit D
plain_page template title page_data = record {
  template_name = template;
  title = title;
  script_name = [];
  script_data = none;
  include_header = false;
  page_data = page_data;
  body_id = [];
}

-- what is written: the result as JSON with status 200, as a page or as it is; `http.Error` with its text and
-- status; `writeError` with its status, code and message; a text with status 200; or a status alone
pub data Reply {ℓ} (A : Type ℓ) : Type ℓ where
  served : A → Reply A
  http_error : Text → ℕ → Reply A
  api_error : ℕ → Text → Text → Reply A
  written : Text → Reply A
  bare : ℕ → Reply A

-- the value of a call, or what is written at its error
abbrev pub respond {ℓ κ} :
    {A : Type ℓ} {B : Type κ} → Call A → (Text → Reply B) → (A → Run (Reply B)) → Run (Reply B)
respond (value a) refuse serve = serve a
respond (error e) refuse serve = ret (refuse e)
respond (panics r) refuse serve = panic r

abbrev pub has_no_repos : Dict Text RepoConfig → Bool
has_no_repos [] = true
has_no_repos (r ∷ rs) = false

-- the guard of the handlers that look into `s.repos`, with their two messages
abbrev pub repo_or {ℓ} :
    {B : Type ℓ} → Server → Reply B → Reply B → Text → (RepoConfig → Run (Reply B)) → Run (Reply B)
repo_or s disabled unknown name serve =
    if has_no_repos s.repos
    then ret disabled
    else elim (lookup name s.repos) [ none ↦ ret unknown | some repo ↦ serve repo ]

unfoldable pub with_repo {ℓ} :
    {B : Type ℓ} → Server → Text → (RepoConfig → Run (Reply B)) → Run (Reply B)
unfolding lookup
with_repo s name serve =
    repo_or s (http_error (codes "File browsing and git commands not enabled") 404)
      (http_error (codes "No such repo") 404) name serve

abbrev repo_of_parent {ℓ} :
    {B : Type ℓ}
    → Option (Dict Text RepoConfig)
    → Text
    → Reply B
    → Reply B
    → (RepoConfig → Run (Reply B))
    → Run (Reply B)
repo_of_parent none repo no_parent no_repo serve = ret no_parent
repo_of_parent (some m) repo no_parent no_repo serve = elim (lookup repo m) [
  | none ↦ ret no_repo
  | some r ↦ serve r
]

-- the guard of the handlers that look into `s.newRepos`; `say` is how they write their messages
unfoldable pub with_parent {ℓ} :
    {B : Type ℓ}
    → Server
    → (Text → Reply B)
    → Text
    → Text
    → (RepoConfig → Run (Reply B))
    → Run (Reply B)
unfolding lookup
with_parent s say parent repo serve =
    repo_of_parent (lookup parent s.new_repos) repo
      (say (codes "parent: " ++ parent ++ codes " not found\n"))
      (say (codes "repo: " ++ repo ++ codes " not found\n")) serve

abbrev pub full_name : Request → Text
full_name r =
    get_param r.params (codes ":parent") ++ codes "/" ++ get_param r.params (codes ":repo")
