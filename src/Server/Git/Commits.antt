-- ===== src/Server/Git/Commits.antt =====
-- `ServeGitLogJson`, from the request to the commits.
use livegrep.Api.{Params}
use livegrep.Call.{map_option, to_option, value}
use livegrep.Dict.{Dict, lookup, text_key, number_key}
use livegrep.GoText.Decimal.{int_lt, print_ℕ, word}
use livegrep.GoText.Decimal.RoundTrip.{magnitude-print_ℕ}
use livegrep.GoText.Prefix.{has_prefix}
use livegrep.Log.Arguments.{CommitOptions}
use livegrep.Log.Arguments.Safe.{requested, read_log_args}
use livegrep.Log.Build.{build_git_log, build_git_log-render_log, log_command, GitLog}
use livegrep.Log.Commits.{GitCommit}
use livegrep.Log.Commits.RoundTrip.{IsLogged, render_log}
use livegrep.Pages.{RepoConfig}
use livegrep.Prelude.{
  ℕ, ◌<◌, ◌≡◌, refl, ap, ◌∙◌, false, Option, some, List, [], ◌∷◌, ◌++◌, arith, Text, codes, length,
  All,
}
use livegrep.Runtime.{ret, Run}
use livegrep.Search.Handlers.{get_param}
use livegrep.Server.{served, full_name, Server, Request, Reply, has_no_repos}
use livegrep.Server.Env.{Env, parse_uint}
use livegrep.Server.Git.{
  with_parsed, with_number, log_reply, number_param, filebrowse_enabled, serve_git_log_json,
}

has_no_repos-lookup :
    (repos : Dict Text RepoConfig) (name : Text) {repo : RepoConfig}
    → lookup name repos ≡ some repo
    → has_no_repos repos ≡ false
unfolding lookup
has_no_repos-lookup [] name e = cc
has_no_repos-lookup (r ∷ rs) name e = refl

parse_uint-print_ℕ : (n : ℕ) → n < word → parse_uint (print_ℕ n) ≡ some n
unfolding parse_uint
parse_uint-print_ℕ n h = rw (parse_uint, magnitude-print_ℕ n) (ground arith)

filebrowse_enabled-lookup :
    (env : Env) (s : Server) (name : Text) {repo : RepoConfig}
    → lookup name s.repos ≡ some repo
    → filebrowse_enabled env s name ≡ value repo
unfolding filebrowse_enabled
filebrowse_enabled-lookup env s name e =
    rw (filebrowse_enabled, has_no_repos-lookup s.repos name e, e) refl

number_param-some :
    (parse_error : Text → Text) (params : Params) (key : Text) (n : ℕ)
    (serve : ℕ → Option (Run (Reply GitLog)))
    → params key ≡ some (print_ℕ n)
    → n < word
    → number_param parse_error params key serve ≡ serve n
number_param-some parse_error params key n serve e h =
    ap (with_number parse_error key serve) e
    ∙ ap (with_parsed parse_error key (print_ℕ n) serve) (parse_uint-print_ℕ n h)

abbrev pub asked : Request → ℕ → ℕ → CommitOptions
asked r first after = record {
  range = get_param r.params (codes "revspec");
  n = first;
  skip_n = after;
  path = get_param r.params (codes "path");
  follow = false;
  name_only = false;
}

-- On a request for a repository of the configuration with `first` and `afterCursor` as the decimal
-- prints of numbers below 2^64, where the revision does not begin with a dash, git writes the log
-- of some commits whenever it reads from the arguments what the request asks for, and the parts of
-- these commits are such as git can separate, `ServeGitLogJson` answers with exactly these commits,
-- and marks the page as the last one where they are fewer than `first`.
pub serve_git_log_json-render_log :
    (env : Env) (s : Server) (r : Request) (repo : RepoConfig) (first after : ℕ)
    (cs : List GitCommit)
    → lookup (full_name r) s.repos ≡ some repo
    → r.params (codes "first") ≡ some (print_ℕ first)
    → r.params (codes "afterCursor") ≡ some (print_ℕ after)
    → first < word
    → after < word
    → has_prefix (get_param r.params (codes "revspec")) (codes "-") ≡ false
    → ((args : List Text)
        → read_log_args args ≡ requested (asked r first after)
        → env.git (log_command repo.path ++ args) ≡ value (render_log cs))
    → All IsLogged cs
    → serve_git_log_json env s r
      ≡ some (ret (served (record { commits = cs; maybe_last_page = int_lt (length cs) first })))
unfolding serve_git_log_json
serve_git_log_json-render_log env s r repo first after cs known e₁ e₂ h₁ h₂ safe git logged =
    let log =
      build_git_log-render_log (λ args. to_option (env.git args)) (asked r first after) repo.path cs
        safe refl (λ args reads. ap to_option (git args reads)) logged in
    let run : ℕ → ℕ → Option (Run (Reply GitLog)) = λ n k.
      map_option (log_reply env.log_error)
        (build_git_log (λ args. to_option (env.git args)) (asked r n k) repo.path) in
    rw (serve_git_log_json, filebrowse_enabled-lookup env s (full_name r) known)
      (number_param-some env.parse_error r.params (codes "first") first
          (λ n. number_param env.parse_error r.params (codes "afterCursor") (run n)) e₁ h₁
        ∙ number_param-some env.parse_error r.params (codes "afterCursor") after (run first) e₂ h₂
        ∙ ap (map_option (log_reply env.log_error)) log)
