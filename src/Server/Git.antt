-- ===== src/Server/Git.antt =====
-- The handlers of `server/server.go` that run git in a repository of the configuration: `ServeGitShow`,
-- `ServeGitBlameJson`, `ServeSimpleGitLogJson`, `ServeGitLogJson`, `ServeGitLsTreeJson`
-- and `ServeGitLsTreeRendered`.
pub mod Commits
pub mod Confined
use livegrep.Api.{Params}
use livegrep.Backend.{is_empty_text}
use livegrep.Blame.{BlameState}
use livegrep.Blame.Chunk.{never, panicked, reported, blamed, BlameOutcome, git_blame_blob}
use livegrep.Call.{to_option, map_option, Call, value, error, panics, ◌>>=◌, of_run}
use livegrep.Dict.{lookup, text_key, number_key}
use livegrep.Directory.Tree.{TreeNode}
use livegrep.Log.Build.{no_log, page, GitLog, build_git_log, LogResult, LogError}
use livegrep.Pages.{RepoConfig}
use livegrep.Pages.Commands.{directory_tree}
use livegrep.Pages.SimpleLog.{build_simple_git_log_data, SimpleGitLog}
use livegrep.Prelude.{
  ℕ, zero, suc, ◌+◌, ◌-◌, ◌/◌, ◌%◌, refl, Bool, true, false, not, Option, none, some, List, [], ◌∷◌,
  ◌++◌, if◌then◌else◌, Text, codes,
}
use livegrep.Templates.Tree.{render_directory_tree, root_padding}
use livegrep.Runtime.{nil_dereference, panic, ret, Run}
use livegrep.Search.Handlers.{get_param}
use livegrep.Server.{
  plain_page, api_error, bare, http_error, served, respond, Page, has_no_repos, Reply, full_name,
  with_repo, Server, Request,
}
use livegrep.Server.Env.{parse_uint, Env}
use livegrep.Show.Patch.{GitShow, git_show}

abbrev pub show_args : Text → Text → List Text
show_args repo_path commit =
    codes "-C"
    ∷ repo_path
    ∷ codes "show"
    ∷ commit
    ∷ codes "--patch-with-stat"
    ∷ codes "--pretty=format:%H%x00%h%x00%P%x00%p%x00%an%x00%ae%x00%s%x00%ai%x00%b%x00"
    ∷ codes "-z"
    ∷ codes "--first-parent"
    ∷ codes "--diff-algorithm=histogram"
    ∷ []

abbrev pub set_link_prefix : Request → SimpleGitLog → SimpleGitLog
set_link_prefix r log = record log { commit_link_prefix = codes "/delve/" ++ full_name r }

-- a list of results as options for `BuildGitLog`
abbrev pub log_reply : (LogError → Text) → LogResult → Run (Reply GitLog)
log_reply log_error (page log) = ret (served log)
log_reply log_error (no_log e) = ret (http_error (log_error e) 500)

-- a number that was parsed, or the error of the parser
abbrev pub with_parsed {ℓ} :
    {B : Type ℓ}
    → (Text → Text)
    → Text
    → Text
    → (ℕ → Option (Run (Reply B)))
    → Option ℕ
    → Option (Run (Reply B))
with_parsed parse_error key t serve none = some (
    ret (
      http_error (codes "could not parse " ++ key ++ codes ": " ++ parse_error t ++ codes "\n")
        500))
with_parsed parse_error key t serve (some n) = serve n

abbrev pub with_number {ℓ} :
    {B : Type ℓ}
    → (Text → Text)
    → Text
    → (ℕ → Option (Run (Reply B)))
    → Option Text
    → Option (Run (Reply B))
with_number parse_error key serve none = serve 0
with_number parse_error key serve (some t) = with_parsed parse_error key t serve (parse_uint t)

-- a number of the query, 0 where it is missing
abbrev pub number_param {ℓ} :
    {B : Type ℓ}
    → (Text → Text)
    → Params
    → Text
    → (ℕ → Option (Run (Reply B)))
    → Option (Run (Reply B))
number_param parse_error params key serve = with_number parse_error key serve (params key)

module _ (env : Env) (s : Server) where
  -- `GitShowCommit`, the call of git included; the struct has the repository too
  unfoldable pub git_show_commit : RepoConfig → Text → Call (GitShow × RepoConfig)
  unfolding git_show
  git_show_commit repo commit = do
    out ← env.start (show_args repo.path commit)
    show ← of_run (git_show (env.scan_shown out))
    value (show, repo)

  unfoldable pub serve_git_show : Request → Run (Reply (Page Unit (GitShow × RepoConfig)))
  unfolding with_repo git_show_commit
  serve_git_show r =
      let commit = get_param r.params (codes ":commitHash") in
      with_repo s (full_name r) (λ repo.
        if is_empty_text commit
        then ret (http_error (codes "commit is empty") 500)
        else respond (git_show_commit repo commit)
            (λ e. http_error (codes "error doing git-show: " ++ e ++ codes "\n") 500)
            (λ shown.
              ret (served (plain_page (codes "gitshowcommit.html") (codes "Git Show") shown))))

  -- `GitBlameBlob`, the call of git included
  abbrev pub blame_reply : Option BlameOutcome → Option (Run (Reply BlameState))
  blame_reply none = none
  blame_reply (some (blamed st)) = some (ret (served st))
  blame_reply (some (reported e)) = some (ret (bare 500))
  blame_reply (some never) = none
  blame_reply (some (panicked r)) = some (panic r)

  abbrev pub blame_of_output : RepoConfig → Call Text → Option (Run (Reply BlameState))
  blame_of_output repo (value out) =
      blame_reply (git_blame_blob repo.name (env.scan_lines out).tokens)
  blame_of_output repo (error e) = some (ret (bare 500))
  blame_of_output repo (panics r) = some (panic r)

  unfoldable pub serve_git_blame_json : Request → Option (Run (Reply BlameState))
  unfolding git_blame_blob lookup
  serve_git_blame_json r =
      let path = r.tail (codes "/api/v2/json/git-blame/:parent/:repo/:rev/") in
      if has_no_repos s.repos
      then some (ret (http_error (codes "File browsing and git commands not enabled") 404))
      else elim (lookup (full_name r) s.repos) [
        | none ↦ some (ret (http_error (codes "No such repo") 404))
        | some repo ↦ blame_of_output repo (
            env.start (
              codes "-C"
              ∷ repo.path
              ∷ codes "blame"
              ∷ env.paths.clean path
              ∷ get_param r.params (codes ":rev")
              ∷ codes "--porcelain"
              ∷ []))
      ]

  -- there is no return behind the error: the next statement writes through a nil pointer
  unfoldable pub serve_simple_git_log_json : Request → Run (Reply SimpleGitLog)
  unfolding with_repo build_simple_git_log_data
  serve_simple_git_log_json r = with_repo s (full_name r) (λ repo.
      elim (build_simple_git_log_data env.git env.paths
        (r.tail (codes "/api/v2/json/git-log/:parent/:repo/:rev/"))
        (get_param r.params (codes ":rev")) repo) [
          | value log ↦ ret (served (set_link_prefix r log))
          | error e ↦ panic nil_dereference
          | panics p ↦ panic p
        ])

  -- `BuildGitLog` for what a request asks for
  abbrev pub log_of : Request → Text → Text → Text → Option (Run (Reply GitLog))
  log_of r rev path repo_path = number_param env.parse_error r.params (codes "first") (λ first.
      number_param env.parse_error r.params (codes "afterCursor") (λ after_cursor.
        map_option (log_reply env.log_error) (
          build_git_log (λ args. to_option (env.git args))
            (record {
              range = rev;
              n = first;
              skip_n = after_cursor;
              path = path;
              follow = false;
              name_only = false;
            })
            repo_path)))

  -- `filebrowseEnabled`
  unfoldable pub filebrowse_enabled : Text → Call RepoConfig
  unfolding lookup
  filebrowse_enabled repo =
      if has_no_repos s.repos
      then error (codes "File browsing and git commands not enabled")
      else elim (lookup repo s.repos) [
        | none ↦
            error (codes "repo: %s not found. Maybe reload the server to read the latest config.\n")
        | some config ↦ value config
      ]

  unfoldable pub serve_git_log_json : Request → Option (Run (Reply GitLog))
  unfolding filebrowse_enabled build_git_log parse_uint
  serve_git_log_json r = elim (filebrowse_enabled (full_name r)) [
    | error e ↦ some (ret (http_error e 500))
    | panics p ↦ some (panic p)
    | value repo ↦
        log_of r (get_param r.params (codes "revspec")) (get_param r.params (codes "path"))
          repo.path
  ]

  abbrev pub tree_at : RepoConfig → Request → Call TreeNode
  tree_at repo r =
      directory_tree env.git env.paths.base env.tree_error repo.path
        (get_param r.params (codes ":rev"))

  unfoldable pub serve_git_ls_tree_json : Request → Run (Reply TreeNode)
  unfolding with_repo directory_tree
  serve_git_ls_tree_json r =
      with_repo s (full_name r)
        (λ repo. respond (tree_at repo r) (λ e. api_error 500 [] e) (λ t. ret (served t)))

  unfoldable pub serve_git_ls_tree_rendered : Request → Run (Reply Text)
  unfolding with_repo directory_tree render_directory_tree
  serve_git_ls_tree_rendered r =
      let path = r.tail (codes "/api/v2/getRenderedFileTree/:parent/:repo/:rev/") in
      with_repo s (full_name r) (λ repo.
        respond (tree_at repo r) (λ e. api_error 500 [] e)
          (λ t. ret (
            served (
              render_directory_tree repo.name (get_param r.params (codes ":rev")) path t
                root_padding))))
