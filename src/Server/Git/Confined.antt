-- ===== src/Server/Git/Confined.antt =====
-- What the handlers of Server/Git and Server/History take from git.
use livegrep.Call.{map_option, to_option, Git}
use livegrep.Dict.{lookup, text_key, number_key}
use livegrep.Directory.Tree.{TreeError}
use livegrep.GoText.Prefix.{has_prefix}
use livegrep.Log.Arguments.{CommitOptions, ensure_safe_spec_arg, gen_log_args}
use livegrep.Log.Build.{build_git_log}
use livegrep.Pages.{Paths, RepoConfig}
use livegrep.Pages.Commands.{get_ls_tree_output, directory_tree}
use livegrep.Pages.SimpleLog.{build_simple_git_log_data}
use livegrep.Prelude.{
  ◌≡◌, refl, inl, inr, false, some, List, [], ◌∷◌, Bool-cases, Option-cases, Text, codes,
}
use livegrep.Runtime.{Run}
use livegrep.Server.{has_no_repos, Reply, full_name, Request, Server, with_repo}
use livegrep.Server.Env.{Env}
use livegrep.Server.Git.{
  log_reply, number_param, filebrowse_enabled, git_show_commit, log_of, serve_git_blame_json,
  serve_git_log_json, serve_git_ls_tree_json, serve_git_ls_tree_rendered, serve_git_show,
  serve_simple_git_log_json,
}
use livegrep.Server.History.{serve_simple_git_log}
use mathlib.Core.List.{Mem, mem-cons_self, mem-cons_of_mem}

abbrev pub reading_commands : List Text
reading_commands = codes "show" ∷ codes "blame" ∷ codes "log" ∷ codes "ls-tree" ∷ []

-- the two write the same for each command that reads in the directory of a repository
abbrev pub AgreeOn : RepoConfig → Git → Git → Type 0
AgreeOn repo git git' =
    (command : Text)
    → Mem command reading_commands
    → (args : List Text)
    → git (codes "-C" ∷ repo.path ∷ command ∷ args) ≡ git' (codes "-C" ∷ repo.path ∷ command ∷ args)

abbrev pub AgreeWhere : Server → Request → Git → Git → Type 0
AgreeWhere s r git git' =
    (repo : RepoConfig) → lookup (full_name r) s.repos ≡ some repo → AgreeOn repo git git'

with_repo_cong {ℓ} :
    {B : Type ℓ} (s : Server) (name : Text) (serve serve' : RepoConfig → Run (Reply B))
    → ((repo : RepoConfig) → lookup name s.repos ≡ some repo → serve repo ≡ serve' repo)
    → with_repo s name serve ≡ with_repo s name serve'
unfolding with_repo
with_repo_cong s name serve serve' h = elim (Bool-cases (has_no_repos s.repos)) [
  | inl nothing ↦ rw (with_repo, nothing) refl
  | inr others ↦ elim (Option-cases (lookup name s.repos)) [
    | inl e ↦ rw (with_repo, others, e) refl
    | inr (repo, e) ↦ rw (with_repo, others, e) (h repo e)
  ]
]

show_in : Mem (codes "show") reading_commands
show_in = mem-cons_self

blame_in : Mem (codes "blame") reading_commands
blame_in = mem-cons_of_mem _ mem-cons_self

log_in : Mem (codes "log") reading_commands
log_in = mem-cons_of_mem _ (mem-cons_of_mem _ mem-cons_self)

ls_tree_in : Mem (codes "ls-tree") reading_commands
ls_tree_in = mem-cons_of_mem _ (mem-cons_of_mem _ (mem-cons_of_mem _ mem-cons_self))

module _ (repo : RepoConfig) (git git' : Git) (agree : AgreeOn repo git git') where
  tree_cong :
      (base : Text → Text) (tree_error : TreeError → Text) (rev : Text)
      → directory_tree git base tree_error repo.path rev
        ≡ directory_tree git' base tree_error repo.path rev
  unfolding directory_tree get_ls_tree_output
  tree_cong base tree_error rev =
      rw (directory_tree, get_ls_tree_output, agree (codes "ls-tree") ls_tree_in _) refl

  simple_log_cong :
      (paths : Paths) (path first_parent : Text)
      → build_simple_git_log_data git paths path first_parent repo
        ≡ build_simple_git_log_data git' paths path first_parent repo
  unfolding build_simple_git_log_data
  simple_log_cong paths path first_parent =
      rw (build_simple_git_log_data, agree (codes "log") log_in _) refl

  git_log_cong :
      (opts : CommitOptions)
      → build_git_log (λ args. to_option (git args)) opts repo.path
        ≡ build_git_log (λ args. to_option (git' args)) opts repo.path
  unfolding build_git_log gen_log_args ensure_safe_spec_arg
  git_log_cong opts = elim (Bool-cases (has_prefix opts.range (codes "-"))) [
    | inl dash ↦ rw (build_git_log, gen_log_args, ensure_safe_spec_arg, dash) refl
    | inr safe ↦
        rw (build_git_log, gen_log_args, ensure_safe_spec_arg, safe, agree (codes "log") log_in _)
          refl
  ]

module _ (env : Env) (git' start' : Git) (s : Server) (r : Request)
    (git-agree : AgreeWhere s r env.git git') (start-agree : AgreeWhere s r env.start start') where
  abbrev other : Env
  other = record env { git = git'; start = start' }

  show_cong : serve_git_show env s r ≡ serve_git_show other s r
  unfolding serve_git_show git_show_commit
  show_cong =
      with_repo_cong s (full_name r) _ _
        (λ repo e. rw (git_show_commit, start-agree repo e (codes "show") show_in _) refl)

  blame_cong : serve_git_blame_json env s r ≡ serve_git_blame_json other s r
  unfolding serve_git_blame_json
  blame_cong = elim (Bool-cases (has_no_repos s.repos)) [
    | inl nothing ↦ rw (serve_git_blame_json, nothing) refl
    | inr others ↦ elim (Option-cases (lookup (full_name r) s.repos)) [
      | inl e ↦ rw (serve_git_blame_json, others, e) refl
      | inr (repo, e) ↦
          rw (serve_git_blame_json, others, e, start-agree repo e (codes "blame") blame_in _) refl
    ]
  ]

  simple_log_page_cong : serve_simple_git_log env s r ≡ serve_simple_git_log other s r
  unfolding serve_simple_git_log
  simple_log_page_cong =
      with_repo_cong s (full_name r) _ _
        (λ repo e. rw (simple_log_cong repo env.git git' (git-agree repo e) _ _ _) refl)

  simple_log_json_cong : serve_simple_git_log_json env s r ≡ serve_simple_git_log_json other s r
  unfolding serve_simple_git_log_json
  simple_log_json_cong =
      with_repo_cong s (full_name r) _ _
        (λ repo e. rw (simple_log_cong repo env.git git' (git-agree repo e) _ _ _) refl)

  tree_json_cong : serve_git_ls_tree_json env s r ≡ serve_git_ls_tree_json other s r
  unfolding serve_git_ls_tree_json
  tree_json_cong =
      with_repo_cong s (full_name r) _ _
        (λ repo e. rw (tree_cong repo env.git git' (git-agree repo e) _ _ _) refl)

  tree_rendered_cong : serve_git_ls_tree_rendered env s r ≡ serve_git_ls_tree_rendered other s r
  unfolding serve_git_ls_tree_rendered
  tree_rendered_cong =
      with_repo_cong s (full_name r) _ _
        (λ repo e. rw (tree_cong repo env.git git' (git-agree repo e) _ _ _) refl)

  log_of_cong :
      (repo : RepoConfig) (rev path : Text)
      → lookup (full_name r) s.repos ≡ some repo
      → log_of env s r rev path repo.path ≡ log_of other s r rev path repo.path
  log_of_cong repo rev path e = λ i. number_param env.parse_error r.params (codes "first") (λ first.
      number_param env.parse_error r.params (codes "afterCursor") (λ after_cursor.
        map_option (log_reply env.log_error) (
          git_log_cong repo env.git git' (git-agree repo e)
            (record {
              range = rev;
              n = first;
              skip_n = after_cursor;
              path = path;
              follow = false;
              name_only = false;
            })
            i)))

  log_cong : serve_git_log_json env s r ≡ serve_git_log_json other s r
  unfolding serve_git_log_json filebrowse_enabled
  log_cong = elim (Bool-cases (has_no_repos s.repos)) [
    | inl nothing ↦ rw (serve_git_log_json, filebrowse_enabled, nothing) refl
    | inr others ↦ elim (Option-cases (lookup (full_name r) s.repos)) [
      | inl e ↦ rw (serve_git_log_json, filebrowse_enabled, others, e) refl
      | inr (repo, e) ↦
          rw (serve_git_log_json, filebrowse_enabled, others, e) (log_of_cong repo _ _ e)
    ]
  ]

-- Seven handlers that run git in a repository of the configuration answer the same under any two
-- gits that agree on `git -C` with the directory of the repository that the request names, followed
-- by show, blame, log or ls-tree: nothing that another command or another directory gives changes
-- an answer, and where the configuration does not have the repository, nothing that git writes
-- does.
pub serve_git-confined :
    (env : Env) (git' start' : Git) (s : Server) (r : Request)
    → AgreeWhere s r env.git git'
    → AgreeWhere s r env.start start'
    → (serve_git_show env s r ≡ serve_git_show (record env { git = git'; start = start' }) s r)
      × (serve_git_blame_json env s r
          ≡ serve_git_blame_json (record env { git = git'; start = start' }) s r)
      × (serve_simple_git_log env s r
          ≡ serve_simple_git_log (record env { git = git'; start = start' }) s r)
      × (serve_simple_git_log_json env s r
          ≡ serve_simple_git_log_json (record env { git = git'; start = start' }) s r)
      × (serve_git_ls_tree_json env s r
          ≡ serve_git_ls_tree_json (record env { git = git'; start = start' }) s r)
      × (serve_git_ls_tree_rendered env s r
          ≡ serve_git_ls_tree_rendered (record env { git = git'; start = start' }) s r)
      × (serve_git_log_json env s r
          ≡ serve_git_log_json (record env { git = git'; start = start' }) s r)
serve_git-confined env git' start' s r g h = (
  show_cong env git' start' s r g h,
  blame_cong env git' start' s r g h,
  simple_log_page_cong env git' start' s r g h,
  simple_log_json_cong env git' start' s r g h,
  tree_json_cong env git' start' s r g h,
  tree_rendered_cong env git' start' s r g h,
  log_cong env git' start' s r g h,
)
