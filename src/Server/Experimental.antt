-- ===== src/Server/Experimental.antt =====
-- `ServeExperimental` of `server/server.go`: the page of a file with the tree, the branches and the tags of its repository.
use livegrep.Backend.{is_empty_text}
use livegrep.Call.{Call, value, error, panics}
use livegrep.Pages.{FileViewerContext, RepoConfig}
use livegrep.Pages.Build.{empty_context, build_file_data}
use livegrep.Pages.Commands.{git_rev_parse_abbrev, directory_tree, git_get_last_rev_to_touch_path}
use livegrep.Prelude.{
  true, false, Option, none, some, List, [], ◌++◌, if◌then◌else◌, Text, codes, text_eq,
}
use livegrep.Refs.{GitBranch}
use livegrep.Runtime.{Run, ret, panic, ◌>>=◌}
use livegrep.Search.Handlers.{get_param}
use livegrep.Server.{respond, written, Request, served, with_parent, Page, Server, Reply}
use livegrep.Server.Env.{Env}
use livegrep.Server.Revision.{split_rev_path}
use livegrep.Server.Zoekt.{tags_of, branches_of}

-- the value of a call; an error is only logged
abbrev pub attempt {ℓ} : {A : Type ℓ} → Call A → Run (Option A)
attempt (value a) = ret (some a)
attempt (error e) = ret none
attempt (panics r) = panic r

pub record ExperimentalScript : Type 0 where
  pub repo_config : RepoConfig
  pub repo_name : Text
  pub commit : Text
  pub commit_hash : Text
  pub repo_rev : Text
  pub head_rev : Text
  pub file_path : Text
  pub file_name : Text
  pub branches : List GitBranch

abbrev pub or_else {ℓ} : {A : Type ℓ} → Option A → A → A
or_else none d = d
or_else (some a) d = a

abbrev pub ExperimentalPage : Type 0
ExperimentalPage = Reply (Page ExperimentalScript FileViewerContext)

module _ (env : Env) (s : Server) where
  -- the commit to load the file at; `dfc` is a parameter of the query
  unfoldable pub commit_to_load : Text → Text → RepoConfig → Text → Run Text
  unfolding git_get_last_rev_to_touch_path
  commit_to_load dfc path repo repo_rev =
      if is_empty_text dfc
      then (do
        last_rev ← attempt (git_get_last_rev_to_touch_path env.git path repo.path repo_rev)
        ret (or_else last_rev repo_rev))
      else ret dfc

  -- the context of a file that cannot be read
  abbrev pub invalid_context : Text → RepoConfig → Text → Text → FileViewerContext
  invalid_context path repo repo_rev commit = record empty_context {
    repo = repo;
    repo_rev = repo_rev;
    commit = commit;
    commit_hash = commit;
    file_content = some (record {
      content = [];
      line_count = 0;
      language = [];
      file_name = env.paths.base path;
      file_path = path;
      invalid = true;
    });
    file_path = path;
    file_name = env.paths.base path;
  }

  abbrev pub experimental_page : RepoConfig → FileViewerContext → ExperimentalPage
  experimental_page repo d = served (record {
    template_name = codes "experimental.html";
    title = codes "experimental";
    script_name = codes "experimental";
    script_data = some (record {
      repo_config = repo;
      repo_name = repo.name;
      commit = d.commit;
      commit_hash = d.commit_hash;
      repo_rev = d.repo_rev;
      head_rev = d.head_rev;
      file_path = d.file_path;
      file_name = d.file_name;
      branches = d.branches;
    });
    include_header = false;
    page_data = d;
    body_id = codes "fileviewer-body";
  })

  -- behind the resolution of HEAD
  unfoldable pub serve_revision : Text → Text → RepoConfig → Text → Text → Run ExperimentalPage
  unfolding commit_to_load build_file_data directory_tree branches_of tags_of
  serve_revision dfc path repo head_rev repo_rev = do
    commit ← commit_to_load dfc path repo repo_rev
    found ← attempt (build_file_data env.git env.paths env.exts path repo commit)
    tree ← attempt (directory_tree env.git env.paths.base env.tree_error repo.path repo_rev)
    branches ← attempt (branches_of env repo.path)
    tags ← attempt (tags_of env repo.path)
    ret (
        experimental_page repo (record (or_else found (invalid_context path repo repo_rev commit)) {
          directory_tree = tree;
          branches = or_else branches [];
          tags = or_else tags [];
          repo_rev = repo_rev;
          repo_config = repo;
          head_rev = head_rev;
        }))

  unfoldable pub serve_experimental : Request → Run ExperimentalPage
  unfolding split_rev_path with_parent git_rev_parse_abbrev serve_revision text_eq
  serve_experimental r =
      let target = split_rev_path (r.tail (codes "/experimental/:parent/:repo/+/")) in
      with_parent s (λ m. written m) (get_param r.params (codes ":parent"))
        (get_param r.params (codes ":repo"))
        (λ repo.
          respond (git_rev_parse_abbrev env.git (codes "HEAD") repo.path)
            (λ e. written (
              codes "failed to fetch HEAD ref\n%!(EXTRA string="
              ++ get_param r.params (codes ":repo")
              ++ codes ")"))
            (λ head_rev.
              serve_revision (get_param r.params (codes "dfc")) target.1 repo head_rev
                (if text_eq target.0 (codes "HEAD") then head_rev else target.0)))
