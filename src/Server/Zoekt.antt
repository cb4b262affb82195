-- ===== src/Server/Zoekt.antt =====
-- The handlers of `server/server.go` for repositories in the cache of Zoekt: `ServeListAllBranchesForZoekt`,
-- `ServeListAllTagsForZoekt`, `ServeGitLogForZoekt`, `ServeGitLsTreeForZoekt` and
-- `ServeSyntaxHighlightedFileForZoekt`. They do not look into the configuration.
use livegrep.Call.{Call, ◌>>=◌, of_run}
use livegrep.Log.Build.{GitLog, build_git_log}
use livegrep.Pages.{FileViewerContext}
use livegrep.Pages.Build.{build_file_data_for_zoekt_file_preview}
use livegrep.Pages.Commands.{get_ls_tree_output}
use livegrep.Prelude.{Option, List, [], ◌∷◌, ◌++◌, Text, codes}
use livegrep.Refs.{GitBranch, GitTag, list_all_branches, parse_git_list_tags_output}
use livegrep.Runtime.{ret, Run}
use livegrep.Server.{
  plain_page, served, api_error, Page, respond, full_name, Request, Server, http_error, Reply,
}
use livegrep.Server.Env.{parse_uint, Env}
use livegrep.Server.Git.{log_of}
use livegrep.Server.Revision.{split_rev_path}

abbrev pub ref_args : Text → Text → List Text
ref_args repo_path refs =
    codes "-C"
    ∷ repo_path
    ∷ codes "for-each-ref"
    ∷ codes "--format=%(HEAD)%00%(authordate:human)%00%(refname:short)"
    ∷ codes "--sort=authordate"
    ∷ refs
    ∷ []

-- `ListAllBranches` and `ListAllTags`, the call of git included
unfoldable pub branches_of : Env → Text → Call (List GitBranch)
unfolding list_all_branches
branches_of env repo_path = do
  out ← env.start (ref_args repo_path (codes "refs/heads"))
  of_run (list_all_branches (env.scan_lines out).tokens)

unfoldable pub tags_of : Env → Text → Call (List GitTag)
unfolding parse_git_list_tags_output
tags_of env repo_path = do
  out ← env.start (ref_args repo_path (codes "refs/tags"))
  of_run (parse_git_list_tags_output (env.scan_lines out).tokens)

abbrev no_list {ℓ} : {A : Type ℓ} → Text → Reply A
no_list e = http_error (codes "could not list branches for repo provided") 500

module _ (env : Env) (s : Server) where
  -- `ZoektRepoCache/parent/repo.git`
  abbrev pub cache_path : Request → Text
  cache_path r = s.zoekt_repo_cache ++ codes "/" ++ full_name r ++ codes ".git"

  unfoldable pub serve_list_all_branches_for_zoekt : Request → Run (Reply (List GitBranch))
  unfolding branches_of
  serve_list_all_branches_for_zoekt r =
      respond (branches_of env (cache_path r)) no_list (λ branches. ret (served branches))

  unfoldable pub serve_list_all_tags_for_zoekt : Request → Run (Reply (List GitTag))
  unfolding tags_of
  serve_list_all_tags_for_zoekt r =
      respond (tags_of env (cache_path r)) no_list (λ tags. ret (served tags))

  unfoldable pub serve_git_log_for_zoekt : Request → Option (Run (Reply GitLog))
  unfolding split_rev_path build_git_log parse_uint
  serve_git_log_for_zoekt r =
      let target = split_rev_path (r.tail (codes "/api/v2/getGitLogForZoekt/:parent/:repo/+/")) in
      log_of env s r target.0 target.1 (cache_path r)

  unfoldable pub serve_git_ls_tree_for_zoekt : Request → Run (Reply Text)
  unfolding split_rev_path get_ls_tree_output
  serve_git_ls_tree_for_zoekt r =
      let target =
        split_rev_path (r.tail (codes "/api/v2/getDirectoryTreeForZoekt/:parent/:repo/+/")) in
      respond (get_ls_tree_output env.git (cache_path r) target.0) (λ e. api_error 500 [] e)
        (λ out. ret (served out))

  unfoldable pub serve_syntax_highlighted_file_for_zoekt :
      Request → Run (Reply (Page Unit FileViewerContext))
  unfolding split_rev_path build_file_data_for_zoekt_file_preview
  serve_syntax_highlighted_file_for_zoekt r =
      let target =
        split_rev_path
          (r.tail (codes "/api/v2/getSyntaxHighlightedFileForZoekt/:parent/:repo/+/")) in
      respond
        (build_file_data_for_zoekt_file_preview env.git env.paths env.exts target.1 (cache_path r)
          (full_name r) target.0)
        (λ e. http_error (codes "Error reading file or tree - " ++ e) 500)
        (λ context. ret (served (plain_page (codes "raw_blob_or_tree.html") [] context)))
