-- ===== src/Server/Blob.antt =====
-- The handlers of `server/server.go` for the pages of files: `ServeGitBlobRaw`, `ServeGitBlob` and `ServeFile`; and
-- `ServeDiff`.
use livegrep.Backend.{is_empty_text}
use livegrep.Call.{map_option, Call, value, error, panics}
use livegrep.Dict.{lookup, Dict, text_key, number_key}
use livegrep.Diff.{GitDiff}
use livegrep.Diff.Rows.{get_diff_rows_split, IDiffRow}
use livegrep.GoText.Prefix.{has_prefix}
use livegrep.Pages.{FileViewerContext, RepoConfig}
use livegrep.Pages.Build.{build_file_data, last_name}
use livegrep.Pages.Commands.{get_diff_between_two_commits}
use livegrep.Prelude.{
  ℕ, false, not, Option, none, some, List, [], ◌++◌, if◌then◌else◌, Text, codes, text_eq,
}
use livegrep.Runtime.{panic, ret, Run}
use livegrep.Search.Handlers.{get_param}
use livegrep.Server.{
  plain_page, bare, full_name, repo_or, respond, served, written, Page, Request, with_parent,
  Server, http_error, Reply,
}
use livegrep.Server.Env.{Env}
use livegrep.Server.Repos.{get_repo_path_from_url}
use livegrep.Server.Revision.{split_rev_path}

pub record FileScript : Type 0 where
  pub repo_info : RepoConfig
  pub file_path : Text
  pub commit : Text

pub record BlobScript : Type 0 where
  pub repo_info : RepoConfig
  pub file_path : Text
  pub commit : Text
  pub commit_hash : Text

abbrev pub blob_url : Text → Text → Text → Text
blob_url place commit path =
    codes "/delve/" ++ place ++ codes "/blob/" ++ commit ++ codes "/" ++ path

-- the links that the handlers set; `place` is `parent/repo`
abbrev pub set_links : Text → Text → Text → FileViewerContext → FileViewerContext
set_links place rev path d =
    let log_link = codes "/delve/" ++ place ++ codes "/commits/" ++ rev ++ codes "/" ++ path in
    if not (is_empty_text d.permalink)
    then record d { log_link = log_link; permalink = blob_url place d.commit_hash path }
    else if not (is_empty_text d.headlink)
    then record d { log_link = log_link; headlink = blob_url place (codes "HEAD") path }
    else record d { log_link = log_link }

-- `logAndServeError` is `http.Error` with a line in the log
abbrev pub log_and_serve_error {ℓ} : {A : Type ℓ} → Text → ℕ → Reply A
log_and_serve_error message code = http_error message code

-- the page is titled by the last bread crumb
abbrev pub titled {ℓ} : {B : Type ℓ} → FileViewerContext → (Text → Run (Reply B)) → Run (Reply B)
titled d serve = elim (last_name d.path_segments) [
  | value name ↦ serve name
  | error e ↦ ret (written e)
  | panics r ↦ panic r
]

pub record DiffData : Type 0 where
  pub diff_rows : List IDiffRow
  pub file_name : Text

module _ (env : Env) (s : Server) where
  abbrev pub file_data : Text → RepoConfig → Text → Call FileViewerContext
  file_data path repo commit = build_file_data env.git env.paths env.exts path repo commit

  unfoldable pub serve_git_blob_raw : Request → Run (Reply (Page Unit FileViewerContext))
  unfolding split_rev_path with_parent build_file_data
  serve_git_blob_raw r =
      let target = split_rev_path (r.tail (codes "/raw-blob/:parent/:repo/+/")) in
      with_parent s (λ m. written m) (get_param r.params (codes ":parent"))
        (get_param r.params (codes ":repo"))
        (λ repo.
          respond (file_data target.1 repo target.0)
            (λ e. http_error (codes "Error reading file - " ++ e) 500)
            (λ found.
              let d = set_links (full_name r) target.0 target.1 found in
              titled d (λ name. ret (served (plain_page (codes "raw_blob_or_tree.html") name d)))))

  -- the path of a blob or a tree
  abbrev pub blob_path : Request → Text
  blob_path r =
      if has_prefix r.path (codes "/delve/" ++ full_name r ++ codes "/tree/")
      then r.tail (codes "/delve/:parent/:repo/tree/:rev/")
      else r.tail (codes "/delve/:parent/:repo/blob/:rev/")

  unfoldable pub serve_git_blob : Request → Run (Reply (Page BlobScript FileViewerContext))
  unfolding with_parent build_file_data has_prefix
  serve_git_blob r =
      let rev = get_param r.params (codes ":rev") in
      let path = blob_path r in
      with_parent s (λ m. log_and_serve_error (codes "delve-error: " ++ m) 500)
        (get_param r.params (codes ":parent")) (get_param r.params (codes ":repo"))
        (λ repo.
          respond (file_data path repo rev)
            (λ e.
              log_and_serve_error
                (codes "delve-error: Error reading file path="
                  ++ path
                  ++ codes ", rev="
                  ++ rev
                  ++ codes " - "
                  ++ e)
                500)
            (λ found.
              let d = set_links (full_name r) rev path found in
              titled d (λ name. ret (
                served (record {
                  template_name = codes "fileview.html";
                  title = name;
                  script_name = codes "fileview";
                  script_data = some (record {
                    repo_info = repo;
                    file_path = path;
                    commit = rev;
                    commit_hash = d.commit_hash;
                  });
                  include_header = false;
                  page_data = d;
                  body_id = [];
                })))))

  abbrev pub head_or : Text → Text
  head_or commit = if is_empty_text commit then codes "HEAD" else commit

  abbrev pub file_page :
      Text → Text → RepoConfig → FileViewerContext → Run (Reply (Page FileScript FileViewerContext))
  file_page path commit repo d = titled d (λ name. ret (
      served (record {
        template_name = codes "fileview.html";
        title = name;
        script_name = codes "fileview";
        script_data = some (record { repo_info = repo; file_path = path; commit = commit });
        include_header = false;
        page_data = d;
        body_id = [];
      })))

  -- `names` are the names of the repositories in the order of the regular expression
  unfoldable pub serve_file : List Text → Request → Run (Reply (Page FileScript FileViewerContext))
  unfolding get_repo_path_from_url build_file_data lookup
  serve_file names r = elim (get_repo_path_from_url names (r.tail (codes "/view/"))) [
    | none ↦ ret (http_error (codes "failed to parse repo and path from URL") 400)
    | some target ↦
        let commit = head_or (get_param r.params (codes "commit")) in
        repo_or s (http_error (codes "File browsing not enabled") 404)
          (log_and_serve_error (codes "Error: No such repo: " ++ target.0) 500) target.0
          (λ repo.
            respond (file_data target.1 repo commit)
              (λ e. log_and_serve_error (codes "Error: reading file - " ++ e) 500)
              (file_page target.1 commit repo))
  ]

  abbrev pub no_diff : Request → Reply (Page Unit DiffData)
  no_diff r =
      if text_eq (get_param r.params (codes ":revA")) (get_param r.params (codes ":revB"))
      then written (codes "Commits for comparison are identical.")
      else bare 500

  -- an error comes with a nil diff
  abbrev pub diff_reply : Request → Text → Call (Option GitDiff) → Run (Reply (Page Unit DiffData))
  diff_reply r path (panics p) = panic p
  diff_reply r path (error e) = ret (no_diff r)
  diff_reply r path (value none) = ret (no_diff r)
  diff_reply r path (value (some d)) = elim (get_diff_rows_split d) [
    | panic p ↦ panic p
    | ret rows ↦ ret (
        served (
          plain_page (codes "splitdiff.html") (codes "Diff")
            (record { diff_rows = rows; file_name = env.paths.base path })))
  ]

  abbrev repo_of_parent_or :
      Option (Dict Text RepoConfig)
      → Request
      → (RepoConfig → Option (Run (Reply (Page Unit DiffData))))
      → Option (Run (Reply (Page Unit DiffData)))
  repo_of_parent_or none r serve = some (
      ret (
        written (codes "parent: " ++ get_param r.params (codes ":parent") ++ codes " not found\n")))
  repo_of_parent_or (some m) r serve = elim (lookup (get_param r.params (codes ":repo")) m) [
    | none ↦ some (
        ret
          (written (codes "repo: " ++ get_param r.params (codes ":repo") ++ codes " not found\n")))
    | some repo ↦ serve repo
  ]

  unfoldable pub serve_diff : Request → Option (Run (Reply (Page Unit DiffData)))
  unfolding get_diff_between_two_commits get_diff_rows_split text_eq lookup
  serve_diff r =
      let path = r.tail (codes "/diff/:parent/:repo/:revA/:revB/") in
      repo_of_parent_or (lookup (get_param r.params (codes ":parent")) s.new_repos) r (λ repo.
        map_option (diff_reply r path) (
          get_diff_between_two_commits env.start env.scan_lines env.capacity path repo
            (get_param r.params (codes ":revA")) (get_param r.params (codes ":revB")) false))
