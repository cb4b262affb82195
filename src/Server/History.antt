-- ===== src/Server/History.antt =====
-- `ServeSimpleGitLog` of `server/server.go`: the page of a log, whole or in part.
use livegrep.Pages.SimpleLog.{build_simple_git_log_data, SimpleGitLog}
use livegrep.Prelude.{Bool, Option, none, some, [], ◌∷◌, ◌++◌, if◌then◌else◌, Text, codes, text_eq}
use livegrep.Runtime.{ret, Run}
use livegrep.Search.Handlers.{get_param}
use livegrep.Server.{
  served, http_error, respond, full_name, Reply, Server, plain_page, Page, Request, with_repo,
}
use livegrep.Server.Env.{Env}
use livegrep.Server.Git.{set_link_prefix}

-- the two headers of the page of a log
pub record LogHeaders : Type 0 where
  pub next_parent : Text
  pub maybe_last : Bool

-- a page of a log with its headers: the whole page, or the part that the request asks for
pub record LogPage : Type 0 where
  pub headers : Option LogHeaders
  pub partial : Bool
  pub page : Page Unit SimpleGitLog

abbrev pub or_text : Text → Text → Text
or_text [] t = t
or_text (c ∷ s) t = c ∷ s

abbrev pub log_headers : SimpleGitLog → Option LogHeaders
log_headers log =
    if log.maybe_last_page
    then none
    else some (record { next_parent = log.next_parent; maybe_last = log.maybe_last_page })

abbrev pub log_page : Request → SimpleGitLog → LogPage
log_page r log =
    let partial = text_eq (get_param r.params (codes "partial")) (codes "true") in
    record {
      headers = log_headers log;
      partial = partial;
      page =
          if partial
          then plain_page (codes "simplegitlogpaginated.html") [] log
          else record (plain_page (codes "simplegitlog.html") (codes "simplegitlog") log) {
            script_name = codes "gitlog";
          };
    }

unfoldable pub serve_simple_git_log : Env → Server → Request → Run (Reply LogPage)
unfolding with_repo build_simple_git_log_data text_eq
serve_simple_git_log env s r = with_repo s (full_name r) (λ repo.
    respond
      (build_simple_git_log_data env.git env.paths
        (r.tail (codes "/delve/:parent/:repo/commits/:rev/"))
        (or_text (get_param r.params (codes "firstParent")) (get_param r.params (codes ":rev")))
        repo)
      (λ e. http_error (codes "Error building log data: " ++ e ++ codes "\n") 500)
      (λ log. ret (served (log_page r (set_link_prefix r log)))))
