-- ===== src/Tests/LogTests.antt =====
-- The theorems about `git log` in `server/fileviewer/fileview.go` at concrete logs.
use livegrep.Call.{value, error}
use livegrep.Dict.{lookup, text_key, number_key}
use livegrep.GoText.Decimal.{print_digits, int_lt, atoi, print_int, print_ℕ}
use livegrep.GoText.Prefix.{has_prefix}
use livegrep.GoText.Split.{cut_at, split_n, split, join_by}
use livegrep.Log.Arguments.{ensure_safe_spec_arg, CommitOptions, gen_log_args}
use livegrep.Log.Arguments.Safe.{read_log_args-gen_log_args, requested, read_log_args}
use livegrep.Log.Commits.{
  parse_next_commit_from_log, parse_commits, GitCommit, parse_commit_log_output,
}
use livegrep.Log.Commits.RoundTrip.{
  parse_commit_log_output-render_log, fields, render_log, IsLogged,
}
use livegrep.Log.Commits.Total.{parse_commit_log_output_total}
use livegrep.Pages.{RepoConfig}
use livegrep.Prelude.{
  ◌≡◌, refl, Bool, true, false, Option, none, some, List, [], ◌∷◌, ◌++◌, arith, if◌then◌else◌, Text,
  codes, text_eq, drop,
}
use livegrep.Runtime.{ret}
use livegrep.Search.Handlers.{get_param}
use livegrep.Server.{full_name, served, Request, Server}
use livegrep.Server.Env.{Env}
use livegrep.Server.Git.{serve_git_log_json}
use livegrep.Server.Git.Commits.{serve_git_log_json-render_log}
use mathlib.Core.List.{cons-ne-nil}

run :
    (CommitOptions → List Text → Option (List Text))
    × (Text → Bool → Option (Option (List GitCommit)))
unfolding gen_log_args ensure_safe_spec_arg has_prefix print_ℕ print_int parse_commit_log_output
    parse_commits parse_next_commit_from_log split split_n cut_at atoi
run = (gen_log_args, parse_commit_log_output)

abbrev options : CommitOptions
options = record {
  range = codes "HEAD";
  n = 1000;
  skip_n = 0;
  path = codes "-x";
  follow = true;
  name_only = false;
}

options_run :
    gen_log_args options []
    ≡ some
        (codes "-n" ∷ codes "1000" ∷ codes "HEAD" ∷ codes "--follow" ∷ codes "--" ∷ codes "-x" ∷ [])
unfolding run
options_run = refl

read_log_args-gen_log_args_example :
    read_log_args
      (codes "-n" ∷ codes "1000" ∷ codes "HEAD" ∷ codes "--follow" ∷ codes "--" ∷ codes "-x" ∷ [])
    ≡ requested options
read_log_args-gen_log_args_example = read_log_args-gen_log_args options options_run

abbrev first : GitCommit
first = record {
  id = codes "c1";
  author = record { name = codes "A B"; email = codes "a@b"; date = 1700000000 };
  committer = record { name = codes "C"; email = codes "c@d"; date = 7 };
  subject = codes "fix";
  body = codes "two\nlines\n";
  parents = codes "p1" ∷ codes "p2" ∷ [];
  files = [];
}

abbrev root_commit : GitCommit
root_commit = record first { id = codes "c0"; parents = [] }

first-IsLogged : IsLogged first
unfolding run
first-IsLogged = record {
  no_nul = (
    (refl, (refl, tt)),
    (
      (refl, (refl, (refl, tt))),
      (
        (refl, (refl, (refl, tt))),
        (
          (refl, (refl, (refl, (refl, (refl, (refl, (refl, (refl, (refl, (refl, tt)))))))))),
          (
            (refl, tt),
            (
              (refl, (refl, (refl, tt))),
              (
                (refl, tt),
                (
                  (refl, (refl, (refl, tt))),
                  (
                    (
                      refl,
                      (refl, (refl, (refl, (refl, (refl, (refl, (refl, (refl, (refl, tt))))))))),
                    ),
                    ((refl, (refl, (refl, (refl, (refl, tt))))), tt),
                  ),
                ),
              ),
            ),
          ),
        ),
      ),
    ),
  );
  hash_lem = refl;
  parents_ne_nil = (cons-ne-nil _ _, (cons-ne-nil _ _, tt));
  parents_lem = ((refl, (refl, tt)), ((refl, (refl, tt)), tt));
  author_date = omega arith;
  committer_date = omega arith;
  no_files = refl;
}

root_commit-IsLogged : IsLogged root_commit
unfolding run
root_commit-IsLogged = record {
  no_nul = (
    (refl, (refl, tt)),
    (
      (refl, (refl, (refl, tt))),
      (
        (refl, (refl, (refl, tt))),
        (
          (refl, (refl, (refl, (refl, (refl, (refl, (refl, (refl, (refl, (refl, tt)))))))))),
          (
            (refl, tt),
            (
              (refl, (refl, (refl, tt))),
              (
                (refl, tt),
                (
                  (refl, (refl, (refl, tt))),
                  (
                    (
                      refl,
                      (refl, (refl, (refl, (refl, (refl, (refl, (refl, (refl, (refl, tt))))))))),
                    ),
                    (tt, tt),
                  ),
                ),
              ),
            ),
          ),
        ),
      ),
    ),
  );
  hash_lem = refl;
  parents_ne_nil = tt;
  parents_lem = tt;
  author_date = omega arith;
  committer_date = omega arith;
  no_files = refl;
}

abbrev named_log : Text
named_log = join_by 0 (
    fields (codes "c1") first
    ++ (codes "\na.go\nb.go\n\nc0" ∷ drop 1 (fields [] root_commit))
    ++ codes "\nz.go\n" ∷ [])

-- with the names of the files: the hash of the next commit stands behind them
named_run :
    parse_commit_log_output named_log true
    ≡ some (
        some (
          record first { files = codes "a.go" ∷ codes "b.go" ∷ [] }
          ∷ record root_commit { files = codes "z.go" ∷ [] }
          ∷ []))
unfolding run
named_run = refl

parse_commit_log_output_total_example :
    (r : Option (List GitCommit)) × (parse_commit_log_output named_log true ≡ some r)
parse_commit_log_output_total_example = parse_commit_log_output_total named_log true

parse_commit_log_output-render_log_example :
    parse_commit_log_output (render_log (first ∷ root_commit ∷ [])) false
    ≡ some (some (first ∷ root_commit ∷ []))
parse_commit_log_output-render_log_example =
    parse_commit_log_output-render_log (first ∷ root_commit ∷ [])
      (first-IsLogged, (root_commit-IsLogged, tt))

-- git, for the request below: it writes the log of one commit
abbrev log_env : Env
log_env = record {
  git = λ args. value (render_log (first ∷ []));
  start = λ args. error [];
  scan_lines = λ s. record { tokens = []; failed = false };
  scan_shown = λ s. [];
  capacity = 0;
  paths = record {
    clean = λ p. p;
    join = λ a b. a;
    base = λ p. p;
    ext = λ p. [];
    host = λ u. none;
  };
  exts = [];
  tree_error = λ e. [];
  log_error = λ e. [];
  parse_error = λ s. [];
}

abbrev kernel : RepoConfig
kernel = record {
  path = codes "/k";
  name = codes "torvalds/linux";
  revisions = [];
  metadata = [];
  walk_submodules = false;
}

abbrev log_server : Server
log_server = record {
  repos = (codes "torvalds/linux", kernel) ∷ [];
  new_repos = [];
  zoekt_repo_cache = [];
}

abbrev log_request : Request
log_request = record {
  params = λ key.
      if text_eq key (codes ":parent")
      then some (codes "torvalds")
      else if text_eq key (codes ":repo")
      then some (codes "linux")
      else if text_eq key (codes "first")
      then some (codes "20")
      else if text_eq key (codes "afterCursor")
      then some (codes "0")
      else none;
  path = [];
  tail = λ p. [];
}

log_request_run :
    (lookup (full_name log_request) log_server.repos ≡ some kernel)
    × (log_request.params (codes "first") ≡ some (print_ℕ 20))
    × (log_request.params (codes "afterCursor") ≡ some (print_ℕ 0))
    × (has_prefix (get_param log_request.params (codes "revspec")) (codes "-") ≡ false)
unfolding lookup text_eq run print_ℕ print_digits has_prefix
log_request_run = (refl, refl, refl, refl)

serve_git_log_json-render_log_example :
    serve_git_log_json log_env log_server log_request
    ≡ some (ret (served (record { commits = first ∷ []; maybe_last_page = int_lt 1 20 })))
serve_git_log_json-render_log_example =
    serve_git_log_json-render_log log_env log_server log_request kernel 20 0 (first ∷ [])
      log_request_run.0 log_request_run.1 log_request_run.2 (omega arith) (omega arith)
      log_request_run.3 (λ args reads. refl) (first-IsLogged, tt)
