-- ===== src/Tests/HandlerTests.antt =====
-- The theorems about the handlers of `server/server.go` at concrete requests.
use livegrep.Call.{Git, value, error}
use livegrep.Dict.{lookup, text_key, number_key}
use livegrep.Pages.{RepoConfig}
use livegrep.Pages.Readme.{supported_readme_extensions}
use livegrep.Prelude.{
  ℕ, ◌-◌, ◌/◌, ◌^◌, ◌≤◌, ◌≡◌, refl, true, false, none, some, List, [], ◌∷◌, ◌++◌, arith,
  if◌then◌else◌, some-eq, codes, text_eq, join, All,
}
use livegrep.Server.{written, Request, Server}
use livegrep.Server.Env.{Env}
use livegrep.Server.Git.{
  serve_git_log_json, serve_git_ls_tree_rendered, serve_git_ls_tree_json, serve_simple_git_log_json,
  serve_git_blame_json, serve_git_show,
}
use livegrep.Server.Git.Confined.{serve_git-confined, AgreeOn, AgreeWhere}
use livegrep.Server.History.{serve_simple_git_log}
use livegrep.Server.Status.{index_time_of, KnownBackend, index_age, serve_healthcheck}
use livegrep.Server.Status.Health.{serve_healthcheck-index_age, IsNoOlder}
use mathlib.Core.List.{Mem}
use mathlib.Core.Path.{subst}

-- git in an environment where each command fails
abbrev failing : Env
failing = record {
  git = λ args. error (codes "exit status 128");
  start = λ args. error (codes "exit status 128");
  scan_lines = λ s. record { tokens = []; failed = false };
  scan_shown = λ s. [];
  capacity = 0;
  paths = record {
    clean = λ p. p;
    join = λ a b. a ++ codes "/" ++ b;
    base = λ p. p;
    ext = λ p. [];
    host = λ u. none;
  };
  exts = supported_readme_extensions;
  tree_error = λ e. [];
  log_error = λ e. [];
  parse_error = λ s. [];
}

abbrev kernel : RepoConfig
kernel = record {
  path = codes "/k";
  name = codes "torvalds/linux";
  revisions = [];
  metadata = [];
  walk_submodules = false;
}

abbrev server : Server
server = record {
  repos = (codes "torvalds/linux", kernel) ∷ [];
  new_repos = (codes "torvalds", (codes "linux", kernel) ∷ []) ∷ [];
  zoekt_repo_cache = codes "/cache";
}

-- a request of the kernel
abbrev asks_kernel : Request
asks_kernel = record {
  params = λ key.
      if text_eq key (codes ":parent")
      then some (codes "torvalds")
      else if text_eq key (codes ":repo")
      then some (codes "linux")
      else none;
  path = codes "/";
  tail = λ pattern. [];
}

-- git that writes its arguments, and git that does so in one directory only
abbrev echo : Git
echo args = value (join args)

abbrev in_kernel : Git
in_kernel [] = error (codes "usage")
in_kernel (option ∷ []) = error (codes "usage")
in_kernel (option ∷ (path ∷ args)) =
    if text_eq path (codes "/k")
    then echo (option ∷ (path ∷ args))
    else error (codes "not a repository")

abbrev echoing : Env
echoing = record failing { git = echo; start = echo }

abbrev elsewhere_failing : Env
elsewhere_failing = record echoing { git = in_kernel; start = in_kernel }

agree : AgreeWhere server asks_kernel echo in_kernel
unfolding lookup text_eq
agree repo e = subst (λ q. AgreeOn q echo in_kernel) (some-eq e) (λ command mem args. refl)

serve_git-confined_example :
    (serve_git_show echoing server asks_kernel
      ≡ serve_git_show elsewhere_failing server asks_kernel)
    × (serve_git_blame_json echoing server asks_kernel
        ≡ serve_git_blame_json elsewhere_failing server asks_kernel)
    × (serve_simple_git_log echoing server asks_kernel
        ≡ serve_simple_git_log elsewhere_failing server asks_kernel)
    × (serve_simple_git_log_json echoing server asks_kernel
        ≡ serve_simple_git_log_json elsewhere_failing server asks_kernel)
    × (serve_git_ls_tree_json echoing server asks_kernel
        ≡ serve_git_ls_tree_json elsewhere_failing server asks_kernel)
    × (serve_git_ls_tree_rendered echoing server asks_kernel
        ≡ serve_git_ls_tree_rendered elsewhere_failing server asks_kernel)
    × (serve_git_log_json echoing server asks_kernel
        ≡ serve_git_log_json elsewhere_failing server asks_kernel)
serve_git-confined_example =
    serve_git-confined echoing in_kernel in_kernel server asks_kernel agree agree

abbrev known : ℕ → KnownBackend
known time = record {
  addr = codes "localhost";
  observed = record {
    id = codes "b";
    backend = record {
      info = record { name = []; trees = []; index_time = time };
      up = record { is_up = true; down_since = 0; down_code = 0 };
    };
    state = 2;
  };
  backup = none;
}

healthy_run : serve_healthcheck (known 4000000000 ∷ known 9000000000 ∷ []) ≡ written (codes "ok\n")
unfolding serve_healthcheck
healthy_run = refl

abbrev two_backends : List KnownBackend
two_backends = known 4000000000 ∷ known 9000000000 ∷ []

serve_healthcheck-index_age_example :
    (age : ℕ) × (index_age 9500000000 two_backends ≡ some age)
    × All (λ b. IsNoOlder 9500000000 b age) two_backends
    × ((b : KnownBackend) × Mem b two_backends
        × (age ≤ (9500000000 - index_time_of b) / 1000000000))
    × (age ≤ 9223372036)
serve_healthcheck-index_age_example =
    serve_healthcheck-index_age 9500000000 (known 4000000000) (known 9000000000 ∷ []) healthy_run
      (omega arith, (omega arith, tt))

-- an age that a Duration cannot hold
saturated : index_age (2 ^ 64) (known 1 ∷ []) ≡ some 9223372036
unfolding index_age
saturated = refl
