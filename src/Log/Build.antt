-- ===== src/Log/Build.antt =====
-- `BuildGitLog` of `server/fileviewer/fileview.go`: the arguments, the call of git, and the reading of its
-- output. What git writes for a list of arguments is a parameter; it is `none` where the call fails.
use livegrep.GoText.Decimal.{int_lt}
use livegrep.GoText.Prefix.{has_prefix}
use livegrep.Log.Arguments.{option_args, ensure_safe_spec_arg, CommitOptions, gen_log_args}
use livegrep.Log.Arguments.Safe.{read_log_args-gen_log_args, requested, read_log_args}
use livegrep.Log.Commits.{parse_commit_log_output, GitCommit}
use livegrep.Log.Commits.RoundTrip.{parse_commit_log_output-render_log, IsLogged, render_log}
use livegrep.Prelude.{
  ℕ, ◌≡◌, ap, ◌∙◌, Bool, false, Option, none, some, List, [], ◌∷◌, ◌++◌, Text, codes, length, All,
}

pub record GitLog : Type 0 where
  pub commits : List GitCommit
  pub maybe_last_page : Bool

pub data LogError : Type 0 where
  unsafe_options git_failed bad_log : LogError

pub data LogResult : Type 0 where
  page : GitLog → LogResult
  no_log : LogError → LogResult

-- what stands in front of the options, with `logFormatWithoutRefs`
abbrev pub log_command : Text → List Text
log_command repo_path =
    codes "-C"
    ∷ repo_path
    ∷ codes "log"
    ∷ codes "--format=format:%H%x00%aN%x00%aE%x00%at%x00%cN%x00%cE%x00%ct%x00%s%x00%b%x00%P%x00"
    ∷ []

-- the commits that were read; the outer `none` stays
abbrev make_page : ℕ → Option (Option (List GitCommit)) → Option LogResult
make_page n none = none
make_page n (some none) = some (no_log bad_log)
make_page n (some (some commits)) =
    some (page (record { commits = commits; maybe_last_page = int_lt (length commits) n }))

abbrev after_git : CommitOptions → Option Text → Option LogResult
after_git opts none = some (no_log git_failed)
after_git opts (some out) = make_page opts.n (parse_commit_log_output out opts.name_only)

module _ (git : List Text → Option Text) where
  abbrev run_git : CommitOptions → Option (List Text) → Option LogResult
  run_git opts none = some (no_log unsafe_options)
  run_git opts (some args) = after_git opts (git args)

  unfoldable pub build_git_log : CommitOptions → Text → Option LogResult
  unfolding gen_log_args parse_commit_log_output
  build_git_log opts repo_path = run_git opts (gen_log_args opts (log_command repo_path))

  -- Where the range does not begin with a dash, file names are not asked for, git writes the log of
  -- some commits whenever it reads from the arguments what the options ask for, and the parts of
  -- these commits are such as git can separate, `BuildGitLog` returns exactly these commits, and
  -- marks the page as the last one where they are fewer than were asked for.
  pub build_git_log-render_log :
      (opts : CommitOptions) (repo_path : Text) (cs : List GitCommit)
      → has_prefix opts.range (codes "-") ≡ false
      → opts.name_only ≡ false
      → ((args : List Text)
          → read_log_args args ≡ requested opts
          → git (log_command repo_path ++ args) ≡ some (render_log cs))
      → All IsLogged cs
      → build_git_log opts repo_path
        ≡ some (page (record { commits = cs; maybe_last_page = int_lt (length cs) opts.n }))
  unfolding build_git_log gen_log_args ensure_safe_spec_arg
  build_git_log-render_log opts repo_path cs safe names reads logged =
      let given : gen_log_args opts [] ≡ some (option_args opts) = rw safe in
      let all : gen_log_args opts (log_command repo_path)
          ≡ some (log_command repo_path ++ option_args opts) =
        rw safe in
      let out = reads (option_args opts) (read_log_args-gen_log_args opts given) in
      ap (run_git opts) all
      ∙ ap (after_git opts) out
      ∙ ap (λ b. make_page opts.n (parse_commit_log_output (render_log cs) b)) names
      ∙ ap (make_page opts.n) (parse_commit_log_output-render_log cs logged)
