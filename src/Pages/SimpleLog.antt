-- ===== src/Pages/SimpleLog.antt =====
-- `BuildSimpleGitLogData` of `server/fileviewer/fileview.go` behind the call of git: the matches of
-- `gitLogRegex` in the output of git log, and the page made of them.
pub mod NoNul
pub mod RoundTrip
use livegrep.Blame.{is_blank}
use livegrep.Call.{panics, error, value, Call, Git}
use livegrep.GoText.Decimal.{is_digit}
use livegrep.GoText.Prefix.{strip_prefix}
use livegrep.GoText.Split.{split, cut_at}
use livegrep.Pages.{BreadCrumbEntry, Paths, RepoConfig}
use livegrep.Pages.Segments.{get_path_segments}
use livegrep.Prelude.{
  ℕ, zero, suc, ◌-◌, ◌/◌, ◌%◌, ◌<◌, refl, Bool, true, false, not, ◌&&◌, ◌||◌, Option, none, some,
  List, [], ◌∷◌, ltb, leb, ◌==◌, if◌then◌else◌, ◌>>=◌, Text, codes, text_eq, length,
}

-- `Commit`, without the parents, which are not set
pub record LogCommit : Type 0 where
  pub hash : Text
  pub short_hash : Text
  pub author_name : Text
  pub author_email : Text
  pub subject : Text
  pub date : Text
  pub body : Text

pub record SimpleGitLog : Type 0 where
  pub commits : List LogCommit
  pub maybe_last_page : Bool
  pub is_pagination_req : Bool
  pub next_parent : Text
  pub commit_link_prefix : Text
  pub repo : RepoConfig
  pub path_segments : List BreadCrumbEntry
  pub path : Text

-- `\w`
unfoldable pub is_word : ℕ → Bool
unfolding is_digit
is_word c = is_digit c || ((leb b'a' c && leb c b'z') || ((leb b'A' c && leb c b'Z') || c == b'_'))

-- `\w*`, and what is left
unfoldable pub span_name : Text → Text × Text
unfolding is_word
span_name [] = ([], [])
span_name (c ∷ s) =
    let rest = span_name s in if is_word c then (c ∷ rest.0, rest.1) else ([], c ∷ s)

-- a word of the format, and `\s` behind it
unfoldable pub take_key : Text → Text → Option Text
unfolding strip_prefix is_blank
take_key key s = elim (strip_prefix key s) [
  | none ↦ none
  | some [] ↦ none
  | some (c ∷ rest) ↦ if is_blank c then some rest else none
]

-- a match of `gitLogRegex` that begins here, and what is left behind it
unfoldable pub match_commit : Text → Option (LogCommit × Text)
unfolding take_key span_name strip_prefix cut_at
match_commit s = do
  s₁ ← take_key (codes "commit") s
  s₂ ← take_key [] (span_name s₁).1
  s₃ ← strip_prefix (codes "<") s₂
  s₄ ← strip_prefix (codes ">\nauthor") (span_name s₃).1
  s₅ ← take_key [] s₄
  s₆ ← strip_prefix (codes "<") s₅
  name ← cut_at b'>' s₆
  s₇ ← take_key [] name.1
  s₈ ← strip_prefix (codes "<") s₇
  email ← cut_at b'>' s₈
  s₉ ← take_key (codes "\nsubject") email.1
  subject ← cut_at b'\n' s₉
  s₁₀ ← take_key (codes "date") subject.1
  date ← cut_at b'\n' s₁₀
  s₁₁ ← take_key (codes "body") date.1
  body ← cut_at 0 s₁₁
  some (
    record {
      hash = (span_name s₁).0;
      short_hash = (span_name s₃).0;
      author_name = name.0;
      author_email = email.0;
      subject = subject.0;
      date = date.0;
      body = body.0;
    },
    body.1,
  )

-- `FindAllSubmatch`: from left to right, each match behind the one before. A match is not empty.
unfoldable pub find_commits : ℕ → Text → List LogCommit
unfolding match_commit
find_commits zero s = []
find_commits (suc fuel) [] = []
find_commits (suc fuel) (c ∷ s) = elim (match_commit (c ∷ s)) [
  | none ↦ find_commits fuel s
  | some r ↦ r.0 ∷ find_commits fuel r.1
]

abbrev pub last_hash : List LogCommit → Text
last_hash [] = []
last_hash (c ∷ []) = c.hash
last_hash (c ∷ (d ∷ cs)) = last_hash (d ∷ cs)

-- the page of the commits; the link prefix is set by the handlers
module _ (paths : Paths) (first_parent : Text) (repo : RepoConfig) (clean : Text) where
  unfoldable pub simple_git_log : List LogCommit → SimpleGitLog
  unfolding text_eq get_path_segments split
  simple_git_log commits = record {
    commits = commits;
    maybe_last_page = ltb (length commits) 1000;
    is_pagination_req = not (text_eq first_parent (codes "HEAD"));
    next_parent = last_hash commits;
    commit_link_prefix = [];
    repo = repo;
    path_segments = get_path_segments paths repo.name (split b'/' clean);
    path = clean;
  }

  unfoldable pub simple_log_of_output : Text → SimpleGitLog
  unfolding find_commits simple_git_log
  simple_log_of_output out = simple_git_log (find_commits (length out) out)

abbrev pub simple_log_args : Text → Text → Text → List Text
simple_log_args repo_path first_parent clean =
    codes "-C"
    ∷ repo_path
    ∷ codes "log"
    ∷ codes "-n"
    ∷ codes "1000"
    ∷ codes "-z"
    ∷ codes "--no-abbrev"
    ∷ codes "--pretty=format:commit %H <%h>%nauthor <%an> <%ae>%nsubject %s%ndate %ah%nbody %b"
    ∷ first_parent
    ∷ codes "--"
    ∷ clean
    ∷ []

abbrev log_of_call : Paths → Text → RepoConfig → Text → Call Text → Call SimpleGitLog
log_of_call paths first_parent repo clean (value out) =
    value (simple_log_of_output paths first_parent repo clean out)
log_of_call paths first_parent repo clean (error e) = error e
log_of_call paths first_parent repo clean (panics r) = panics r

unfoldable pub build_simple_git_log_data :
    Git → Paths → Text → Text → RepoConfig → Call SimpleGitLog
unfolding simple_log_of_output
build_simple_git_log_data git paths relative_path first_parent repo =
    let clean = paths.clean relative_path in
    log_of_call paths first_parent repo clean (git (simple_log_args repo.path first_parent clean))
