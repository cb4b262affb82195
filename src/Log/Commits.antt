-- ===== src/Log/Commits.antt =====
-- `GitCommit`, `parseTimeFromLogPart`, `parseNextCommitFromLog`, `parseCommitFileNames` and
-- `parseCommitLogOutput` of `server/fileviewer/fileview.go`. A date is the number of seconds that time.Unix
-- is given, an int64 kept as its bit pattern. The slices that the code appends to were cut off by
-- bytes.SplitN with no room behind them, so no append writes into the log. An error is `none`.
pub mod RoundTrip
pub mod Total
use livegrep.GoText.Decimal.{atoi}
use livegrep.GoText.Split.{split_n, split}
use livegrep.Prelude.{
  ℕ, zero, suc, ◌+◌, Bool, true, false, Option, none, some, List, [], ◌∷◌, ◌++◌, ◌==◌,
  if◌then◌else◌, ◌>>=◌, Text, length,
}

pub record Signature : Type 0 where
  pub name : Text
  pub email : Text
  pub date : ℕ

pub record GitCommit : Type 0 where
  pub id : Text
  pub author : Signature
  pub committer : Signature
  pub subject : Text
  pub body : Text
  pub parents : List Text
  pub files : List Text

-- the parts of a commit in the log, as `logFormatWithoutRefs` orders them
pub record Parts : Type 0 where
  pub hash : Text
  pub author_name : Text
  pub author_email : Text
  pub author_date : Text
  pub committer_name : Text
  pub committer_email : Text
  pub committer_date : Text
  pub subject_line : Text
  pub body_text : Text
  pub parent_hashes : Text

-- the first ten parts, and those behind them
abbrev pub ten_parts : List Text → Option (Parts × List Text)
ten_parts (p0 ∷ (p1 ∷ (p2 ∷ (p3 ∷ (p4 ∷ (p5 ∷ (p6 ∷ (p7 ∷ (p8 ∷ (p9 ∷ more)))))))))) = some (
  record {
    hash = p0;
    author_name = p1;
    author_email = p2;
    author_date = p3;
    committer_name = p4;
    committer_email = p5;
    committer_date = p6;
    subject_line = p7;
    body_text = p8;
    parent_hashes = p9;
  },
  more,
)
ten_parts _ = none

-- bytes.TrimPrefix of one newline
abbrev pub trim_newline : Text → Text
trim_newline [] = []
trim_newline (c ∷ s) = if c == b'\n' then s else c ∷ s

abbrev pub parse_time_from_log_part : Text → Option ℕ
parse_time_from_log_part part = atoi part

abbrev pub parse_parents : Text → List Text
parse_parents [] = []
parse_parents (c ∷ s) = split b' ' (c ∷ s)

-- What `parseCommitFileNames` takes off the parts behind the tenth.
pub record FileNames : Type 0 where
  pub names : List Text
  pub next_commit : Text
  pub behind : List Text

-- every line but the last, less the empty ones
abbrev pub names_of : List Text → List Text
names_of [] = []
names_of (l ∷ []) = []
names_of ([] ∷ (l ∷ ls)) = names_of (l ∷ ls)
names_of ((c ∷ s) ∷ (l ∷ ls)) = (c ∷ s) ∷ names_of (l ∷ ls)

abbrev pub last_of : List Text → Text
last_of [] = []
last_of (l ∷ []) = l
last_of (l ∷ (m ∷ ls)) = last_of (m ∷ ls)

-- `none` where the part with the names is missing, which the test of the number of parts finds
abbrev pub parse_commit_file_names : Bool → List Text → Option FileNames
parse_commit_file_names false more = some (record { names = []; next_commit = []; behind = more })
parse_commit_file_names true [] = none
parse_commit_file_names true (part ∷ more) =
    let file_name_parts = split b'\n' (trim_newline part) in
    some (record {
      names = names_of file_name_parts;
      next_commit = last_of file_name_parts;
      behind = more;
    })

-- what is left of the log
abbrev pub rest_of : Text → List Text → Text
rest_of next_commit [] = []
rest_of [] (r ∷ rs) = r
rest_of (c ∷ s) (r ∷ rs) = (c ∷ s) ++ (0 ∷ r)

abbrev pub make_commit : Parts → List Text → ℕ → ℕ → GitCommit
make_commit p names author_time committer_time = record {
  id = trim_newline p.hash;
  author = record { name = p.author_name; email = p.author_email; date = author_time };
  committer = record { name = p.committer_name; email = p.committer_email; date = committer_time };
  subject = p.subject_line;
  body = p.body_text;
  parents = parse_parents p.parent_hashes;
  files = names;
}

abbrev pub parts_per_commit : Bool → ℕ
parts_per_commit name_only = if name_only then 11 else 10

unfoldable pub parse_next_commit_from_log : Bool → Text → Option (GitCommit × Text)
unfolding split split_n atoi
parse_next_commit_from_log name_only raw_log = do
  parts ← ten_parts (split_n 0 (parts_per_commit name_only) raw_log)
  files ← parse_commit_file_names name_only parts.1
  author_time ← parse_time_from_log_part parts.0.author_date
  committer_time ← parse_time_from_log_part parts.0.committer_date
  some (
    make_commit parts.0 files.names author_time committer_time,
    rest_of files.next_commit files.behind,
  )

-- the commit in front of what the rest of the log gives
abbrev pub prepend : GitCommit → Option (Option (List GitCommit)) → Option (Option (List GitCommit))
prepend c none = none
prepend c (some none) = some none
prepend c (some (some cs)) = some (some (c ∷ cs))

-- The loop over the log; the outer `none` means that the fuel ran out.
unfoldable pub parse_commits : ℕ → Bool → Text → Option (Option (List GitCommit))
parse_commits zero name_only raw_log = none
parse_commits (suc fuel) name_only [] = some (some [])
parse_commits (suc fuel) name_only (c ∷ s) = elim (parse_next_commit_from_log name_only (c ∷ s)) [
  | none ↦ some none
  | some (commit, rest) ↦ prepend commit (parse_commits fuel name_only rest)
]

unfoldable pub parse_commit_log_output : Text → Bool → Option (Option (List GitCommit))
parse_commit_log_output raw_log name_only = parse_commits (length raw_log + 1) name_only raw_log
