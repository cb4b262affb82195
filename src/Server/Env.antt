-- ===== src/Server/Env.antt =====
-- What the handlers of `server/server.go` call outside of the repository's code. `git` is a command that is run
-- to its end, `start` one that is only started: what it writes, whatever its exit status is. `scan_lines` and
-- `scan_shown` are bufio.Scanners, the second one with `ScanGitShowEntry`. The texts of errors of package strconv and of the parsers are parameters.
use livegrep.Call.{Git}
use livegrep.Directory.Tree.{TreeError}
use livegrep.GoText.Decimal.{word, magnitude}
use livegrep.Log.Build.{LogError}
use livegrep.Pages.{Paths}
use livegrep.Prelude.{ℕ, Option, none, some, List, ltb, if◌then◌else◌, Text}
use livegrep.Scanner.{Scanner}

pub record Env : Type 0 where
  pub git : Git
  pub start : Git
  pub scan_lines : Text → Scanner
  pub scan_shown : Text → List Text
  pub capacity : ℕ
  pub paths : Paths
  -- the extensions of readmes in the order of the regular expression
  pub exts : List Text
  pub tree_error : TreeError → Text
  pub log_error : LogError → Text
  pub parse_error : Text → Text

-- strconv.ParseUint with base 10 and 64 bits
unfoldable pub parse_uint : Text → Option ℕ
unfolding magnitude
parse_uint s = elim (magnitude s) [ none ↦ none | some v ↦ if ltb v word then some v else none ]
