-- ===== src/Tests/PageTests.antt =====
-- The theorems about the pages of `server/fileviewer/fileview.go` and the handlers of `server/server.go` at
-- concrete inputs.
use livegrep.Dict.{lookup, text_key, number_key}
use livegrep.Directory.{DirectoryListEntry}
use livegrep.GoText.Decimal.{is_digit}
use livegrep.GoText.Prefix.{has_prefix}
use livegrep.GoText.Regexp.{contains_byte}
use livegrep.GoText.Split.{contains_byte-Lacks, Lacks}
use livegrep.Pages.{Paths, RepoConfig}
use livegrep.Pages.Readme.{
  lower, match_ext, strip_fold, readme_here, find_readme, last_readme, is_bare_readme,
  supported_readme_extensions, Readme, first_readme, readme_of,
}
use livegrep.Pages.Readme.Choice.{first_readme-choice}
use livegrep.Pages.SimpleLog.{is_word, LogCommit, simple_log_of_output}
use livegrep.Pages.SimpleLog.RoundTrip.{IsListed, simple_log_of_output-git_log_z, git_log_z}
use livegrep.Prelude.{
  ◌≡◌, refl, true, false, Option, none, some, List, [], ◌∷◌, ◌++◌, arith, Text, codes, text_eq, All,
}
use livegrep.Runtime.{ret}
use livegrep.Server.Repos.{load_repos, build_repos_and_parents, Parents, get_repo_path_from_url}
use livegrep.Server.Repos.Agreement.{build_repos_and_parents-lookup, repo_under, has_name}
use livegrep.Server.Repos.Longest.{get_repo_path_from_url-longest, IsMatch}
use livegrep.Server.Revision.{split_rev_path-link, split_rev_path}

abbrev paths : Paths
paths = record {
  clean = λ p. p;
  join = λ a b. a ++ codes "/" ++ b;
  base = λ p. p;
  ext = λ p. [];
  host = λ u. none;
}

abbrev kernel : RepoConfig
kernel = record {
  path = codes "/k";
  name = codes "torvalds/linux";
  revisions = [];
  metadata = [];
  walk_submodules = false;
}

abbrev tools : RepoConfig
tools = record kernel { path = codes "/t"; name = codes "torvalds/linux-tools" }

abbrev fix : LogCommit
fix = record {
  hash = codes "ab1";
  short_hash = codes "ab";
  author_name = codes "A B";
  author_email = codes "a@b";
  subject = codes "fix";
  date = codes "now";
  body = codes "x\n";
}

fix-IsListed : IsListed fix
unfolding contains_byte is_word is_digit
fix-IsListed = record {
  hash_words = (refl, (refl, (refl, tt)));
  short_words = (refl, (refl, tt));
  plain_name = contains_byte-Lacks b'>' fix.author_name refl;
  plain_email = contains_byte-Lacks b'>' fix.author_email refl;
  one_line_subject = contains_byte-Lacks b'\n' fix.subject refl;
  one_line_date = contains_byte-Lacks b'\n' fix.date refl;
  no_nul_hash = contains_byte-Lacks 0 fix.hash refl;
  no_nul_short = contains_byte-Lacks 0 fix.short_hash refl;
  no_nul_name = contains_byte-Lacks 0 fix.author_name refl;
  no_nul_email = contains_byte-Lacks 0 fix.author_email refl;
  no_nul_subject = contains_byte-Lacks 0 fix.subject refl;
  no_nul_date = contains_byte-Lacks 0 fix.date refl;
  no_nul_body = contains_byte-Lacks 0 fix.body refl;
}

simple_log_of_output-git_log_z_example :
    let log =
      simple_log_of_output paths (codes "HEAD") kernel (codes "a") (git_log_z (fix ∷ fix ∷ [])) in
    (log.commits ≡ fix ∷ []) × (log.next_parent ≡ codes "ab1") × (log.maybe_last_page ≡ true)
simple_log_of_output-git_log_z_example =
    simple_log_of_output-git_log_z paths (codes "HEAD") kernel (codes "a") (fix ∷ fix ∷ [])
      (fix-IsListed, (fix-IsListed, tt)) (omega arith)

no_colons : All (Lacks b':') (codes "v6" ∷ (codes "a/b" ∷ (codes "c" ∷ [])))
unfolding contains_byte
no_colons = (
  contains_byte-Lacks b':' (codes "v6") refl,
  (contains_byte-Lacks b':' (codes "a/b") refl, (contains_byte-Lacks b':' (codes "c") refl, tt)),
)

split_rev_path-link_example :
    (split_rev_path (codes "v6:a/b") ≡ (codes "v6", codes "a/b"))
    × (split_rev_path (codes "v6") ≡ (codes "v6", []))
    × (split_rev_path (codes "v6:a/b:c") ≡ (codes "HEAD", []))
split_rev_path-link_example =
    split_rev_path-link (codes "v6") (codes "a/b") (codes "c") [] no_colons

no_slash : Lacks b'/' (codes "torvalds")
unfolding contains_byte
no_slash = contains_byte-Lacks b'/' (codes "torvalds") refl

same_names :
    has_name (codes "torvalds/linux") (codes "torvalds/linux-tools" ∷ codes "torvalds/linux" ∷ [])
    ≡ has_name (codes "torvalds/linux") (codes "torvalds/linux" ∷ codes "torvalds/linux-tools" ∷ [])
unfolding has_name text_eq
same_names = refl

build_repos_and_parents-lookup_example :
    (m : Parents) × (build_repos_and_parents
        (load_repos [] (kernel ∷ tools ∷ []))
        (codes "torvalds/linux-tools" ∷ codes "torvalds/linux" ∷ [])
      ≡ ret m)
    × (repo_under (codes "torvalds") (codes "linux") m
        ≡ lookup (codes "torvalds/linux") (load_repos [] (kernel ∷ tools ∷ [])))
build_repos_and_parents-lookup_example =
    build_repos_and_parents-lookup (kernel ∷ tools ∷ [])
      ((codes "torvalds", codes "linux-tools") ∷ (codes "torvalds", codes "linux") ∷ [])
      (codes "torvalds", codes "linux") (no_slash, (no_slash, tt)) no_slash same_names

one_line : Lacks b'\n' (codes "torvalds/linux/a.c")
unfolding contains_byte
one_line = contains_byte-Lacks b'\n' (codes "torvalds/linux/a.c") refl

abbrev names : List Text
names = codes "torvalds/linux-tools" ∷ codes "torvalds/linux" ∷ []

get_repo_path_from_url-longest_example :
    (r : Text × Text) × (get_repo_path_from_url names (codes "torvalds/linux/a.c") ≡ some r)
    × IsMatch names (codes "torvalds/linux/a.c") 14 r
get_repo_path_from_url-longest_example =
    get_repo_path_from_url-longest names 1 (codes "torvalds/linux") (codes "a.c")
      ((omega arith, tt), (tt, tt)) refl one_line

abbrev listed : Text → DirectoryListEntry
listed name = record { name = name; path = []; is_dir = false; symlink_target = [] }

abbrev found_readme : Readme
found_readme = record { name = codes "ReadMe.md"; path = codes "ab:ReadMe.md"; lang = codes "md" }

readme_run : List Text → Text → Text → Option Readme
unfolding readme_of is_bare_readme find_readme readme_here strip_fold match_ext lower has_prefix
readme_run = readme_of

readme_found :
    readme_of supported_readme_extensions (codes "ab:") (codes "ReadMe.md") ≡ some found_readme
unfolding readme_run
readme_found = refl

no_readme : readme_of supported_readme_extensions (codes "ab:") (codes "a.c") ≡ none
unfolding readme_run
no_readme = refl

-- the name of the entry is not what is looked up
readme_backup :
    readme_of supported_readme_extensions (codes "ab:docs") (codes "README.md.orig")
    ≡ some (record { name = codes "README.md"; path = codes "ab:docsREADME.md"; lang = codes "md" })
unfolding readme_run
readme_backup = refl

first_readme-choice_example :
    (first_readme supported_readme_extensions
        (codes "ab:")
        none
        (listed (codes "a.c") ∷ listed (codes "ReadMe.md") ∷ [])
      ≡ some found_readme)
    × (last_readme supported_readme_extensions
          (codes "ab:")
          none
          (listed (codes "ReadMe.md") ∷ listed (codes "a.c") ∷ [])
        ≡ some found_readme)
first_readme-choice_example =
    first_readme-choice supported_readme_extensions (codes "ab:") (listed (codes "a.c") ∷ []) []
      (listed (codes "ReadMe.md")) found_readme readme_found (no_readme, tt)
