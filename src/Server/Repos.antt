-- ===== src/Server/Repos.antt =====
-- `buildReposAndParents`, `buildRepoRegex` and `getRepoPathFromURL` of `server/server.go`: the repositories by parent
-- and name, and the repository that a URL names. `buildRepoRegex` sorts with a comparison that is no
-- strict order; the order of the names that it leaves is a parameter.
pub mod Agreement
pub mod Longest
use livegrep.Dict.{insert, lookup, Dict, text_key, number_key}
use livegrep.GoText.Prefix.{strip_prefix}
use livegrep.GoText.Split.{cut_at}
use livegrep.Pages.{RepoConfig}
use livegrep.Pages.Build.{no_config}
use livegrep.Prelude.{
  ℕ, zero, suc, ◌+◌, ◌/◌, refl, Bool, true, false, Option, none, some, List, [], ◌∷◌, ◌++◌, ◌==◌,
  if◌then◌else◌, Text, codes,
}
use livegrep.Runtime.{slice_out_of_range, Run, ret, panic, ◌>>=◌}

abbrev pub Parents : Type 0
Parents = Dict Text (Dict Text RepoConfig)

-- a missing key gives the zero value
abbrev pub repo_at : Dict Text RepoConfig → Text → RepoConfig
repo_at repos name = elim (lookup name repos) [ none ↦ no_config | some r ↦ r ]

abbrev pub or_empty : Option (Dict Text RepoConfig) → Dict Text RepoConfig
or_empty none = []
or_empty (some m) = m

abbrev pub children_at : Text → Parents → Dict Text RepoConfig
children_at parent m = or_empty (lookup parent m)

module _ (repos : Dict Text RepoConfig) where
  -- one round; a name without a slash has no parent
  unfoldable pub add_repo : Text → Parents → Run Parents
  unfolding cut_at lookup insert
  add_repo name m = elim (cut_at b'/' name) [
    | none ↦ panic slice_out_of_range
    | some r ↦ ret (insert r.0 (insert r.1 (repo_at repos name) (children_at r.0 m)) m)
  ]

  unfoldable pub add_repos : List Text → Parents → Run Parents
  unfolding add_repo
  add_repos [] m = ret m
  add_repos (name ∷ names) m = do m' ← add_repo name m; add_repos names m'

  unfoldable pub build_repos_and_parents : List Text → Run Parents
  unfolding add_repos
  build_repos_and_parents names = add_repos names []

-- the loop of `New` over the repositories of the configuration
unfoldable pub load_repos : Dict Text RepoConfig → List RepoConfig → Dict Text RepoConfig
unfolding insert
load_repos repos [] = repos
load_repos repos (r ∷ rs) = load_repos (insert r.name r repos) rs

-- `.*`, up to the end of a line
unfoldable pub until_newline : Text → Text
until_newline [] = []
until_newline (c ∷ s) = if c == b'\n' then [] else c ∷ until_newline s

-- a match of `(repo1|repo2)/(.*)` that begins here: the first name with a slash behind it
unfoldable pub match_repo : List Text → Text → Option (Text × Text)
unfolding strip_prefix until_newline
match_repo [] s = none
match_repo (name ∷ names) s =
    let later = match_repo names s in
    elim (strip_prefix (name ++ codes "/") s) [
      | none ↦ later
      | some rest ↦ some (name, until_newline rest)
    ]

-- without names the alternation is the empty text
abbrev pub alternatives : List Text → List Text
alternatives [] = [] ∷ []
alternatives (n ∷ ns) = n ∷ ns

-- `FindStringSubmatch`, which is not anchored; `none` is the error of a URL that cannot be parsed
unfoldable pub find_repo_path : List Text → Text → Option (Text × Text)
unfolding match_repo
find_repo_path names [] = match_repo names []
find_repo_path names (c ∷ s) =
    let later = find_repo_path names s in
    elim (match_repo names (c ∷ s)) [ none ↦ later | some r ↦ some r ]

unfoldable pub get_repo_path_from_url : List Text → Text → Option (Text × Text)
unfolding find_repo_path
get_repo_path_from_url names s = find_repo_path (alternatives names) s
