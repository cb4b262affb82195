-- ===== src/Pages/Commands.antt =====
-- `gitCommitHash`, `gitObjectType`, `gitCatBlob`, `GitRevParseAbbrev`, `GitGetLastRevToTouchPath`,
-- `GetLsTreeOutput`, `BuildDirectoryTree` and `GetDiffBetweenTwoCommits` of
-- `server/fileviewer/fileview.go`, and the head of `gitListDir`: the arguments of git, and what is made of its output.
use livegrep.Call.{panics, map_option, error, Call, value, ◌>>=◌, Git, of_run}
use livegrep.Diff.{GitDiff}
use livegrep.Diff.Unified.{parse_git_unified_diff}
use livegrep.Directory.{GitTreeEntry, git_list_dir}
use livegrep.Directory.Tree.{refused, built, TreeNode, TreeBuild, build_directory_tree, TreeError}
use livegrep.GoText.Space.{trim_space}
use livegrep.Pages.{RepoConfig}
use livegrep.Prelude.{ℕ, Bool, Option, some, List, [], ◌∷◌, ◌++◌, if◌then◌else◌, Text, codes}
use livegrep.Scanner.{Scanner}

module _ (git : Git) where
  unfoldable pub git_commit_hash : Text → Text → Call Text
  git_commit_hash ref repo_path = git (codes "-C" ∷ repo_path ∷ codes "rev-parse" ∷ ref ∷ [])

  unfoldable pub git_object_type : Text → Text → Call Text
  unfolding trim_space
  git_object_type obj repo_path = do
    out ← git (codes "-C" ∷ repo_path ∷ codes "cat-file" ∷ codes "-t" ∷ obj ∷ [])
    value (trim_space out)

  unfoldable pub git_cat_blob : Text → Text → Call Text
  git_cat_blob obj repo_path =
      git (codes "-C" ∷ repo_path ∷ codes "cat-file" ∷ codes "blob" ∷ obj ∷ [])

  unfoldable pub git_rev_parse_abbrev : Text → Text → Call Text
  unfolding trim_space
  git_rev_parse_abbrev rev repo_path = do
    out ← git (codes "-C" ∷ repo_path ∷ codes "rev-parse" ∷ codes "--abbrev-ref" ∷ rev ∷ [])
    value (trim_space out)

  -- the cleaned path of the function is not used
  unfoldable pub git_get_last_rev_to_touch_path : Text → Text → Text → Call Text
  unfolding trim_space
  git_get_last_rev_to_touch_path relative_path repo_path repo_rev = do
    out ← git (
        codes "-C"
        ∷ repo_path
        ∷ codes "rev-list"
        ∷ codes "-1"
        ∷ repo_rev
        ∷ codes "--"
        ∷ relative_path
        ∷ [])
    value (trim_space out)

  -- `gitListDir`, the call of git included
  unfoldable pub list_dir : Text → Text → Call (List GitTreeEntry)
  unfolding git_list_dir
  list_dir obj repo_path = do
    out ← git (codes "-C" ∷ repo_path ∷ codes "cat-file" ∷ codes "-p" ∷ obj ∷ [])
    of_run (git_list_dir out)

  unfoldable pub get_ls_tree_output : Text → Text → Call Text
  get_ls_tree_output repo commit = git (
      codes "-C"
      ∷ repo
      ∷ codes "ls-tree"
      ∷ codes "--long"
      ∷ codes "--full-name"
      ∷ codes "-z"
      ∷ codes "-r"
      ∷ codes "-t"
      ∷ commit
      ∷ [])

-- the text of an error of `buildDirectoryTree` is a parameter
module _ (git : Git) (base : Text → Text) (tree_error : TreeError → Text) where
  abbrev pub tree_of : TreeBuild → Call TreeNode
  tree_of (built t) = value t
  tree_of (refused e) = error (tree_error e)

  -- `BuildDirectoryTree`; the path is not used
  unfoldable pub directory_tree : Text → Text → Call TreeNode
  unfolding get_ls_tree_output build_directory_tree
  directory_tree repo commit = do
    out ← get_ls_tree_output git repo commit
    t ← of_run (build_directory_tree base out)
    tree_of t

-- `start` is git as a process that is only started: what it writes, whatever its exit status is. `scan` is
-- what a bufio.Scanner gives of it, with lines of `capacity` bytes in the lines that a hunk can hold.
module _ (start : Git) (scan : Text → Scanner) (capacity : ℕ) where
  abbrev pub diff_args : Text → Text → Text → Bool → Text → List Text
  diff_args repo_path old_rev new_rev hide_whitespace relative_path =
      (codes "-C" ∷ repo_path ∷ codes "diff" ∷ old_rev ∷ new_rev ∷ [])
      ++ ((if hide_whitespace then codes "-w" ∷ [] else [])
          ++ (codes "-z" ∷ codes "--no-color" ∷ codes "--" ∷ relative_path ∷ []))

  abbrev read_diff : Call Text → Option (Call (Option GitDiff))
  read_diff (value out) = map_option of_run (parse_git_unified_diff capacity (scan out))
  read_diff (error e) = some (error e)
  read_diff (panics r) = some (panics r)

  -- `GetDiffBetweenTwoCommits`; the outer option is that of `parse_git_unified_diff`
  unfoldable pub get_diff_between_two_commits :
      Text → RepoConfig → Text → Text → Bool → Option (Call (Option GitDiff))
  unfolding parse_git_unified_diff
  get_diff_between_two_commits relative_path repo old_rev new_rev hide_whitespace =
      read_diff (start (diff_args repo.path old_rev new_rev hide_whitespace relative_path))
