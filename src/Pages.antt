-- ===== src/Pages.antt =====
-- The data of the file pages of `server/fileviewer/fileview.go`: the page types, and the functions of packages
-- path, path/filepath and net/url that they call, which are parameters.
pub mod Build
pub mod Commands
pub mod Content
pub mod Segments
pub mod SimpleLog
pub mod Readme
use livegrep.Dict.{Dict}
use livegrep.Directory.{DirectoryListEntry}
use livegrep.Directory.Tree.{TreeNode}
use livegrep.Prelude.{
  ℕ, zero, suc, ◌+◌, ◌/◌, refl, Bool, true, false, Option, none, some, List, [], ◌∷◌, ◌++◌,
  if◌then◌else◌, ◌>>=◌, Text, codes, text_eq,
}
use livegrep.Refs.{GitTag, GitBranch}

pub record RepoConfig : Type 0 where
  pub path : Text
  pub name : Text
  pub revisions : List Text
  pub metadata : Dict Text Text
  pub walk_submodules : Bool

pub record BreadCrumbEntry : Type 0 where
  pub name : Text
  pub path : Text

pub record SourceFileContent : Type 0 where
  pub content : Text
  pub line_count : ℕ
  pub language : Text
  pub file_name : Text
  pub file_path : Text
  pub invalid : Bool

pub record DirectoryContent : Type 0 where
  pub entries : List DirectoryListEntry
  -- a pointer, which may be nil
  pub readme_content : Option SourceFileContent

-- without `BlameData`, which nothing sets; a nil pointer is `none`
pub record FileViewerContext : Type 0 where
  pub path_segments : List BreadCrumbEntry
  pub repo : RepoConfig
  pub repo_rev : Text
  pub head_rev : Text
  pub commit : Text
  pub commit_hash : Text
  pub short_commit_hash : Text
  pub dir_content : Option DirectoryContent
  pub file_content : Option SourceFileContent
  pub external_domain : Text
  pub permalink : Text
  pub headlink : Text
  pub log_link : Text
  pub file_path : Text
  pub file_name : Text
  pub directory_tree : Option TreeNode
  pub branches : List GitBranch
  pub tags : List GitTag
  pub repo_config : RepoConfig
  pub migration_url : Text

-- path.Clean, filepath.Join, filepath.Base, filepath.Ext, and the host name of what url.Parse reads
pub record Paths : Type 0 where
  pub clean : Text → Text
  pub join : Text → Text → Text
  pub base : Text → Text
  pub ext : Text → Text
  pub host : Text → Option Text

-- `path.Clean`, with the empty text for the root
unfoldable pub clean_path : Paths → Text → Text
unfolding text_eq
clean_path paths p = let c = paths.clean p in if text_eq c (codes ".") then [] else c

unfoldable pub migration_url : Text → Text → Text → Text
migration_url repo path rev =
    codes "/experimental/" ++ (repo ++ (codes "/+/" ++ (rev ++ (codes ":" ++ path))))
