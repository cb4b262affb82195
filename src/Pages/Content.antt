-- ===== src/Pages/Content.antt =====
-- What `BuildFileData` and `BuildFileDataForZoektFilePreview` of `server/fileviewer/fileview.go` read from git: the
-- hash of a commit, and the content of a file or a directory.
pub mod Entries
use livegrep.Call.{map_option, to_option, Call, value, error, panics, ◌>>=◌, Git}
use livegrep.Dict.{text_key, number_key}
use livegrep.Directory.{
  ext_to_lang_map, less, file_language, build_directory_list_entry, DirectoryListEntry,
  GitTreeEntry, get_lang,
}
use livegrep.GoText.Split.{cut_at}
use livegrep.Pages.{DirectoryContent, Paths, SourceFileContent}
use livegrep.Pages.Commands.{git_object_type, list_dir, git_cat_blob, git_commit_hash}
use livegrep.Pages.Readme.{Readme}
use livegrep.Prelude.{
  ℕ, ◌+◌, Bool, false, Option, none, some, List, [], ◌∷◌, ◌++◌, map, ltb, ◌==◌, if◌then◌else◌, Text,
  codes, text_eq, length, take,
}
use livegrep.Runtime.{slice_out_of_range}
use livegrep.Sort.{sort}

-- `strings.Count(content, "\n")`
unfoldable pub count_newlines : Text → ℕ
count_newlines [] = 0
count_newlines (c ∷ s) = (if c == b'\n' then 1 else 0) + count_newlines s

-- `out[:strings.Index(out, "\n")]`
unfoldable pub first_line : Text → Call Text
unfolding cut_at
first_line out = elim (cut_at b'\n' out) [ none ↦ panics slice_out_of_range | some r ↦ value r.0 ]

-- `s[:n]`
unfoldable pub slice_to : ℕ → Text → Call Text
slice_to n s = if ltb (length s) n then panics slice_out_of_range else value (take n s)

-- `fileContent` and `dirContent`
pub record Contents : Type 0 where
  pub file : Option SourceFileContent
  pub dir : Option DirectoryContent

module _ (git : Git) (paths : Paths) where
  unfoldable pub commit_hash_of : Text → Text → Call Text
  unfolding git_commit_hash first_line
  commit_hash_of commit repo_path = elim (git_commit_hash git commit repo_path) [
    | value out ↦ first_line out
    | error e ↦ value commit
    | panics r ↦ panics r
  ]

  abbrev pub list_entry : Text → Text → Text → Text → Bool → GitTreeEntry → DirectoryListEntry
  list_entry clean repo_name repo_path hash use_view_url entry =
      build_directory_list_entry paths.join paths.clean
        (λ obj. to_option (git_cat_blob git obj repo_path)) entry clean repo_name hash use_view_url

  -- the content of the readme, if git gives it
  unfoldable pub readme_content_of : Text → Text → Option Readme → Option SourceFileContent
  unfolding get_lang git_cat_blob count_newlines
  readme_content_of repo_path relative_path none = none
  readme_content_of repo_path relative_path (some r) =
      map_option
        (λ content. record {
          content = content;
          line_count = count_newlines content;
          language = get_lang ext_to_lang_map (codes "." ++ r.lang);
          file_name = r.name;
          file_path = relative_path;
          invalid = false;
        })
        (to_option (git_cat_blob git r.path repo_path))

  -- `pick` is the loop that chooses the readme
  module _ (pick : Text → List DirectoryListEntry → Option Readme) (use_view_url : Bool)
      (repo_name repo_path hash clean relative_path : Text) where
    abbrev pub object_name : Text
    object_name = hash ++ (codes ":" ++ clean)

    abbrev pub directory_content : List DirectoryListEntry → DirectoryContent
    directory_content entries = record {
      entries = sort less entries;
      readme_content = readme_content_of repo_path relative_path (pick object_name entries);
    }

    unfoldable pub read_directory : Call Contents
    unfolding list_dir build_directory_list_entry sort less readme_content_of
    read_directory = do
      tree_entries ← list_dir git object_name repo_path
      value (record {
        file = none;
        dir = some (
            directory_content
              (map (list_entry clean repo_name repo_path hash use_view_url) tree_entries));
      })

    unfoldable pub read_file : Call Contents
    unfolding git_cat_blob get_lang
    read_file = do
      content ← git_cat_blob git object_name repo_path
      value (record {
        file = some (record {
          content = content;
          line_count = 0;
          language = file_language (paths.base clean) (paths.ext clean);
          file_name = paths.base clean;
          file_path = relative_path;
          invalid = false;
        });
        dir = none;
      })

    -- by the type of the object: neither file nor directory is read if it is another one
    abbrev pub read_typed : Text → Call Contents
    read_typed object_type =
        if text_eq object_type (codes "tree")
        then read_directory
        else if text_eq object_type (codes "blob")
        then read_file
        else value (record { file = none; dir = none })

    unfoldable pub read_object : Call Contents
    unfolding git_object_type read_directory read_file text_eq
    read_object = do object_type ← git_object_type git object_name repo_path; read_typed object_type
