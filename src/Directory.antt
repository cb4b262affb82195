-- ===== src/Directory.antt =====
-- Directories and files of `server/fileviewer/fileview.go`: the tree entries of `git cat-file -p`, the
-- order of a listing, the links of its entries, and the language of a file. A function of package path
-- or path/filepath and a call of git are parameters.
pub mod Entries
pub mod Order
pub mod Tree
use livegrep.GoText.Split.{split_n, split}
use livegrep.Prelude.{
  ℕ, Bool, true, false, Option, none, some, List, [], ◌∷◌, ◌++◌, ltb, ◌==◌, if◌then◌else◌, Text,
  codes, text_eq, get_elem?,
}
use livegrep.Runtime.{index_out_of_range, Run, ret, panic, ◌>>=◌}

abbrev pub LangMap : Type 0
LangMap = List (Text × Text)

abbrev pub filename_to_lang_map : LangMap
filename_to_lang_map =
    (codes "BUILD", codes "python")
    ∷ (codes "BUILD.bazel", codes "python")
    ∷ (codes "WORKSPACE", codes "python")
    ∷ []

abbrev pub ext_to_lang_map : LangMap
ext_to_lang_map =
    (codes ".adoc", codes "AsciiDoc")
    ∷ (codes ".asc", codes "AsciiDoc")
    ∷ (codes ".asciidoc", codes "AsciiDoc")
    ∷ (codes ".AppleScript", codes "applescript")
    ∷ (codes ".bzl", codes "python")
    ∷ (codes ".c", codes "c")
    ∷ (codes ".coffee", codes "coffeescript")
    ∷ (codes ".cpp", codes "cpp")
    ∷ (codes ".css", codes "css")
    ∷ (codes ".go", codes "go")
    ∷ (codes ".h", codes "cpp")
    ∷ (codes ".hs", codes "haskell")
    ∷ (codes ".html", codes "html")
    ∷ (codes ".java", codes "java")
    ∷ (codes ".js", codes "javascript")
    ∷ (codes ".json", codes "json")
    ∷ (codes ".jsx", codes "jsx")
    ∷ (codes ".m", codes "objectivec")
    ∷ (codes ".markdown", codes "markdown")
    ∷ (codes ".md", codes "markdown")
    ∷ (codes ".mdown", codes "markdown")
    ∷ (codes ".mkdn", codes "markdown")
    ∷ (codes ".mediawiki", codes "markdown")
    ∷ (codes ".nix", codes "nix")
    ∷ (codes ".php", codes "php")
    ∷ (codes ".pl", codes "perl")
    ∷ (codes ".proto", codes "go")
    ∷ (codes ".py", codes "python")
    ∷ (codes ".pyst", codes "python")
    ∷ (codes ".rb", codes "ruby")
    ∷ (codes ".rdoc", codes "markdown")
    ∷ (codes ".rs", codes "rust")
    ∷ (codes ".scala", codes "scala")
    ∷ (codes ".scpt", codes "applescript")
    ∷ (codes ".scss", codes "scss")
    ∷ (codes ".sh", codes "bash")
    ∷ (codes ".sky", codes "python")
    ∷ (codes ".sql", codes "sql")
    ∷ (codes ".swift", codes "swift")
    ∷ (codes ".textile", codes "markdown")
    ∷ (codes ".ts", codes "typescript")
    ∷ (codes ".tsx", codes "tsx")
    ∷ (codes ".wiki", codes "markdown")
    ∷ (codes ".xml", codes "xml")
    ∷ (codes ".yaml", codes "yaml")
    ∷ (codes ".yml", codes "yaml")
    ∷ []

-- a missing key gives the empty text
unfoldable pub get_lang : LangMap → Text → Text
unfolding text_eq
get_lang [] k = []
get_lang ((j, v) ∷ m) k = if text_eq j k then v else get_lang m k

abbrev or_else_text : Text → Text → Text
or_else_text [] t = t
or_else_text (c ∷ s) t = c ∷ s

-- the language of a file from its name and its extension
abbrev pub file_language : Text → Text → Text
file_language filename ext =
    or_else_text (get_lang filename_to_lang_map filename) (get_lang ext_to_lang_map ext)

pub record DirectoryListEntry : Type 0 where
  pub name : Text
  pub path : Text
  pub is_dir : Bool
  pub symlink_target : Text

-- `<` on strings
unfoldable pub text_lt : Text → Text → Bool
text_lt s [] = false
text_lt [] (d ∷ t) = true
text_lt (c ∷ s) (d ∷ t) = if ltb c d then true else if c == d then text_lt s t else false

-- `DirListingSort.Less`, at two entries
unfoldable pub less : DirectoryListEntry → DirectoryListEntry → Bool
less a b =
    if a.is_dir
    then (if b.is_dir then text_lt a.name b.name else true)
    else if b.is_dir
    then false
    else text_lt a.name b.name

pub record GitTreeEntry : Type 0 where
  pub mode : Text
  pub object_type : Text
  pub object_id : Text
  pub object_name : Text

-- an index into a slice
abbrev pub part_at : List Text → ℕ → Run Text
part_at ps i = elim (get_elem? ps i) [ none ↦ panic index_out_of_range | some p ↦ ret p ]

unfoldable pub git_parse_tree_entry : Text → Run GitTreeEntry
unfolding split split_n
git_parse_tree_entry line =
    let data_and_path = split_n b'\t' 1 line in
    do
      first ← part_at data_and_path 0
      mode ← part_at (split b' ' first) 0
      object_type ← part_at (split b' ' first) 1
      object_id ← part_at (split b' ' first) 2
      object_name ← part_at data_and_path 1
      ret (record {
        mode = mode;
        object_type = object_type;
        object_id = object_id;
        object_name = object_name;
      })

abbrev pub parse_entries : List Text → Run (List GitTreeEntry)
parse_entries [] = ret []
parse_entries (line ∷ lines) = do
  e ← git_parse_tree_entry line
  es ← parse_entries lines
  ret (e ∷ es)

-- `lines[:len(lines)-1]`
abbrev pub drop_last : List Text → List Text
drop_last [] = []
drop_last (l ∷ []) = []
drop_last (l ∷ (m ∷ ls)) = l ∷ drop_last (m ∷ ls)

-- `gitListDir` on what git wrote
unfoldable pub git_list_dir : Text → Run (List GitTreeEntry)
unfolding split git_parse_tree_entry
git_list_dir out = parse_entries (drop_last (split b'\n' out))

unfoldable pub view_url : Text → Text → Bool → Text
view_url repo path is_dir =
    codes "/delve/"
    ++ (repo
        ++ (codes "/"
            ++ ((if is_dir then codes "tree" else codes "blob")
                ++ (codes "/" ++ (codes "HEAD/" ++ path)))))

-- `join_path` is filepath.Join, `clean` is path.Clean, and `cat_blob` is `gitCatBlob` in the repository,
-- `none` if git fails.
module _ (join_path : Text → Text → Text) (clean : Text → Text)
    (cat_blob : Text → Option Text) where
  abbrev pub get_file_url : Text → Text → Text → Text → Bool → Bool → Text
  get_file_url repo path_from_root name commit_hash is_dir use_view_url =
      let full_path = join_path path_from_root (clean name) in
      if use_view_url
      then view_url repo full_path is_dir ++ (if is_dir then codes "/" else [])
      else codes "/" ++ (repo ++ (codes "/+/" ++ (commit_hash ++ (codes ":" ++ full_path))))

  unfoldable pub build_directory_list_entry :
      GitTreeEntry → Text → Text → Text → Bool → DirectoryListEntry
  unfolding text_eq view_url
  build_directory_list_entry entry path_from_root repo_name commit_hash use_view_url =
      let is_tree = text_eq entry.object_type (codes "tree") in
      let is_link = text_eq entry.mode (codes "120000") in
      record {
        name = entry.object_name;
        path =
            if is_link
            then []
            else get_file_url repo_name path_from_root entry.object_name commit_hash is_tree
                use_view_url;
        is_dir = is_tree;
        symlink_target =
            if is_link then elim (cat_blob entry.object_id) [ none ↦ [] | some t ↦ t ] else [];
      }
