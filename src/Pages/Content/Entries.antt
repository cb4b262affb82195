-- ===== src/Pages/Content/Entries.antt =====
-- What is read of a directory: its entries, ordered.
use livegrep.Call.{value, Git}
use livegrep.Directory.{GitTreeEntry, less, DirectoryListEntry}
use livegrep.Directory.Entries.{git_list_dir-render_tree, IsWritten, render_tree}
use livegrep.Directory.Order.{less_strict_order}
use livegrep.GoText.Space.{trim_space}
use livegrep.GoText.Split.{cut_at-append, Lacks}
use livegrep.Pages.{Paths}
use livegrep.Pages.Commands.{list_dir, git_object_type, git_commit_hash}
use livegrep.Pages.Content.{
  list_entry, directory_content, read_directory, read_object, first_line, commit_hash_of,
}
use livegrep.Pages.Readme.{Readme}
use livegrep.Prelude.{
  ◌≡◌, refl, inl, inr, Bool, true, false, Option, none, some, List, [], ◌∷◌, ◌++◌, map, Bool-cases,
  Text, codes, text_eq, All,
}

-- what git writes for a directory: its type, and the listing of its entries
pub record ListsDirectory (git : Git) (repo_path object : Text) (es : List GitTreeEntry)
    : Type 0 where
  pub is_tree :
      git (codes "-C" ∷ repo_path ∷ codes "cat-file" ∷ codes "-t" ∷ object ∷ [])
      ≡ value (codes "tree\n")
  pub listing :
      git (codes "-C" ∷ repo_path ∷ codes "cat-file" ∷ codes "-p" ∷ object ∷ [])
      ≡ value (render_tree es)
  pub written_entries : All IsWritten es

-- what git writes for a commit: its hash on a line
pub record NamesCommit (git : Git) (repo_path commit hash : Text) : Type 0 where
  pub rev_parse :
      git (codes "-C" ∷ repo_path ∷ codes "rev-parse" ∷ commit ∷ []) ≡ value (hash ++ (b'\n' ∷ []))
  pub one_line : Lacks b'\n' hash

pub commit_hash_of-NamesCommit :
    (git : Git) (paths : Paths) (repo_path commit : Text) {hash : Text}
    → NamesCommit git repo_path commit hash
    → commit_hash_of git paths commit repo_path ≡ value hash
unfolding commit_hash_of git_commit_hash first_line
commit_hash_of-NamesCommit git paths repo_path commit {hash} h =
    rw (commit_hash_of, h.rev_parse, first_line, cut_at-append b'\n' hash [] h.one_line) refl

pub less_asym : (a b : DirectoryListEntry) → less a b ≡ true → less b a ≡ false
less_asym a b h = elim (Bool-cases (less b a)) [
  | inl back ↦ let order = less_strict_order a b a in absurd (cc (order.0, order.1 h back))
  | inr other ↦ other
]

pub read_object-ListsDirectory :
    (git : Git) (paths : Paths) (pick : Text → List DirectoryListEntry → Option Readme)
    (use_view_url : Bool) (repo_name repo_path hash clean relative_path : Text)
    (es : List GitTreeEntry)
    → ListsDirectory git repo_path (hash ++ (codes ":" ++ clean)) es
    → read_object git paths pick use_view_url repo_name repo_path hash clean relative_path
      ≡ value (record {
        file = none;
        dir = some (
            directory_content git paths pick use_view_url repo_name repo_path hash clean
              relative_path
              (map (list_entry git paths clean repo_name repo_path hash use_view_url) es));
      })
unfolding read_object git_object_type read_directory list_dir trim_space text_eq
read_object-ListsDirectory git paths pick use_view_url repo_name repo_path hash clean relative_path
      es h =
    rw (read_object, h.is_tree, h.listing, git_list_dir-render_tree es h.written_entries) refl
