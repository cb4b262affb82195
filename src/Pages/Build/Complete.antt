-- ===== src/Pages/Build/Complete.antt =====
-- `BuildFileData` on what git writes for a directory, and on an object that is neither a directory nor a file.
use livegrep.Call.{value, Git}
use livegrep.Directory.{less, GitTreeEntry}
use livegrep.GoText.Prefix.{has_prefix}
use livegrep.GoText.Split.{split}
use livegrep.Pages.{
  FileViewerContext, clean_path, BreadCrumbEntry, RepoConfig, DirectoryContent, Paths,
}
use livegrep.Pages.Build.{
  file_context, build_file_data, get_file_name_and_path_from_content, links_of,
}
use livegrep.Pages.Content.{directory_content, list_entry, slice_to}
use livegrep.Pages.Content.Entries.{
  less_asym, commit_hash_of-NamesCommit, read_object-ListsDirectory, ListsDirectory, NamesCommit,
}
use livegrep.Pages.Readme.{first_readme}
use livegrep.Pages.Segments.{get_path_segments}
use livegrep.Prelude.{
  ℕ, ◌≤◌, ◌≡◌, refl, inl, inr, true, false, none, some, List, [], ◌++◌, arith, map, ltb, Bool-cases,
  Option-cases, Text, codes, length, take,
}
use livegrep.Sort.Laws.{sort-perm, sort-IsSorted, IsSorted}
use mathlib.Core.List.{Perm}

slice_to_long : (n : ℕ) (s : Text) → n ≤ length s → slice_to n s ≡ value (take n s)
unfolding slice_to
slice_to_long n s h = let e : ltb (length s) n ≡ false = ground arith in rw e refl

links_of_dir :
    (hash commit : Text) (dc : DirectoryContent) (segments : List BreadCrumbEntry)
    → 16 ≤ length hash
    → (links : Text × Text) × (links_of hash commit (record { file = none; dir = some dc }) segments
        ≡ value links)
unfolding links_of
links_of_dir hash commit dc segments h = elim (Bool-cases (has_prefix hash commit)) [
  | inl same ↦ (([], codes "."), rw (links_of, same) refl)
  | inr other ↦
      ((codes "?commit=" ++ take 16 hash, []), rw (links_of, other, slice_to_long 16 hash h) refl)
]

names_of_dir :
    (dc : DirectoryContent)
    → (names : Text × Text) × (get_file_name_and_path_from_content
          (record { file = none; dir = some dc })
        ≡ value names)
unfolding get_file_name_and_path_from_content
names_of_dir dc = elim (Option-cases dc.readme_content) [
  | inl e ↦ (([], []), rw (get_file_name_and_path_from_content, e) refl)
  | inr (r, e) ↦ ((r.file_name, r.file_path), rw (get_file_name_and_path_from_content, e) refl)
]

module _ (git : Git) (paths : Paths) (exts : List Text) where
  -- Where git writes for a commit a hash of at least 16 bytes on a line, and for the object of the
  -- path that it is a directory, and its listing, `BuildFileData` returns a context with the hash
  -- and a directory; the entries of the directory are ordered by `DirListingSort`, and are a
  -- permutation of what `buildDirectoryListEntry` makes of the entries of the listing.
  pub build_file_data-directory :
      (relative_path commit hash : Text) (repo : RepoConfig) (es : List GitTreeEntry)
      → NamesCommit git repo.path commit hash
      → ListsDirectory git repo.path (hash ++ (codes ":" ++ clean_path paths relative_path)) es
      → 16 ≤ length hash
      → (d : FileViewerContext) × (c : DirectoryContent) × (build_file_data git paths exts
            relative_path repo commit
          ≡ value d)
        × (d.dir_content ≡ some c)
        × (d.commit_hash ≡ hash)
        × IsSorted less c.entries
        × Perm c.entries (
            map
              (list_entry git paths (clean_path paths relative_path) repo.name repo.path hash true)
              es)
  unfolding build_file_data slice_to
  build_file_data-directory relative_path commit hash repo es named listed long =
      let clean = clean_path paths relative_path in
      let entries = map (list_entry git paths clean repo.name repo.path hash true) es in
      let read =
        read_object-ListsDirectory git paths (λ obj found. first_readme exts obj none found) true
          repo.name repo.path hash clean relative_path es listed in
      let content =
        directory_content git paths (λ obj found. first_readme exts obj none found) true repo.name
          repo.path hash clean relative_path entries in
      let segments = get_path_segments paths repo.name (split b'/' clean) in
      let (links, e₁) = links_of_dir hash commit content segments long in
      let (names, e₂) = names_of_dir content in
      let e₃ = slice_to_long 8 hash (omega arith) in
      (
        file_context git paths exts relative_path repo commit hash
            (record { file = none; dir = some content }) links names (take 8 hash),
        content,
        rw
            (
              build_file_data,
              commit_hash_of-NamesCommit git paths repo.path commit named,
              read,
              e₁,
              e₂,
              e₃,
            )
            refl,
        refl,
        refl,
        sort-IsSorted less less_asym entries,
        sort-perm less entries,
      )
