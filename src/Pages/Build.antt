-- ===== src/Pages/Build.antt =====
-- `BuildFileData`, `BuildFileDataForZoektFilePreview` and `getFileNameAndPathFromContent` of
-- `server/fileviewer/fileview.go`: the data of the page of a file or a directory at a commit.
pub mod Complete
use livegrep.Call.{Call, value, panics, ◌>>=◌, Git}
use livegrep.Dict.{lookup, text_key, number_key}
use livegrep.GoText.Prefix.{has_prefix}
use livegrep.GoText.Split.{split}
use livegrep.Pages.{
  migration_url, clean_path, BreadCrumbEntry, FileViewerContext, Paths, RepoConfig,
}
use livegrep.Pages.Content.{read_object, slice_to, commit_hash_of, Contents}
use livegrep.Pages.Readme.{first_readme, last_readme}
use livegrep.Pages.Segments.{get_path_segments}
use livegrep.Prelude.{
  ℕ, zero, suc, ◌+◌, ◌/◌, refl, Bool, true, false, Option, none, some, List, [], ◌∷◌, ◌++◌,
  if◌then◌else◌, Text, codes,
}
use livegrep.Runtime.{index_out_of_range, nil_dereference}

abbrev pub no_config : RepoConfig
no_config = record { path = []; name = []; revisions = []; metadata = []; walk_submodules = false }

-- a context with the zero value in every field
abbrev pub empty_context : FileViewerContext
empty_context = record {
  path_segments = [];
  repo = no_config;
  repo_rev = [];
  head_rev = [];
  commit = [];
  commit_hash = [];
  short_commit_hash = [];
  dir_content = none;
  file_content = none;
  external_domain = [];
  permalink = [];
  headlink = [];
  log_link = [];
  file_path = [];
  file_name = [];
  directory_tree = none;
  branches = [];
  tags = [];
  repo_config = no_config;
  migration_url = [];
}

unfoldable pub get_file_name_and_path_from_content : Contents → Call (Text × Text)
get_file_name_and_path_from_content c = elim c.file [
  | some fc ↦ value (fc.file_name, fc.file_path)
  | none ↦ elim c.dir [
    | none ↦ panics nil_dereference
    | some dc ↦ elim dc.readme_content [
      | some r ↦ value (r.file_name, r.file_path)
      | none ↦ value ([], [])
    ]
  ]
]

abbrev pub metadata_of : Text → RepoConfig → Text
metadata_of key repo = elim (lookup key repo.metadata) [ none ↦ [] | some v ↦ v ]

abbrev pub is_some {ℓ} : {A : Type ℓ} → Option A → Bool
is_some none = false
is_some (some a) = true

abbrev pub last_name : List BreadCrumbEntry → Call Text
last_name [] = panics index_out_of_range
last_name (s ∷ []) = value s.name
last_name (s ∷ (t ∷ ss)) = last_name (t ∷ ss)

-- `permalink` and `headlink`
unfoldable pub links_of : Text → Text → Contents → List BreadCrumbEntry → Call (Text × Text)
unfolding has_prefix slice_to
links_of hash commit contents segments =
    if has_prefix hash commit
    then if is_some contents.dir
      then value ([], codes ".")
      else (do name ← last_name segments; value ([], name))
    else (do start ← slice_to 16 hash; value (codes "?commit=" ++ start, []))

module _ (git : Git) (paths : Paths) (exts : List Text) where
  -- `BuildFileDataForZoektFilePreview`
  unfoldable pub build_file_data_for_zoekt_file_preview :
      Text → Text → Text → Text → Call FileViewerContext
  unfolding commit_hash_of clean_path read_object last_readme
  build_file_data_for_zoekt_file_preview relative_path repo_path repo_name commit = do
    hash ← commit_hash_of git paths commit repo_path
    contents ←
        read_object git paths (λ obj entries. last_readme exts obj none entries) false repo_name
          repo_path hash (clean_path paths relative_path) relative_path
    value (record empty_context { file_content = contents.file; dir_content = contents.dir })

  abbrev pub domain_of : RepoConfig → Text
  domain_of repo = elim (paths.host (metadata_of (codes "url_pattern") repo)) [
    | none ↦ codes "external viewer"
    | some h ↦ h
  ]

  -- the context at the end of `BuildFileData`
  abbrev pub file_context :
      Text
      → RepoConfig
      → Text
      → Text
      → Contents
      → Text × Text
      → Text × Text
      → Text
      → FileViewerContext
  file_context relative_path repo commit hash contents links names short_hash =
      record empty_context {
        path_segments =
            get_path_segments paths repo.name (split b'/' (clean_path paths relative_path));
        repo = repo;
        commit = commit;
        commit_hash = hash;
        short_commit_hash = short_hash;
        dir_content = contents.dir;
        file_content = contents.file;
        external_domain = domain_of repo;
        permalink = links.0;
        headlink = links.1;
        file_path = names.1;
        file_name = names.0;
        migration_url = migration_url repo.name (clean_path paths relative_path) commit;
      }

  -- `BuildFileData`
  unfoldable pub build_file_data : Text → RepoConfig → Text → Call FileViewerContext
  unfolding commit_hash_of clean_path read_object first_readme get_path_segments split links_of
      get_file_name_and_path_from_content migration_url slice_to lookup
  build_file_data relative_path repo commit = do
    hash ← commit_hash_of git paths commit repo.path
    contents ←
        read_object git paths (λ obj entries. first_readme exts obj none entries) true repo.name
          repo.path hash (clean_path paths relative_path) relative_path
    links ←
        links_of hash commit contents
          (get_path_segments paths repo.name (split b'/' (clean_path paths relative_path)))
    names ← get_file_name_and_path_from_content contents
    short_hash ← slice_to 8 hash
    value (file_context relative_path repo commit hash contents links names short_hash)
