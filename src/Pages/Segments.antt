-- ===== src/Pages/Segments.antt =====
-- `getPathSegments` of `server/fileviewer/fileview.go`, which `BuildFileData` repeats: the bread crumbs of a path.
use livegrep.Directory.{get_file_url}
use livegrep.GoText.Split.{join_by}
use livegrep.Pages.{BreadCrumbEntry, Paths}
use livegrep.Prelude.{true, false, Option, none, List, [], ◌∷◌, ◌++◌, Text}

abbrev no_text : Text → Option Text
no_text s = none

module _ (paths : Paths) (repo_name : Text) where
  abbrev pub segment_of : List Text → Text → BreadCrumbEntry
  segment_of before name = record {
    name = name;
    path =
        get_file_url paths.join paths.clean no_text repo_name (paths.clean (join_by b'/' before))
          name [] true false;
  }

  -- the loop; `before` is `pathSplits[0:i]`
  unfoldable pub segments_from : List Text → List Text → List BreadCrumbEntry
  segments_from before [] = []
  segments_from before (name ∷ names) =
      segment_of before name ∷ segments_from (before ++ (name ∷ [])) names

  unfoldable pub get_path_segments : List Text → List BreadCrumbEntry
  unfolding segments_from
  get_path_segments path_splits = segments_from [] path_splits
