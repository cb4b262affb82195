-- ===== src/Pages/Readme/Choice.antt =====
-- The readme of a directory: the first one that the listing has, or the last one on a page of Zoekt.
use livegrep.Directory.{DirectoryListEntry}
use livegrep.Pages.Readme.{newer, Readme, readme_of, first_readme, last_readme}
use livegrep.Prelude.{◌≡◌, refl, ◌∙◌, Option, none, some, List, [], ◌∷◌, ◌++◌, Text, All}

module _ (exts : List Text) (obj : Text) where
  abbrev IsNoReadme : DirectoryListEntry → Type 0
  IsNoReadme e = readme_of exts obj e.name ≡ none

  first_readme_found :
      (r : Readme) (es : List DirectoryListEntry) → first_readme exts obj (some r) es ≡ some r
  unfolding first_readme
  first_readme_found r [] = refl
  first_readme_found r (e ∷ es) = first_readme_found r es

  first_readme-none :
      (before after : List DirectoryListEntry)
      → All IsNoReadme before
      → first_readme exts obj none (before ++ after) ≡ first_readme exts obj none after
  unfolding first_readme
  first_readme-none [] after h = refl
  first_readme-none (e ∷ before) after (he, h) =
      rw (first_readme, he) (first_readme-none before after h)

  last_readme-append :
      (found : Option Readme) (before after : List DirectoryListEntry)
      → last_readme exts obj found (before ++ after)
        ≡ last_readme exts obj (last_readme exts obj found before) after
  unfolding last_readme
  last_readme-append found [] after = refl
  last_readme-append found (e ∷ before) after =
      last_readme-append (newer (readme_of exts obj e.name) found) before after

  last_readme-none :
      (found : Option Readme) (es : List DirectoryListEntry)
      → All IsNoReadme es
      → last_readme exts obj found es ≡ found
  unfolding last_readme
  last_readme-none found [] h = refl
  last_readme-none found (e ∷ es) (he, h) = rw (last_readme, he) (last_readme-none found es h)

  -- Where an entry of a listing gives a readme, `BuildFileData` takes it if no entry before it
  -- gives one, and `BuildFileDataForZoektFilePreview` takes it if no entry behind it gives one.
  pub first_readme-choice :
      (before after : List DirectoryListEntry) (e : DirectoryListEntry) (r : Readme)
      → readme_of exts obj e.name ≡ some r
      → All IsNoReadme before
      → (first_readme exts obj none (before ++ (e ∷ after)) ≡ some r)
        × (last_readme exts obj none (after ++ (e ∷ before)) ≡ some r)
  unfolding first_readme last_readme
  first_readme-choice before after e r he h = (
    first_readme-none before (e ∷ after) h ∙ rw (first_readme, he) (first_readme_found r after),
    last_readme-append none after (e ∷ before)
        ∙ rw (last_readme, he) (last_readme-none (some r) before h),
  )
