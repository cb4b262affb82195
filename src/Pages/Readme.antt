-- ===== src/Pages/Readme.antt =====
-- `supportedReadmeRegex` and the choice of the readme of a directory in `BuildFileData` and
-- `BuildFileDataForZoektFilePreview` of `server/fileviewer/fileview.go`. `buildReadmeRegex` sorts the
-- extensions with a comparison that is no strict order; the order that it leaves is a parameter.
pub mod Choice
use livegrep.Backend.{is_empty_text}
use livegrep.Call.{map_option}
use livegrep.Directory.{DirectoryListEntry}
use livegrep.GoText.Prefix.{has_prefix}
use livegrep.Prelude.{
  ℕ, ◌+◌, Bool, false, ◌&&◌, Option, none, some, List, [], ◌∷◌, ◌++◌, leb, ◌==◌, if◌then◌else◌,
  Text, codes, take,
}

abbrev pub supported_readme_extensions : List Text
supported_readme_extensions =
    codes "markdown"
    ∷ codes "mdown"
    ∷ codes "mkdn"
    ∷ codes "md"
    ∷ codes "textile"
    ∷ codes "rdoc"
    ∷ codes "org"
    ∷ codes "creole"
    ∷ codes "mediawiki"
    ∷ codes "wiki"
    ∷ codes "rst"
    ∷ codes "asciidoc"
    ∷ codes "adoc"
    ∷ codes "asc"
    ∷ codes "pod"
    ∷ []

-- the small letter of a capital one
unfoldable pub lower : ℕ → ℕ
lower c = if leb b'A' c && leb c b'Z' then c + 32 else c

-- a prefix of small letters in any case, and what is left
unfoldable pub strip_fold : Text → Text → Option Text
unfolding lower
strip_fold [] s = some s
strip_fold (x ∷ p) [] = none
strip_fold (x ∷ p) (c ∷ s) = if x == lower c then strip_fold p s else none

-- `strings.ToLower(name) == "readme"`
unfoldable pub is_bare_readme : Text → Bool
unfolding strip_fold
is_bare_readme name = elim (strip_fold (codes "readme") name) [
  | none ↦ false
  | some rest ↦ is_empty_text rest
]

-- the first extension that stands in front, and what is left
unfoldable pub match_ext : List Text → Text → Option Text
unfolding has_prefix
match_ext [] s = none
match_ext (e ∷ es) s = if has_prefix s e then some e else match_ext es s

-- `\.?`; no extension begins with a dot, so a dot is taken
abbrev pub skip_dot : Text → Text × Text
skip_dot [] = ([], [])
skip_dot (c ∷ s) = if c == b'.' then (c ∷ [], s) else ([], c ∷ s)

-- what a match of the regular expression gives: `parts[0]` and `parts[2]`
pub record ReadmeMatch : Type 0 where
  pub whole : Text
  pub ext : Text

-- `parts[0]` ends with the extension
abbrev pub whole_match : Text → Text → Option Text → Option ReadmeMatch
whole_match word dot none = none
whole_match word dot (some e) = some (record { whole = word ++ (dot ++ e); ext = e })

-- `readmeName`, `readmePath` and `readmeLang`
pub record Readme : Type 0 where
  pub name : Text
  pub path : Text
  pub lang : Text

abbrev pub of_match : Text → ReadmeMatch → Readme
of_match obj m = record { name = m.whole; path = obj ++ m.whole; lang = m.ext }

abbrev pub newer : Option Readme → Option Readme → Option Readme
newer none old = old
newer (some r) old = some r

module _ (exts : List Text) where
  -- a match that begins at this position
  unfoldable pub readme_here : Text → Option ReadmeMatch
  unfolding strip_fold match_ext
  readme_here s = elim (strip_fold (codes "readme") s) [
    | none ↦ none
    | some rest ↦ whole_match (take 6 s) (skip_dot rest).0 (match_ext exts (skip_dot rest).1)
  ]

  -- `FindStringSubmatch`: the first position where there is a match
  unfoldable pub find_readme : Text → Option ReadmeMatch
  unfolding readme_here
  find_readme [] = none
  find_readme (c ∷ s) =
      let later = find_readme s in elim (readme_here (c ∷ s)) [ none ↦ later | some m ↦ some m ]

  -- what an entry of this name sets the three variables to, if it does; `obj` names the directory
  unfoldable pub readme_of : Text → Text → Option Readme
  unfolding is_bare_readme find_readme
  readme_of obj name =
      if is_bare_readme name
      then some (record { name = name; path = obj ++ name; lang = codes "md" })
      else map_option (of_match obj) (find_readme name)

  -- the loop of `BuildFileData`: behind the first readme the entries are skipped
  unfoldable pub first_readme : Text → Option Readme → List DirectoryListEntry → Option Readme
  unfolding readme_of
  first_readme obj found [] = found
  first_readme obj none (e ∷ es) = first_readme obj (readme_of obj e.name) es
  first_readme obj (some r) (e ∷ es) = first_readme obj (some r) es

  -- the loop of `BuildFileDataForZoektFilePreview`, which goes on
  unfoldable pub last_readme : Text → Option Readme → List DirectoryListEntry → Option Readme
  unfolding readme_of
  last_readme obj found [] = found
  last_readme obj found (e ∷ es) = last_readme obj (newer (readme_of obj e.name) found) es
