-- ===== src/Search/Extensions.antt =====
-- `server/api.go`: the popular extensions of `doSearchV2`. The order in which the loop visits the map of
-- counts is a parameter.
pub mod Bounds
use livegrep.Backend.{is_empty_text}
use livegrep.Dict.{lookup, insert, Dict, text_key}
use livegrep.GoText.Decimal.{increment, int_lt}
use livegrep.Prelude.{
  ℕ, Bool, none, some, List, [], ◌∷◌, reverse, ltb, ◌==◌, if◌then◌else◌, Text, length, take,
}
use livegrep.Sort.{sort}

-- filepath.Ext, at the reversed path: what stands behind the last dot and the dot, if no slash follows
unfoldable pub ext_scan : Text → Text → Text
ext_scan [] found = []
ext_scan (c ∷ s) found =
    let earlier = ext_scan s (c ∷ found) in
    if c == b'/' then [] else if c == b'.' then c ∷ found else earlier

abbrev pub ext : Text → Text
ext path = ext_scan (reverse path) []

pub record FileExtension : Type 0 where
  pub ext : Text
  pub count : ℕ

-- `extensionCounts[ext] += 1`
unfoldable pub count_ext : Text → Dict Text ℕ → Dict Text ℕ
count_ext e counts = insert e (elim (lookup e counts) [ none ↦ 1 | some n ↦ increment n ]) counts

unfoldable pub extension_counts : List Text → Dict Text ℕ → Dict Text ℕ
extension_counts [] counts = counts
extension_counts (path ∷ paths) counts = extension_counts paths (count_ext (ext path) counts)

unfoldable pub extension_array : Dict Text ℕ → List FileExtension
extension_array [] = []
extension_array ((e, n) ∷ counts) =
    let rest = extension_array counts in
    if is_empty_text e then rest else record { ext = e; count = n } ∷ rest

abbrev pub count_greater : FileExtension → FileExtension → Bool
count_greater a b = int_lt b.count a.count

-- how many extensions are shown, of `n`
abbrev pub shown : ℕ → ℕ
shown n = let c = if ltb n 5 then n else 5 in if ltb c 2 then 0 else c

module _ (visit : Dict Text ℕ → Dict Text ℕ) where
  unfoldable pub pop_exts : List Text → List FileExtension
  pop_exts paths =
      let exts = sort count_greater (extension_array (visit (extension_counts paths []))) in
      take (shown (length exts)) exts
