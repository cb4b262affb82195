-- ===== src/GoText/Replace.antt =====
-- strings.Replace, once.
use livegrep.GoText.Prefix.{strip_prefix}
use livegrep.Prelude.{Option, none, some, [], ◌∷◌, ◌++◌, Text}

-- the text with the first occurrence of `old` replaced; `none` if there is none
unfoldable pub replace_first : Text → Text → Text → Option Text
unfolding strip_prefix
replace_first old new [] = elim (strip_prefix old []) [
  | none ↦ none
  | some rest ↦ some (new ++ rest)
]
replace_first old new (c ∷ s) =
    let later = replace_first old new s in
    elim (strip_prefix old (c ∷ s)) [
      | some rest ↦ some (new ++ rest)
      | none ↦ elim later [ none ↦ none | some t ↦ some (c ∷ t) ]
    ]
