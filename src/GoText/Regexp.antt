-- ===== src/GoText/Regexp.antt =====
-- regexp.QuoteMeta: a backslash in front of every byte that a regular expression reads specially.
use livegrep.Prelude.{ℕ, Bool, true, false, [], ◌∷◌, ◌==◌, if◌then◌else◌, Text, codes}

abbrev pub special : Text
special = codes "\\.+*?()|[]{}^$"

unfoldable pub contains_byte : ℕ → Text → Bool
contains_byte b [] = false
contains_byte b (c ∷ s) = if b == c then true else contains_byte b s

unfoldable pub quote_meta : Text → Text
unfolding contains_byte
quote_meta [] = []
quote_meta (c ∷ s) = if contains_byte c special then b'\\' ∷ c ∷ quote_meta s else c ∷ quote_meta s
