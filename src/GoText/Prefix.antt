-- ===== src/GoText/Prefix.antt =====
-- strings.HasPrefix, strings.TrimPrefix and strings.HasSuffix.
use livegrep.Prelude.{
  Bool, true, false, [], ◌∷◌, ◌++◌, reverse, Option, none, some, ◌≡◌, refl, arith, Text, ◌==◌,
  if◌then◌else◌,
}

-- What stands behind the prefix `p`, if the text begins with it.
unfoldable pub strip_prefix : Text → Text → Option Text
strip_prefix [] s = some s
strip_prefix (x ∷ p) [] = none
strip_prefix (x ∷ p) (c ∷ s) = if x == c then strip_prefix p s else none

unfoldable pub has_prefix : Text → Text → Bool
has_prefix s [] = true
has_prefix [] (x ∷ p) = false
has_prefix (c ∷ s) (x ∷ p) = if x == c then has_prefix s p else false

unfoldable pub has_suffix : Text → Text → Bool
unfolding has_prefix
has_suffix s p = has_prefix (reverse s) (reverse p)

pub strip_prefix-append : (p s : Text) → strip_prefix p (p ++ s) ≡ some s
unfolding strip_prefix
strip_prefix-append [] s = refl
strip_prefix-append (x ∷ p) s = ground (arith, strip_prefix-append p s)

pub strip_prefix-eq-some : (p s : Text) {r : Text} → strip_prefix p s ≡ some r → s ≡ p ++ r
unfolding strip_prefix
strip_prefix-eq-some [] s h = cc
strip_prefix-eq-some (x ∷ p) [] h = cc
strip_prefix-eq-some (x ∷ p) (c ∷ s) {r} h = ground (arith, strip_prefix-eq-some p s {r = r})

pub has_prefix-append : (p s : Text) → has_prefix (p ++ s) p ≡ true
unfolding has_prefix
has_prefix-append [] s = refl
has_prefix-append (x ∷ p) s = ground (arith, has_prefix-append p s)
