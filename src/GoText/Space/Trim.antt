-- ===== src/GoText/Space/Trim.antt =====
-- Trimming twice is trimming once, and a text with no space at its ends is left as it is.
use livegrep.GoText.Space.{is_space, trim_left, trim_space}
use livegrep.Prelude.{
  ◌≡◌, refl, sym, ap, ◌∙◌, inl, inr, false, [], ◌∷◌, ◌++◌, reverse, Bool-cases, Text,
}
use mathlib.Core.List.{reverse-append, reverse-reverse}
use mathlib.Core.Path.{subst}

-- empty, or beginning with a character that is no space
abbrev pub StartsInk : Text → Type 0
StartsInk [] = Unit
StartsInk (c ∷ s) = is_space c ≡ false

trim_left-StartsInk : (s : Text) → StartsInk (trim_left s)
unfolding trim_left
trim_left-StartsInk [] = tt
trim_left-StartsInk (c ∷ s) = elim (Bool-cases (is_space c)) [
  | inl e ↦ rw (e, trim_left) (trim_left-StartsInk s)
  | inr e ↦ rw (e, trim_left) e
]

trim_left_id : (s : Text) → StartsInk s → trim_left s ≡ s
unfolding trim_left
trim_left_id [] h = refl
trim_left_id (c ∷ s) h = rw (h, trim_left)

trim_left-suffix : (s : Text) → (p : Text) × (p ++ trim_left s ≡ s)
unfolding trim_left
trim_left-suffix [] = ([], refl)
trim_left-suffix (c ∷ s) = elim (Bool-cases (is_space c)) [
  | inl e ↦ let (p, h) = trim_left-suffix s in (c ∷ p, rw (e, trim_left) (ap (λ s. c ∷ s) h))
  | inr e ↦ ([], rw (e, trim_left))
]

StartsInk-prefix : (s p : Text) → StartsInk (s ++ p) → StartsInk s
StartsInk-prefix [] p h = tt
StartsInk-prefix (c ∷ s) p h = h

reverse-trim-StartsInk : (a : Text) → StartsInk a → StartsInk (reverse (trim_left (reverse a)))
reverse-trim-StartsInk a h =
    let (p, e) = trim_left-suffix (reverse a) in
    StartsInk-prefix (reverse (trim_left (reverse a))) (reverse p) (
      subst StartsInk
        (sym (reverse-reverse a) ∙ ap reverse (sym e) ∙ reverse-append p (trim_left (reverse a))) h)

-- Trimming a trimmed text changes nothing.
pub trim_space_idem : (s : Text) → trim_space (trim_space s) ≡ trim_space s
unfolding trim_space
trim_space_idem s = rw (
  trim_left_id (reverse (trim_left (reverse (trim_left s))))
      (reverse-trim-StartsInk (trim_left s) (trim_left-StartsInk s)),
  reverse-reverse (trim_left (reverse (trim_left s))),
  trim_left_id (trim_left (reverse (trim_left s))) (trim_left-StartsInk (reverse (trim_left s))),
)

-- A text that neither begins nor ends in a space is its own trimmed form.
pub trim_space_id : (s : Text) → StartsInk s → StartsInk (reverse s) → trim_space s ≡ s
unfolding trim_space
trim_space_id s h k = rw (trim_left_id s h, trim_left_id (reverse s) k, reverse-reverse s)

pub trim_space_nil : trim_space [] ≡ []
unfolding trim_space
trim_space_nil = refl
