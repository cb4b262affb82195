-- ===== src/Directory/Order.antt =====
-- The order of a listing.
use livegrep.Directory.{DirectoryListEntry, less, text_lt}
use livegrep.Prelude.{◌≡◌, refl, true, false, [], ◌∷◌, arith, Text}

pub text_lt_irrefl : (s : Text) → text_lt s s ≡ false
unfolding text_lt
text_lt_irrefl [] = refl
text_lt_irrefl (c ∷ s) = ground (arith, text_lt_irrefl s)

pub text_lt_trans : (s t u : Text) → text_lt s t ≡ true → text_lt t u ≡ true → text_lt s u ≡ true
unfolding text_lt
text_lt_trans s t [] h k = cc
text_lt_trans s [] (e ∷ u) h k = cc
text_lt_trans [] (d ∷ t) (e ∷ u) h k = refl
text_lt_trans (c ∷ s) (d ∷ t) (e ∷ u) h k = ground (arith, text_lt_trans s t u)

pub text_lt_total : (s t : Text) → text_lt s t ≡ false → text_lt t s ≡ false → s ≡ t
unfolding text_lt
text_lt_total [] [] h k = refl
text_lt_total [] (d ∷ t) h k = cc
text_lt_total (c ∷ s) [] h k = cc
text_lt_total (c ∷ s) (d ∷ t) h k = ground (arith, text_lt_total s t)

-- The order of a listing is irreflexive and transitive, two entries that neither precedes are both
-- directories or both not and have one name, and a directory precedes what is none.
pub less_strict_order :
    (a b c : DirectoryListEntry)
    → (less a a ≡ false)
      × (less a b ≡ true → less b c ≡ true → less a c ≡ true)
      × (less a b ≡ false → less b a ≡ false → (a.is_dir ≡ b.is_dir) × (a.name ≡ b.name))
      × (a.is_dir ≡ true → b.is_dir ≡ false → less a b ≡ true)
unfolding less
less_strict_order a b c = (
  ground (arith, text_lt_irrefl a.name),
  λ h k. ground (arith, text_lt_trans a.name b.name c.name),
  λ h k. ground (arith, text_lt_total a.name b.name),
  λ h k. ground arith,
)
