-- ===== src/Sort.antt =====
-- sort.Slice by a strict order. It is not stable, and what it gives for equal entries depends on their
-- order before: where that matters, the order before is a parameter of the model.
pub mod Laws
use livegrep.Prelude.{Bool, List, [], ◌∷◌, if◌then◌else◌}

module _ {ℓ} {A : Type ℓ} (less : A → A → Bool) where
  unfoldable pub insert_sorted : A → List A → List A
  insert_sorted x [] = x ∷ []
  insert_sorted x (y ∷ ys) = if less x y then x ∷ (y ∷ ys) else y ∷ insert_sorted x ys

  unfoldable pub sort : List A → List A
  unfolding insert_sorted
  sort [] = []
  sort (x ∷ xs) = insert_sorted x (sort xs)
