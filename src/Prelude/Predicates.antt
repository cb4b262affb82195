-- ===== src/Prelude/Predicates.antt =====
-- A predicate on every element of a list, by recursion, so that the tactics can open it.
use mathlib.Core.List.{
  List, [], ◌∷◌, ◌++◌, Mem, Perm, not-mem-nil, mem-cons_self, mem-cons_of_mem,
  eq-or-mem_of_mem-cons,
}
use mathlib.Core.List.Perm
use mathlib.Core.Logic.Or
use mathlib.Core.Path.{sym, subst}

module _ {ℓ κ} {A : Type ℓ} (P : A → Type κ) where
  abbrev pub All : List A → Type κ
  All [] = Unit
  All (x ∷ xs) = P x × All xs

  pub All-append : (xs ys : List A) → All xs → All ys → All (xs ++ ys)
  All-append [] ys _ h = h
  All-append (x ∷ xs) ys (p, g) h = (p, All-append xs ys g h)

  -- A property of every element holds of a member.
  pub All-Mem : ((x : A) → IsProp (P x)) → (xs : List A) {x : A} → All xs → Mem x xs → P x
  All-Mem pP [] h m = absurd (not-mem-nil m)
  All-Mem pP (y ∷ ys) {x} (p, h) m =
      Or.elim (pP x) (eq-or-mem_of_mem-cons m) (λ e. subst P (sym e) p) (λ n. All-Mem pP ys h n)

  pub Mem-All : (xs : List A) → ((x : A) → Mem x xs → P x) → All xs
  Mem-All [] h = tt
  Mem-All (x ∷ xs) h = (h x mem-cons_self, Mem-All xs (λ y m. h y (mem-cons_of_mem x m)))

  -- It holds of every element of a permutation.
  pub All-Perm : ((x : A) → IsProp (P x)) → (xs ys : List A) → Perm xs ys → All xs → All ys
  All-Perm pP xs ys e h = Mem-All ys (λ x m. All-Mem pP xs h ((Perm.mem_iff e).1 m))
