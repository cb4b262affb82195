-- ===== src/Dict.antt =====
-- Go's maps as association lists. A key is written at its old place or at the end; the order in which the
-- code visits a map is a parameter where it ranges over one.
use livegrep.Prelude.{
  ℕ, ◌≡◌, refl, ◌↔◌, inl, inr, Bool, true, Option, none, some, List, [], ◌∷◌, arith, ◌==◌,
  if◌then◌else◌, ==_iff, Bool-cases, some-eq, Text, text_eq, text_eq_iff, All,
}
use mathlib.Core.Path.{subst}

pub record Key {ℓ} (K : Type ℓ) : Type ℓ where
  pub beq : K → K → Bool
  pub beq_iff : (a b : K) → (beq a b ≡ true) ↔ (a ≡ b)

instance abbrev pub number_key : Key ℕ
number_key = record { beq = ◌==◌; beq_iff = ==_iff }

instance abbrev pub text_key : Key Text
text_key = record { beq = text_eq; beq_iff = text_eq_iff }

abbrev pub Dict {ℓ κ} : Type ℓ → Type κ → Type (ℓ ⊔ κ)
Dict K V = List (K × V)

module _ {ℓ κ} {K : Type ℓ} {V : Type κ} ⦃e' : Key K⦄ where
  unfoldable pub lookup : K → Dict K V → Option V
  lookup k [] = none
  lookup k ((j, v) ∷ m) = if e'.beq j k then some v else lookup k m

  unfoldable pub insert : K → V → Dict K V → Dict K V
  insert k v [] = (k, v) ∷ []
  insert k v ((j, w) ∷ m) = if e'.beq j k then (j, v) ∷ m else (j, w) ∷ insert k v m

  -- no key stands twice
  abbrev pub DistinctKeys : Dict K V → Type κ
  DistinctKeys [] = Unit
  DistinctKeys ((k, v) ∷ m) = (lookup k m ≡ none) × DistinctKeys m

  pub lookup-insert :
      (k j : K) (v : V) (m : Dict K V)
      → lookup j (insert k v m) ≡ (if e'.beq k j then some v else lookup j m)
  unfolding lookup insert
  lookup-insert k j v [] = refl
  lookup-insert k j v ((i, w) ∷ m) =
      ground (arith, lookup-insert k j v m, e'.beq_iff i k, e'.beq_iff i j, e'.beq_iff k j)

  pub insert-DistinctKeys :
      (k : K) (v : V) (m : Dict K V) → DistinctKeys m → DistinctKeys (insert k v m)
  unfolding lookup insert
  insert-DistinctKeys k v [] h = (refl, tt)
  insert-DistinctKeys k v ((j, w) ∷ m) (n, h) =
      ground
        (arith, insert-DistinctKeys k v m h, lookup-insert k j v m, e'.beq_iff j k, e'.beq_iff k j)

  pub insert-All {μ} :
      (P : K × V → Type μ) (k : K) (v : V) (m : Dict K V)
      → P (k, v)
      → All P m
      → All P (insert k v m)
  unfolding insert
  insert-All P k v [] p h = (p, tt)
  insert-All P k v ((j, w) ∷ m) p (q, h) = elim (Bool-cases (e'.beq j k)) [
    | inl eq ↦ rw eq (rw ((e'.beq_iff j k).0 eq) (p, h))
    | inr ne ↦ rw ne (q, insert-All P k v m p h)
  ]

  -- what holds of every value holds of one that is looked up
  pub lookup-All {μ} :
      (Q : V → Type μ) (k : K) (m : Dict K V) {v : V}
      → All (λ (e : K × V). Q e.1) m
      → lookup k m ≡ some v
      → Q v
  unfolding lookup
  lookup-All Q k [] h e = cc
  lookup-All Q k ((j, w) ∷ m) (q, h) e = elim (Bool-cases (e'.beq j k)) [
    | inl eq ↦ subst Q (some-eq (rw eq at e)) q
    | inr ne ↦ lookup-All Q k m h (rw ne at e)
  ]

  -- what holds of every entry that is looked up holds of all entries, if no key stands twice
  pub All-lookup {μ} :
      (P : K × V → Type μ) (m : Dict K V)
      → DistinctKeys m
      → ((k : K) (v : V) → lookup k m ≡ some v → P (k, v))
      → All P m
  unfolding lookup
  All-lookup P [] d h = tt
  All-lookup P ((j, w) ∷ m) (n, d) h = (
    h j w (rw ((e'.beq_iff j j).1 refl)),
    All-lookup P m d (λ k v e. elim (Bool-cases (e'.beq j k)) [
      | inl eq ↦ absurd (cc ((e'.beq_iff j k).0 eq))
      | inr ne ↦ h k v (rw ne e)
    ]),
  )
