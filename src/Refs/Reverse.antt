-- ===== src/Refs/Reverse.antt =====
-- `ReverseSlice` reverses.
use mathlib.Core.List.{reverse-cons}
use livegrep.Prelude.{
  ℕ, zero, suc, ◌+◌, ◌-◌, ◌≤◌, ◌<◌, ◌≡◌, refl, ap, ◌∙◌, inl, inr, true, false, ◌&&◌, none, some,
  List, [], ◌∷◌, ◌++◌, arith, reverse, ltb, leb, ◌==◌, if◌then◌else◌, Bool-cases, Option-cases,
  some-eq, length, get_elem?, length-append,
}
use livegrep.Refs.{reverse_slice, reverse_loop, set_at, swap}

module _ {A : Type 0} where
  length-set_at : (k : ℕ) (v : A) (xs : List A) → length (set_at k v xs) ≡ length xs
  unfolding set_at
  length-set_at k v [] = refl
  length-set_at zero v (x ∷ xs) = refl
  length-set_at (suc k) v (x ∷ xs) = ap suc (length-set_at k v xs)

  get_elem?-set_at :
      (k m : ℕ) (v : A) (xs : List A)
      → k < length xs
      → get_elem? (set_at k v xs) m ≡ (if m == k then some v else get_elem? xs m)
  unfolding set_at
  get_elem?-set_at k m v [] h = absurd (omega arith)
  get_elem?-set_at zero zero v (x ∷ xs) h = refl
  get_elem?-set_at zero (suc m) v (x ∷ xs) h = ground arith
  get_elem?-set_at (suc k) zero v (x ∷ xs) h = ground arith
  get_elem?-set_at (suc k) (suc m) v (x ∷ xs) h = ground (arith, get_elem?-set_at k m v xs)

  get_elem?-some : (k : ℕ) (xs : List A) → k < length xs → (a : A) × (get_elem? xs k ≡ some a)
  get_elem?-some k [] h = absurd (omega arith)
  get_elem?-some zero (x ∷ xs) h = (x, refl)
  get_elem?-some (suc k) (x ∷ xs) h = get_elem?-some k xs (omega arith)

  get_elem?-swap :
      (i j m : ℕ) (xs : List A)
      → i < length xs
      → j < length xs
      → get_elem? (swap i j xs) m
        ≡ (if m == i then get_elem? xs j else if m == j then get_elem? xs i else get_elem? xs m)
  get_elem?-swap i j m xs h k =
      let (a, e) = get_elem?-some i xs h in
      let (b, f) = get_elem?-some j xs k in
      rw (e, f)
        (ground (
          arith,
          get_elem?-set_at i m b (set_at j a xs),
          get_elem?-set_at j m a xs,
          length-set_at j a xs,
          e,
          f,
        ))

  length-swap : (i j : ℕ) (xs : List A) → length (swap i j xs) ≡ length xs
  length-swap i j xs = elim (Option-cases (get_elem? xs i)) [
    | inl n ↦ rw (swap, n)
    | inr (a, e) ↦ elim (Option-cases (get_elem? xs j)) [
      | inl n ↦ rw (swap, e, n)
      | inr (b, f) ↦ rw (swap, e, f) (length-set_at i b (set_at j a xs) ∙ length-set_at j a xs)
    ]
  ]

  no_swap :
      (i j m : ℕ) (xs : List A)
      → j < length xs
      → ltb i j ≡ false
      → get_elem? xs m ≡ (if leb i m && leb m j then get_elem? xs (i + j - m) else get_elem? xs m)
  no_swap i j m xs h n = grind arith

  one_swap :
      (i j m : ℕ) (xs : List A)
      → j < length xs
      → ltb i j ≡ true
      → (if leb (i + 1) m && leb m (j - 1)
          then get_elem? (swap i j xs) (i + 1 + (j - 1) - m)
          else get_elem? (swap i j xs) m)
        ≡ (if leb i m && leb m j then get_elem? xs (i + j - m) else get_elem? xs m)
  one_swap i j m xs h l = grind (
    arith,
    get_elem?-swap i j m xs (ground arith) h,
    get_elem?-swap i j (i + 1 + (j - 1) - m) xs (ground arith) h,
  )

  get_elem?-reverse_loop :
      (fuel i j m : ℕ) (xs : List A)
      → j < length xs
      → j < i + fuel
      → get_elem? (reverse_loop fuel i j xs) m
        ≡ (if leb i m && leb m j then get_elem? xs (i + j - m) else get_elem? xs m)
  unfolding reverse_loop
  get_elem?-reverse_loop zero i j m xs h k = ground arith
  get_elem?-reverse_loop (suc fuel) i j m xs h k = elim (Bool-cases (ltb i j)) [
    | inr n ↦ rw n (no_swap i j m xs h n)
    | inl l ↦ rw l (
        get_elem?-reverse_loop fuel (i + 1) (j - 1) m (swap i j xs)
          (ground (arith, length-swap i j xs)) (ground arith)
        ∙ one_swap i j m xs h l)
  ]

  pub get_elem?-append :
      (xs ys : List A) (m : ℕ)
      → get_elem? (xs ++ ys) m
        ≡ (if ltb m (length xs) then get_elem? xs m else get_elem? ys (m - length xs))
  get_elem?-append [] ys m = grind arith
  get_elem?-append (x ∷ xs) ys zero = grind arith
  get_elem?-append (x ∷ xs) ys (suc m) = grind (arith, get_elem?-append xs ys m)

  get_elem?-none : (xs : List A) (m : ℕ) → length xs ≤ m → get_elem? xs m ≡ none
  get_elem?-none [] m h = refl
  get_elem?-none (x ∷ xs) zero h = absurd (omega arith)
  get_elem?-none (x ∷ xs) (suc m) h = get_elem?-none xs m (omega arith)

  reverse-length : (xs : List A) → length (reverse xs) ≡ length xs
  reverse-length [] = refl
  reverse-length (x ∷ xs) =
      ap length (reverse-cons x xs)
      ∙ omega (arith, length-append (reverse xs) (x ∷ []), reverse-length xs)

  reverse_step :
      (x : A) (xs : List A) (m : ℕ)
      → m < suc (length xs)
      → (m < length xs → get_elem? (reverse xs) m ≡ get_elem? xs (length xs - 1 - m))
      → (if ltb m (length (reverse xs))
          then get_elem? (reverse xs) m
          else get_elem? (x ∷ []) (m - length (reverse xs)))
        ≡ get_elem? (x ∷ xs) (suc (length xs) - 1 - m)
  reverse_step x xs m h k = elim (Bool-cases (ltb m (length xs))) [
    | inl l ↦
        let e : suc (length xs) - 1 - m ≡ suc (length xs - 1 - m) = ground arith in
        rw (reverse-length xs, l, e) (k (ground arith))
    | inr n ↦
        let e : suc (length xs) - 1 - m ≡ 0 = ground arith in
        let f : m - length xs ≡ 0 = ground arith in rw (reverse-length xs, n, e, f)
  ]

  get_elem?-reverse :
      (xs : List A) (m : ℕ)
      → m < length xs
      → get_elem? (reverse xs) m ≡ get_elem? xs (length xs - 1 - m)
  get_elem?-reverse [] m h = absurd (omega arith)
  get_elem?-reverse (x ∷ xs) m h =
      ap (λ l. get_elem? l m) (reverse-cons x xs)
      ∙ get_elem?-append (reverse xs) (x ∷ []) m
      ∙ reverse_step x xs m h (λ l. get_elem?-reverse xs m l)

  same_elements : (xs ys : List A) → ((m : ℕ) → get_elem? xs m ≡ get_elem? ys m) → xs ≡ ys
  same_elements [] [] h = refl
  same_elements [] (y ∷ ys) h = absurd (cc (h 0))
  same_elements (x ∷ xs) [] h = absurd (cc (h 0))
  same_elements (x ∷ xs) (y ∷ ys) h =
      let e = same_elements xs ys (λ m. h (suc m)) in let f = some-eq (h 0) in cc

  both :
      (x : A) (xs : List A) (m : ℕ)
      → (if leb 0 m && leb m (suc (length xs) - 1)
          then get_elem? (x ∷ xs) (0 + (suc (length xs) - 1) - m)
          else get_elem? (x ∷ xs) m)
        ≡ get_elem? (reverse (x ∷ xs)) m
  both x xs m = elim (Bool-cases (ltb m (suc (length xs)))) [
    | inl l ↦ grind (arith, get_elem?-reverse (x ∷ xs) m (ground arith))
    | inr n ↦
        let out : suc (length xs) ≤ m = ground arith in
        let long : length (reverse (x ∷ xs)) ≤ m = omega (arith, out, reverse-length (x ∷ xs)) in
        grind (arith, get_elem?-none (x ∷ xs) m out, get_elem?-none (reverse (x ∷ xs)) m long)
  ]

  -- The loop of `ReverseSlice`, which swaps entries from both ends, gives the reverse of the list.
  pub reverse_slice-reverse : (xs : List A) → reverse_slice xs ≡ reverse xs
  unfolding reverse_slice
  reverse_slice-reverse [] = refl
  reverse_slice-reverse (x ∷ xs) =
      same_elements (reverse_loop (suc (length xs)) 0 (suc (length xs) - 1) (x ∷ xs))
        (reverse (x ∷ xs))
        (λ m.
          get_elem?-reverse_loop (suc (length xs)) 0 (suc (length xs) - 1) m (x ∷ xs) (omega arith)
            (omega arith)
          ∙ both x xs m)
