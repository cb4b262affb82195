-- ===== src/GoText/Split.antt =====
-- strings.Split and strings.SplitN (and those of package bytes) with a separator of one byte.
use livegrep.GoText.Regexp.{contains_byte}
use livegrep.Prelude.{
  ℕ, zero, suc, ◌+◌, ◌≤◌, ◌≡◌, refl, ap, ◌∙◌, inl, inr, false, Option, none, some, List, [], ◌∷◌,
  ◌++◌, arith, ◌==◌, if◌then◌else◌, ==_refl, Bool-cases, Option-cases, some-eq, Text, length,
  length-append, All,
}
use mathlib.Core.Path.{subst}

-- what stands before the first `sep` and behind it
unfoldable pub cut_at : ℕ → Text → Option (Text × Text)
cut_at sep [] = none
cut_at sep (c ∷ s) =
    let later = cut_at sep s in
    if c == sep then some ([], s) else elim later [ none ↦ none | some r ↦ some (c ∷ r.0, r.1) ]

-- SplitN into at most `n + 1` parts
unfoldable pub split_n : ℕ → ℕ → Text → List Text
unfolding cut_at
split_n sep zero s = s ∷ []
split_n sep (suc n) s = elim (cut_at sep s) [ none ↦ s ∷ [] | some r ↦ r.0 ∷ split_n sep n r.1 ]

-- Split: there are at most as many separators as bytes
unfoldable pub split : ℕ → Text → List Text
unfolding split_n
split sep s = split_n sep (length s) s

-- the parts, each but the last with the separator behind it
abbrev pub join_by : ℕ → List Text → Text
join_by sep [] = []
join_by sep (p ∷ []) = p
join_by sep (p ∷ (q ∷ ps)) = p ++ (sep ∷ join_by sep (q ∷ ps))

abbrev pub Lacks : ℕ → Text → Type 0
Lacks sep = All (λ c. (c == sep) ≡ false)

pub cut_at-append : (sep : ℕ) (f s : Text) → Lacks sep f → cut_at sep (f ++ (sep ∷ s)) ≡ some (f, s)
unfolding cut_at
cut_at-append sep [] s h = ground (arith, ==_refl sep)
cut_at-append sep (c ∷ f) s (h, hs) = rw (h, cut_at-append sep f s hs)

cut_at-Lacks : (sep : ℕ) (f : Text) → Lacks sep f → cut_at sep f ≡ none
unfolding cut_at
cut_at-Lacks sep [] h = refl
cut_at-Lacks sep (c ∷ f) (h, hs) = rw (h, cut_at-Lacks sep f hs)

split_n_step :
    (sep n : ℕ) (s : Text) {a b : Text}
    → cut_at sep s ≡ some (a, b)
    → split_n sep (suc n) s ≡ a ∷ split_n sep n b
unfolding split_n
split_n_step sep n s e = rw (split_n, e)

-- Parts without the separator are what the text made of them splits into.
pub split_n-join_by :
    (sep n : ℕ) (p : Text) (ps : List Text)
    → length ps ≤ n
    → All (Lacks sep) (p ∷ ps)
    → split_n sep n (join_by sep (p ∷ ps)) ≡ p ∷ ps
unfolding split_n
split_n-join_by sep zero p [] h w = refl
split_n-join_by sep zero p (q ∷ ps) h w = absurd (omega arith)
split_n-join_by sep (suc n) p [] h (w, ws) = rw (split_n, cut_at-Lacks sep p w)
split_n-join_by sep (suc n) p (q ∷ ps) h (w, ws) =
    split_n_step sep n _ (cut_at-append sep p (join_by sep (q ∷ ps)) w)
    ∙ ap (λ r. p ∷ r) (split_n-join_by sep n q ps (omega arith) ws)

-- The last part of SplitN may hold the separator.
pub split_n-fields :
    (sep : ℕ) (fs : List Text) (s : Text)
    → All (Lacks sep) fs
    → split_n sep (length fs) (join_by sep (fs ++ (s ∷ []))) ≡ fs ++ (s ∷ [])
unfolding split_n
split_n-fields sep [] s w = refl
split_n-fields sep (f ∷ []) s (w, ws) = rw (split_n, cut_at-append sep f s w)
split_n-fields sep (f ∷ (g ∷ fs)) s (w, ws) =
    split_n_step sep (length (g ∷ fs)) _
      (cut_at-append sep f (join_by sep (g ∷ (fs ++ (s ∷ [])))) w)
    ∙ ap (λ r. f ∷ r) (split_n-fields sep (g ∷ fs) s ws)

-- the bytes of the parts, and one more for each
abbrev pub size : List Text → ℕ
size [] = 0
size (p ∷ ps) = suc (length p) + size ps

pub cut_at-length :
    (sep : ℕ) (s : Text) {r : Text × Text}
    → cut_at sep s ≡ some r
    → length s ≡ length r.0 + suc (length r.1)
unfolding cut_at
cut_at-length sep [] e = cc
cut_at-length sep (c ∷ s) {r} e = elim (Bool-cases (c == sep)) [
  | inl x ↦
      subst (λ (r : Text × Text). length (c ∷ s) ≡ length r.0 + suc (length r.1))
        (some-eq (rw (x, cut_at) at e)) (omega arith)
  | inr x ↦ elim (Option-cases (cut_at sep s)) [
    | inl n ↦ absurd (cc (let e' = rw (x, n, cut_at) at e in e'))
    | inr (q, m) ↦
        subst (λ (r : Text × Text). length (c ∷ s) ≡ length r.0 + suc (length r.1))
          (some-eq (rw (x, m, cut_at) at e)) (omega (arith, cut_at-length sep s m))
  ]
]

pub size-split_n : (sep n : ℕ) (s : Text) → size (split_n sep n s) ≡ suc (length s)
unfolding split_n
size-split_n sep zero s = omega arith
size-split_n sep (suc n) s = elim (Option-cases (cut_at sep s)) [
  | inl e ↦ rw (split_n, e) (omega arith)
  | inr (r, e) ↦ rw (split_n, e) (omega (arith, size-split_n sep n r.1, cut_at-length sep s e))
]

length-join_by : (sep : ℕ) (p : Text) (ps : List Text) → length ps ≤ length (join_by sep (p ∷ ps))
length-join_by sep p [] = omega arith
length-join_by sep p (q ∷ ps) =
    omega (arith, length-join_by sep q ps, length-append p (sep ∷ join_by sep (q ∷ ps)))

pub split-join_by :
    (sep : ℕ) (p : Text) (ps : List Text)
    → All (Lacks sep) (p ∷ ps)
    → split sep (join_by sep (p ∷ ps)) ≡ p ∷ ps
unfolding split
split-join_by sep p ps w =
    split_n-join_by sep (length (join_by sep (p ∷ ps))) p ps (length-join_by sep p ps) w

-- a text that does not contain a byte lacks it
pub contains_byte-Lacks : (sep : ℕ) (s : Text) → contains_byte sep s ≡ false → Lacks sep s
unfolding contains_byte
contains_byte-Lacks sep [] e = tt
contains_byte-Lacks sep (c ∷ s) e = elim (Bool-cases (sep == c)) [
  | inl same ↦ cc (rw (contains_byte, same) at e)
  | inr other ↦ (ground arith, contains_byte-Lacks sep s (rw (contains_byte, other) at e))
]
