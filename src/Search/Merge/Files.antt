-- ===== src/Search/Merge/Files.antt =====
-- What the hits of one file come to.
use livegrep.Dict.{lookup, lookup-insert, Dict, number_key, text_key}
use livegrep.GoText.Decimal.{word}
use livegrep.GoText.Split.{cut_at, cut_at-append, Lacks}
use livegrep.Prelude.{
  ℕ, ◌+◌, ◌%◌, ◌≡◌, refl, sym, ap, ◌∙◌, ◌≡⟨◌⟩◌, ◌∎, inl, inr, Bool, true, false, Option, none, some,
  List, [], ◌∷◌, ◌++◌, append_assoc, arith, if◌then◌else◌, Bool-cases, some-eq, Text, codes,
  text_eq, text_eq_iff, All,
}
use livegrep.Search.{ResultV2, SearchHit}
use livegrep.Search.Merge.{merged, result_key, dedupe, merge_hit}

-- the matches of the hits that stand under the key `k`, counted without the wrap-around
abbrev pub sum_matches : Text → List SearchHit → ℕ
sum_matches k [] = 0
sum_matches k (r ∷ rs) = (if text_eq (result_key r) k then r.num_matches else 0) + sum_matches k rs

abbrev pub has_hit : Text → List SearchHit → Bool
has_hit k [] = false
has_hit k (r ∷ rs) = if text_eq (result_key r) k then true else has_hit k rs

abbrev pub matches_at : Text → Dict Text ResultV2 → Option ℕ
matches_at k results = elim (lookup k results) [ none ↦ none | some r ↦ some r.num_matches ]

-- the number of matches at a key after the hits, from the number before them
abbrev counted : Text → List SearchHit → Option ℕ → Option ℕ
counted k rs none = if has_hit k rs then some (sum_matches k rs % word) else none
counted k rs (some n) = some (if has_hit k rs then (n + sum_matches k rs) % word else n)

matches_at-merge_hit :
    (k : Text) (r : SearchHit) (results : Dict Text ResultV2)
    → matches_at k (merge_hit r results) ≡ counted k (r ∷ []) (matches_at k results)
unfolding merge_hit
matches_at-merge_hit k r results = ground (
  arith,
  lookup-insert (result_key r) k (merged r (lookup (result_key r) results)) results,
  text_eq_iff (result_key r) k,
)

sum_matches-has_hit : (k : Text) (rs : List SearchHit) → has_hit k rs ≡ false → sum_matches k rs ≡ 0
sum_matches-has_hit k [] h = refl
sum_matches-has_hit k (r ∷ rs) h = ground (arith, sum_matches-has_hit k rs)

mod_add : (a b : ℕ) → (a % word + b) % word ≡ (a + b) % word
mod_add a b = omega arith

append_zero : (n m : ℕ) → n + (m + 0) ≡ n + m
append_zero n m = omega arith

counted-cons :
    (k : Text) (r : SearchHit) (rs : List SearchHit) (o : Option ℕ)
    → counted k rs (counted k (r ∷ []) o) ≡ counted k (r ∷ rs) o
counted-cons k r rs none =
    ground (arith, sum_matches-has_hit k rs, mod_add r.num_matches (sum_matches k rs))
counted-cons k r rs (some n) = ground (
  arith,
  sum_matches-has_hit k rs,
  mod_add (n + r.num_matches) (sum_matches k rs),
  append_zero n r.num_matches,
)

counted-nil : (k : Text) (o : Option ℕ) → counted k [] o ≡ o
counted-nil k none = refl
counted-nil k (some n) = refl

matches_at-dedupe_lem :
    (k : Text) (rs : List SearchHit) (results : Dict Text ResultV2)
    → matches_at k (dedupe rs results) ≡ counted k rs (matches_at k results)
unfolding dedupe
matches_at-dedupe_lem k [] results = sym (counted-nil k (matches_at k results))
matches_at-dedupe_lem k (r ∷ rs) results =
    matches_at k (dedupe rs (merge_hit r results))
    ≡⟨ matches_at-dedupe_lem k rs (merge_hit r results) ⟩
      counted k rs (matches_at k (merge_hit r results))
    ≡⟨ ap (counted k rs) (matches_at-merge_hit k r results) ⟩
      counted k rs (counted k (r ∷ []) (matches_at k results))
    ≡⟨ counted-cons k r rs (matches_at k results) ⟩ counted k (r ∷ rs) (matches_at k results) ∎

key_parts :
    (t u p q : Text)
    → Lacks b'-' t
    → Lacks b'-' u
    → t ++ codes "-" ++ p ≡ u ++ codes "-" ++ q
    → (t ≡ u) × (p ≡ q)
key_parts t u p q f g e =
    let a = cut_at-append b'-' t p f in
    let b = cut_at-append b'-' u q g in
    let same = sym (append_assoc t (codes "-") p) ∙ e ∙ append_assoc u (codes "-") q in
    let c = some-eq (sym a ∙ ap (cut_at b'-') same ∙ b) in (ap (λ x. x.0) c, ap (λ x. x.1) c)

-- every result stands under the key of its file, and no tree has a dash in its name
abbrev IsFiled : Dict Text ResultV2 → Type 0
IsFiled results =
    (k : Text) (r : ResultV2)
    → lookup k results ≡ some r
    → (r.tree ++ codes "-" ++ r.path ≡ k) × Lacks b'-' r.tree

merged-IsFiled :
    (r : SearchHit) (o : Option ResultV2)
    → Lacks b'-' r.tree
    → ((old : ResultV2)
        → o ≡ some old
        → (old.tree ++ codes "-" ++ old.path ≡ result_key r) × Lacks b'-' old.tree)
    → ((merged r o).tree ++ codes "-" ++ (merged r o).path ≡ result_key r)
      × Lacks b'-' (merged r o).tree
unfolding result_key
merged-IsFiled r none d h = (refl, d)
merged-IsFiled r (some old) d h = h old refl

merge_hit-IsFiled :
    (r : SearchHit) (results : Dict Text ResultV2)
    → Lacks b'-' r.tree
    → IsFiled results
    → IsFiled (merge_hit r results)
unfolding merge_hit
merge_hit-IsFiled r results d h k old e =
    let m = merged r (lookup (result_key r) results) in
    elim (Bool-cases (text_eq (result_key r) k)) [
      | inl eq ↦
          let same = (text_eq_iff (result_key r) k).0 eq in
          let new = some-eq (sym (rw (lookup-insert (result_key r) k m results, eq) at e)) in
          rw (new, sym same) (merged-IsFiled r (lookup (result_key r) results) d (h (result_key r)))
      | inr ne ↦ h k old (rw (lookup-insert (result_key r) k m results, ne) at e)
    ]

dedupe-IsFiled :
    (rs : List SearchHit) (results : Dict Text ResultV2)
    → All (λ r. Lacks b'-' r.tree) rs
    → IsFiled results
    → IsFiled (dedupe rs results)
unfolding dedupe
dedupe-IsFiled [] results d h = h
dedupe-IsFiled (r ∷ rs) results (d, ds) h =
    dedupe-IsFiled rs (merge_hit r results) ds (merge_hit-IsFiled r results d h)

-- For hits in trees without a dash in their names, the map has a result for a hit's file exactly if
-- a hit has its key, with the tree and path of that file, and its number of matches is the sum of
-- those of the hits with its key, modulo 2 ^ 64.
pub matches_at-dedupe :
    (rs : List SearchHit) (r : SearchHit)
    → All (λ r. Lacks b'-' r.tree) rs
    → Lacks b'-' r.tree
    → (matches_at (result_key r) (dedupe rs [])
        ≡ (if has_hit (result_key r) rs then some (sum_matches (result_key r) rs % word) else none))
      × ((res : ResultV2)
          → lookup (result_key r) (dedupe rs []) ≡ some res
          → (res.tree ≡ r.tree) × (res.path ≡ r.path))
unfolding result_key lookup
matches_at-dedupe rs r ds d = (
  matches_at-dedupe_lem (result_key r) rs [],
  λ res e.
      let (same, lacks) = dedupe-IsFiled rs [] ds (λ k old f. cc) (result_key r) res e in
      key_parts res.tree r.tree res.path r.path lacks d same,
)
