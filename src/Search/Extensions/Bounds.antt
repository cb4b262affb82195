-- ===== src/Search/Extensions/Bounds.antt =====
-- How many extensions are shown, in what order, and with which counts.
use livegrep.Dict.{
  All-lookup, insert-DistinctKeys, lookup-insert, DistinctKeys, lookup, Dict, text_key,
}
use livegrep.GoText.Decimal.{increment, word}
use livegrep.Prelude.{
  ℕ, zero, suc, ◌+◌, ◌%◌, ◌≤◌, ◌<◌, ◌≡◌, ◌≢◌, none, some, List, [], ◌∷◌, arith, if◌then◌else◌, Text,
  text_eq, text_eq_iff, length, take, length-take, All, All-Perm,
}
use livegrep.Search.Extensions.{
  shown, count_greater, FileExtension, count_ext, ext, extension_array, extension_counts, pop_exts,
}
use livegrep.Sort.{sort}
use livegrep.Sort.Laws.{IsSorted, sort-perm, sort-IsSorted}
use mathlib.Core.List.{Perm}
use mathlib.Core.List.Perm

-- the number of the paths with the extension `e`
abbrev pub occurrences : Text → List Text → ℕ
occurrences e [] = 0
occurrences e (p ∷ ps) = (if text_eq (ext p) e then 1 else 0) + occurrences e ps

abbrev value_at : Text → Dict Text ℕ → ℕ
value_at e counts = elim (lookup e counts) [ none ↦ 0 | some n ↦ n ]

count_ext-value_at :
    (x e : Text) (counts : Dict Text ℕ)
    → value_at e (count_ext x counts)
      ≡ (if text_eq x e then (value_at e counts + 1) % word else value_at e counts)
unfolding count_ext
count_ext-value_at x e counts = ground (
  arith,
  text_eq_iff x e,
  lookup-insert x e (elim (lookup x counts) [ none ↦ 1 | some n ↦ increment n ]) counts,
)

extension_counts-value_at :
    (e : Text) (paths : List Text) (counts : Dict Text ℕ)
    → value_at e counts < word
    → value_at e (extension_counts paths counts) ≡ (value_at e counts + occurrences e paths) % word
unfolding extension_counts
extension_counts-value_at e [] counts w = omega arith
extension_counts-value_at e (p ∷ ps) counts w = ground (
  arith,
  extension_counts-value_at e ps (count_ext (ext p) counts),
  count_ext-value_at (ext p) e counts,
)

extension_counts-DistinctKeys :
    (paths : List Text) (counts : Dict Text ℕ)
    → DistinctKeys counts
    → DistinctKeys (extension_counts paths counts)
unfolding extension_counts count_ext
extension_counts-DistinctKeys [] counts d = d
extension_counts-DistinctKeys (p ∷ ps) counts d =
    extension_counts-DistinctKeys ps (count_ext (ext p) counts)
      (insert-DistinctKeys (ext p) _ counts d)

counts-counted :
    (paths : List Text)
    → All (λ (e : Text × ℕ). e.1 ≡ occurrences e.0 paths % word) (extension_counts paths [])
unfolding lookup
counts-counted paths =
    All-lookup (λ (e : Text × ℕ). e.1 ≡ occurrences e.0 paths % word) (extension_counts paths [])
      (extension_counts-DistinctKeys paths [] tt)
      (λ e n f. ground (arith, extension_counts-value_at e paths []))

-- an extension that is shown, of these paths
abbrev pub IsCounted : List Text → FileExtension → Type 0
IsCounted paths x = (x.ext ≢ []) × (x.count ≡ occurrences x.ext paths % word)

extension_array-IsCounted :
    (paths : List Text) (counts : Dict Text ℕ)
    → All (λ (e : Text × ℕ). e.1 ≡ occurrences e.0 paths % word) counts
    → All (IsCounted paths) (extension_array counts)
unfolding extension_array
extension_array-IsCounted paths [] h = tt
extension_array-IsCounted paths (([], n) ∷ counts) (p, h) = extension_array-IsCounted paths counts h
extension_array-IsCounted paths ((c ∷ e, n) ∷ counts) (p, h) =
    ((λ q. cc, p), extension_array-IsCounted paths counts h)

take-IsSorted :
    (n : ℕ) (xs : List FileExtension)
    → IsSorted count_greater xs
    → IsSorted count_greater (take n xs)
take-IsSorted zero xs h = tt
take-IsSorted (suc n) [] h = tt
take-IsSorted (suc zero) (x ∷ []) h = tt
take-IsSorted (suc (suc n)) (x ∷ []) h = tt
take-IsSorted (suc zero) (x ∷ (y ∷ xs)) h = tt
take-IsSorted (suc (suc n)) (x ∷ (y ∷ xs)) (h, hs) = (h, take-IsSorted (suc n) (y ∷ xs) hs)

take-All :
    (P : FileExtension → Type 0) (n : ℕ) (xs : List FileExtension) → All P xs → All P (take n xs)
take-All P zero xs h = tt
take-All P (suc n) [] h = tt
take-All P (suc n) (x ∷ xs) (p, h) = (p, take-All P n xs h)

-- Where the loop visits each count once, the popular extensions are at most five and never one
-- alone, they are ordered by falling counts, none is empty, and each has the number of the paths
-- with this extension, modulo 2 ^ 64.
pub pop_exts_bounds :
    (visit : Dict Text ℕ → Dict Text ℕ)
    → ((m : Dict Text ℕ) → Perm (visit m) m)
    → (paths : List Text)
    → (length (pop_exts visit paths) ≤ 5)
      × (length (pop_exts visit paths) ≢ 1)
      × IsSorted count_greater (pop_exts visit paths)
      × All (IsCounted paths) (pop_exts visit paths)
unfolding pop_exts
pop_exts_bounds visit v paths =
    let counts = extension_counts paths [] in
    let array = extension_array (visit counts) in
    let exts = sort count_greater array in
    let fits = length-take (shown (length exts)) exts in
    (
      ground (arith, fits),
      ground (arith, fits),
      take-IsSorted (shown (length exts)) exts
          (sort-IsSorted count_greater (λ a b h. ground arith) array),
      take-All (IsCounted paths) (shown (length exts)) exts (
          All-Perm (IsCounted paths) (λ x. hlevel) array exts
            (Perm.symm (sort-perm count_greater array))
            (extension_array-IsCounted paths (visit counts) (
              All-Perm (λ (e : Text × ℕ). e.1 ≡ occurrences e.0 paths % word) (λ x. hlevel) counts
                (visit counts) (Perm.symm (v counts)) (counts-counted paths)))),
    )
