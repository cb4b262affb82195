-- ===== src/Search/Reply/Lines.antt =====
-- The lines of a result of `doSearchV2`.
use livegrep.Dict.{DistinctKeys, Dict, lookup, number_key, text_key}
use livegrep.GoText.Decimal.{int_lt, word}
use livegrep.Prelude.{ℕ, ◌<◌, ◌≡◌, sym, ◌≢◌, true, none, List, [], ◌∷◌, arith, ==_iff, All, All-Mem}
use livegrep.Search.{ResultV2, ResultLine}
use livegrep.Search.Merge.Lines.{HasNumberedLines, IsNumbered}
use livegrep.Search.Reply.{line_less, values, Surroundings, sort_lines}
use livegrep.Sort.{sort}
use livegrep.Sort.Laws.{sort-perm, IsSorted}
use mathlib.Core.List.{Perm, Pairwise, mem-cons_self, rel_of_Pairwise-cons}
use mathlib.Core.List.Perm
use mathlib.Core.List.Pairwise
use native.Mathlib.Bridge.{le_prop}
use livegrep.Sort.Laws.{sort-IsSorted}

-- two lines with different numbers, each an int
abbrev Apart : ResultLine → ResultLine → Type 0
Apart a b = (a.line_number < word) × (b.line_number < word) × (a.line_number ≢ b.line_number)

Apart-prop : (a b : ResultLine) → IsProp (Apart a b)
Apart-prop a b = hlevel (le_prop)

differs_from_values :
    (k : ℕ) (l : ResultLine) (lines : Dict ℕ ResultLine)
    → IsNumbered (k, l)
    → lookup k lines ≡ none
    → All IsNumbered lines
    → All (Apart l) (values lines)
unfolding lookup
differs_from_values k l [] n e h = tt
differs_from_values k l ((j, m) ∷ lines) n e (p, h) =
    ground (arith, differs_from_values k l lines n, ==_iff j k)

values-Apart :
    (lines : Dict ℕ ResultLine)
    → DistinctKeys lines
    → All IsNumbered lines
    → Pairwise Apart (values lines)
values-Apart [] d h = Pairwise.nil
values-Apart ((k, l) ∷ lines) (e, d) (n, h) =
    Pairwise.cons
      (λ l' m.
        All-Mem (Apart l) (Apart-prop l) (values lines) (differs_from_values k l lines n e h) m)
      (values-Apart lines d h)

-- Each line number is less than the one behind it, as an int.
abbrev pub IsAscending : List ResultLine → Type 0
IsAscending [] = Unit
IsAscending (a ∷ []) = Unit
IsAscending (a ∷ (b ∷ ls)) = (int_lt a.line_number b.line_number ≡ true) × IsAscending (b ∷ ls)

strictly_sorted :
    (ls : List ResultLine) → IsSorted line_less ls → Pairwise Apart ls → IsAscending ls
strictly_sorted [] s p = tt
strictly_sorted (a ∷ []) s p = tt
strictly_sorted (a ∷ (b ∷ ls)) (s, ss) p =
    let (wa, wb, ne) = rel_of_Pairwise-cons p mem-cons_self in
    (ground arith, strictly_sorted (b ∷ ls) ss (Pairwise.of_cons p))

-- Where the loop visits each line once and the line numbers are distinct, the sorted lines of a result
-- ascend strictly, and are the lines of its map.
pub sort_lines-IsAscending :
    (env : Surroundings)
    → ((m : Dict ℕ ResultLine) → Perm (env.visit_lines m) m)
    → (r : ResultV2) → HasNumberedLines r
    → IsAscending (sort_lines env r).lines × Perm (sort_lines env r).lines (values r.context_lines)
unfolding sort_lines
sort_lines-IsAscending env v r (d, n) =
    let visited = values (env.visit_lines r.context_lines) in
    let e =
      Perm.trans (sort-perm line_less visited)
        (Perm.map (λ (e : ℕ × ResultLine). e.1) (v r.context_lines)) in
    (
      strictly_sorted (sort line_less visited)
          (sort-IsSorted line_less (λ a b h. ground arith) visited)
          (Perm.pairwise Apart-prop (λ a b (f, g, h). (g, f, λ q. h (sym q))) (Perm.symm e)
            (values-Apart r.context_lines d n)),
      e,
    )
