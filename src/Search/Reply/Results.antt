-- ===== src/Search/Reply/Results.antt =====
-- The results of `doSearchV2` as a whole.
use livegrep.Dict.{Dict, text_key}
use livegrep.Directory.{text_lt}
use livegrep.Directory.Order.{text_lt_irrefl, text_lt_trans}
use livegrep.Prelude.{
  ℕ, ◌≡◌, inl, inr, Bool, true, false, List, [], ◌∷◌, arith, map, Bool-cases, Text, text_eq_iff,
  All, All-Perm,
}
use livegrep.Search.{SearchHit, ResultLine, ResultV2}
use livegrep.Search.Merge.{dedupe}
use livegrep.Search.Merge.Lines.{dedupe-HasNumberedLines, HasNumberedLines}
use livegrep.Search.Reply.{values, sort_lines, file_less, make_results, Surroundings}
use livegrep.Search.Reply.Lines.{sort_lines-IsAscending, IsAscending}
use livegrep.Sort.{sort}
use livegrep.Sort.Laws.{IsSorted, sort-perm, sort-IsSorted}
use mathlib.Core.List.{Perm}
use mathlib.Core.List.Perm

IsAscending-prop : (ls : List ResultLine) → IsProp (IsAscending ls)
IsAscending-prop [] = hlevel
IsAscending-prop (a ∷ []) = hlevel
IsAscending-prop (a ∷ (b ∷ ls)) = hlevel (IsAscending-prop (b ∷ ls))

text_lt_asym : (s t : Text) → text_lt s t ≡ true → text_lt t s ≡ false
text_lt_asym s t h = elim (Bool-cases (text_lt t s)) [
  | inl k ↦ absurd (cc (text_lt_irrefl s, text_lt_trans s t s h k))
  | inr k ↦ k
]

-- the order of two results, which has no two results before each other
abbrev pub result_less : ResultV2 → ResultV2 → Bool
result_less a b = file_less (a.tree, a.path) (b.tree, b.path)

result_less_asym : (a b : ResultV2) → result_less a b ≡ true → result_less b a ≡ false
result_less_asym a b h = ground (
  arith,
  text_eq_iff a.tree b.tree,
  text_eq_iff b.tree a.tree,
  text_lt_asym a.path b.path,
  text_lt_asym a.tree b.tree,
)

module _ (env : Surroundings) where
  lines_ascend :
      ((m : Dict ℕ ResultLine) → Perm (env.visit_lines m) m)
      → (files : Dict Text ResultV2) → All (λ (e : Text × ResultV2). HasNumberedLines e.1) files
      → All (λ (r : ResultV2). IsAscending r.lines) (map (sort_lines env) (values files))
  lines_ascend v [] h = tt
  lines_ascend v ((k, r) ∷ files) (n, h) =
      ((sort_lines-IsAscending env v r n).0, lines_ascend v files h)

  -- Whatever the hits of a search are, and where the loops over maps visit each entry once, the
  -- line numbers of every result strictly ascend, the results are in the order of their trees and
  -- paths, and they are the files of the map, each once.
  pub make_results-IsAscending :
      ((m : Dict ℕ ResultLine) → Perm (env.visit_lines m) m)
      → ((m : Dict Text ResultV2) → Perm (env.visit_files m) m)
      → (hits : List SearchHit)
      → All
          (λ (r : ResultV2). IsAscending r.lines)
          (make_results env (env.visit_files (dedupe hits [])))
        × IsSorted result_less (make_results env (env.visit_files (dedupe hits [])))
        × Perm
            (make_results env (env.visit_files (dedupe hits [])))
            (map (sort_lines env) (values (dedupe hits [])))
  unfolding make_results
  make_results-IsAscending vl vf hits =
      let files = dedupe hits [] in
      let visited = map (sort_lines env) (values (env.visit_files files)) in
      let order = Perm.map (sort_lines env) (Perm.map (λ (e : Text × ResultV2). e.1) (vf files)) in
      let sorted = Perm.trans (sort-perm result_less visited) order in
      (
        All-Perm (λ (r : ResultV2). IsAscending r.lines) (λ r. IsAscending-prop r.lines)
            (map (sort_lines env) (values files)) (sort result_less visited) (Perm.symm sorted)
            (lines_ascend vl files (dedupe-HasNumberedLines hits [] tt)),
        sort-IsSorted result_less result_less_asym visited,
        sorted,
      )
