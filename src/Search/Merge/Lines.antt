-- ===== src/Search/Merge/Lines.antt =====
-- The lines of one file: what a further hit does to the marks, and the numbers of the lines.
use livegrep.Dict.{
  lookup-All, lookup-insert, insert, insert-All, insert-DistinctKeys, DistinctKeys, lookup, Dict,
  number_key, text_key,
}
use livegrep.GoText.Decimal.{increment, word}
use livegrep.Prelude.{
  ℕ, ◌≤◌, ◌<◌, ◌≡◌, refl, inl, inr, Bool, true, false, Option, none, some, List, [], ◌∷◌, arith,
  ==_iff, Bool-cases, some-eq, Text, text_eq, text_eq_iff, length, All,
}
use livegrep.Search.{ResultLine, ResultV2, SearchHit}
use livegrep.Search.Merge.{
  result_key, dedupe, merge_hit, hit_bounds, context_texts, first_line_number, choose_bounds,
  merged, merge_lines,
}

-- the number of bounds at the line number `n`
abbrev pub bounds_at : ℕ → Dict ℕ ResultLine → ℕ
bounds_at n lines = elim (lookup n lines) [ none ↦ 0 | some l ↦ length l.bounds ]

choose_bounds_lem :
    (o : Option ResultLine) (bounds : List (ℕ × ℕ)) (old : ResultLine)
    → o ≡ some old
    → length old.bounds ≤ length (choose_bounds true o bounds)
choose_bounds_lem none bounds old e = cc
choose_bounds_lem (some l) bounds old e = ground arith

-- the line that a further hit writes
abbrev merged_line : SearchHit → ℕ → Text → Dict ℕ ResultLine → ResultLine
merged_line r lno text lines = record {
  line_number = lno;
  bounds = choose_bounds true (lookup lno lines) (hit_bounds r lno);
  line = text;
}

insert-bounds_at :
    (r : SearchHit) (n lno : ℕ) (text : Text) (lines : Dict ℕ ResultLine)
    → bounds_at n lines ≤ bounds_at n (insert lno (merged_line r lno text lines) lines)
insert-bounds_at r n lno text lines = ground (
  arith,
  lookup-insert lno n (merged_line r lno text lines) lines,
  ==_iff lno n,
  choose_bounds_lem (lookup lno lines) (hit_bounds r lno),
)

merge_lines-bounds_at :
    (r : SearchHit) (n lno : ℕ) (texts : List Text) (lines : Dict ℕ ResultLine)
    → bounds_at n lines ≤ bounds_at n (merge_lines true r lno texts lines)
unfolding merge_lines
merge_lines-bounds_at r n lno [] lines = omega arith
merge_lines-bounds_at r n lno (text ∷ texts) lines = omega (
  arith,
  insert-bounds_at r n lno text lines,
  merge_lines-bounds_at r n (increment lno) texts (insert lno (merged_line r lno text lines) lines),
)

-- A line number of a file and the line under it.
abbrev pub IsNumbered : ℕ × ResultLine → Type 0
IsNumbered (k, l) = (l.line_number ≡ k) × (k < word)

merge_lines-IsNumbered :
    (present : Bool) (r : SearchHit) (lno : ℕ) (texts : List Text) (lines : Dict ℕ ResultLine)
    → lno < word
    → DistinctKeys lines
    → All IsNumbered lines
    → DistinctKeys (merge_lines present r lno texts lines)
      × All IsNumbered (merge_lines present r lno texts lines)
unfolding merge_lines
merge_lines-IsNumbered present r lno [] lines w d h = (d, h)
merge_lines-IsNumbered present r lno (text ∷ texts) lines w d h =
    merge_lines-IsNumbered present r (increment lno) texts _ (omega arith)
      (insert-DistinctKeys lno _ lines d) (insert-All IsNumbered lno _ lines (refl, w) h)

-- what holds of every result: its line numbers are distinct
abbrev pub HasNumberedLines : ResultV2 → Type 0
HasNumberedLines r = DistinctKeys r.context_lines × All IsNumbered r.context_lines

merged-HasNumberedLines :
    (r : SearchHit) (o : Option ResultV2)
    → ((old : ResultV2) → o ≡ some old → HasNumberedLines old)
    → HasNumberedLines (merged r o)
merged-HasNumberedLines r none h =
    merge_lines-IsNumbered false r (first_line_number r) (context_texts r) [] (omega arith) tt tt
merged-HasNumberedLines r (some old) h =
    merge_lines-IsNumbered true r (first_line_number r) (context_texts r) old.context_lines
      (omega arith) (h old refl).0 (h old refl).1

-- After any hits the lines of every result have distinct numbers.
pub dedupe-HasNumberedLines :
    (rs : List SearchHit) (results : Dict Text ResultV2)
    → All (λ (e : Text × ResultV2). HasNumberedLines e.1) results
    → All (λ (e : Text × ResultV2). HasNumberedLines e.1) (dedupe rs results)
unfolding dedupe merge_hit
dedupe-HasNumberedLines [] results h = h
dedupe-HasNumberedLines (r ∷ rs) results h = dedupe-HasNumberedLines rs _ (
    insert-All (λ (e : Text × ResultV2). HasNumberedLines e.1) (result_key r) _ results
      (merged-HasNumberedLines r (lookup (result_key r) results)
        (λ old e. lookup-All HasNumberedLines (result_key r) results h e))
      h)

merged-bounds_at :
    (r : SearchHit) (o : Option ResultV2) (n : ℕ) {old : ResultV2}
    → o ≡ some old
    → bounds_at n old.context_lines ≤ bounds_at n (merged r o).context_lines
merged-bounds_at r none n e = cc
merged-bounds_at r (some x) n {old} e =
    rw (← some-eq e)
      (merge_lines-bounds_at r n (first_line_number r) (context_texts r) x.context_lines)

merge_hit-bounds_at :
    (r : SearchHit) (results : Dict Text ResultV2) (k : Text) (n : ℕ) {old : ResultV2}
    → lookup k results ≡ some old
    → (new : ResultV2) × (lookup k (merge_hit r results) ≡ some new)
      × (bounds_at n old.context_lines ≤ bounds_at n new.context_lines)
unfolding merge_hit
merge_hit-bounds_at r results k n {old} e =
    let m = merged r (lookup (result_key r) results) in
    elim (Bool-cases (text_eq (result_key r) k)) [
      | inl eq ↦
          let same = (text_eq_iff (result_key r) k).0 eq in
          (
            m,
            rw (lookup-insert (result_key r) k m results, eq),
            merged-bounds_at r (lookup (result_key r) results) n {old = old} (rw same e),
          )
      | inr ne ↦ (old, rw (lookup-insert (result_key r) k m results, ne) e, omega arith)
    ]

-- Further hits keep every result in the map, and no line of it has fewer bounds than before.
pub dedupe-bounds_at :
    (rs : List SearchHit) (results : Dict Text ResultV2) (k : Text) (n : ℕ) {old : ResultV2}
    → lookup k results ≡ some old
    → (new : ResultV2) × (lookup k (dedupe rs results) ≡ some new)
      × (bounds_at n old.context_lines ≤ bounds_at n new.context_lines)
unfolding dedupe
dedupe-bounds_at [] results k n {old} e = (old, e, omega arith)
dedupe-bounds_at (r ∷ rs) results k n {old} e =
    let (mid, f, h) = merge_hit-bounds_at r results k n e in
    let (new, g, h') = dedupe-bounds_at rs (merge_hit r results) k n f in (new, g, omega arith)
