-- ===== src/Diff/Rows/Split.antt =====
-- `GetDiffRowsSplit` shows every line of both files once, in order.
use livegrep.Diff.{
  modified_line, unknown_line, no_trailing_newline_line, delete_line, add_line, hunk_line,
  context_line, GitDiff, GitDiffHunk, GitDiffLineType, GitDiffLine,
}
use livegrep.Diff.Rows.{
  hunk_row, get_diff_rows_from_hunk, get_diff_rows_split, rows_of_hunks, context_row, flush,
  line_rows, is_delete, is_add, IDiffRow, rows_loop,
}
use livegrep.Diff.Rows.Sides.{
  line_side, ShowsLines, rows_side-append, tail_text-ne-nil, get_modified_diff_rows-ShowsLines,
  HasPrefixByte, rows_side, IsChange, lines_side,
}
use livegrep.Prelude.{
  arith, ℕ, ◌+◌, ◌≡◌, refl, ◌∙◌, inl, inr, Bool, true, false, ◌||◌, List, [], ◌∷◌, ◌++◌, append-nil,
  append_assoc, Bool-cases, drop, All, All-append,
}
use livegrep.Runtime.{ret, Run}

lines_side-append :
    (old : Bool) (xs ys : List GitDiffLine)
    → lines_side old (xs ++ ys) ≡ lines_side old xs ++ lines_side old ys
lines_side-append old [] ys = refl
lines_side-append old (x ∷ xs) ys = simp (lines_side-append old xs, append_assoc)

-- `m` returns the rows `rows` and more, and the sides of the others are those of the lines.
abbrev Extends : Run (List IDiffRow) → List IDiffRow → List GitDiffLine → Type 0
Extends m rows ls =
    (rs : List IDiffRow) × (m ≡ ret rs)
    × (rows_side true rs ≡ rows_side true rows ++ lines_side true ls)
    × (rows_side false rs ≡ rows_side false rows ++ lines_side false ls)

flush-Extends :
    (rows : List IDiffRow) (ms : List GitDiffLine)
    → All IsChange ms
    → All HasPrefixByte ms
    → Extends (flush rows ms) rows ms
flush-Extends rows [] c h = (rows, refl, rw append-nil, rw append-nil)
flush-Extends rows (m ∷ ms) c h =
    let (more, e, o, n) = get_modified_diff_rows-ShowsLines (m ∷ ms) c h in
    (rows ++ more, rw e, rw (rows_side-append, o), rw (rows_side-append, n))

-- A line that is neither added nor deleted stands on the sides it belongs to.
line_rows-Extends :
    (index : ℕ) (rows : List IDiffRow) (l : GitDiffLine)
    → (is_add l.type || is_delete l.type) ≡ false
    → HasPrefixByte l
    → Extends (line_rows index rows l.type l) rows (l ∷ [])
line_rows-Extends index rows l k h = of_type l.type refl k
  where
    of_type :
        (t : GitDiffLineType)
        → l.type ≡ t
        → (is_add t || is_delete t) ≡ false
        → Extends (line_rows index rows t l) rows (l ∷ [])
    of_type context_line e k = (
      rows ++ context_row l (drop 1 l.text) ∷ [],
      rw (tail_text-ne-nil l.text h),
      rw (rows_side-append, e),
      rw (rows_side-append, e),
    )
    of_type hunk_line e k = (
      rows ++ hunk_row l index ∷ [],
      refl,
      rw rows_side-append (ground arith),
      rw rows_side-append (ground arith),
    )
    of_type add_line e k = cc
    of_type delete_line e k = cc
    of_type no_trailing_newline_line e k = (
      rows,
      refl,
      ground (arith, append-nil (rows_side true rows)),
      ground (arith, append-nil (rows_side false rows)),
    )
    of_type unknown_line e k = (
      rows,
      refl,
      ground (arith, append-nil (rows_side true rows)),
      ground (arith, append-nil (rows_side false rows)),
    )
    of_type modified_line e k = (
      rows,
      refl,
      ground (arith, append-nil (rows_side true rows)),
      ground (arith, append-nil (rows_side false rows)),
    )

-- Flushed lines, one more line, and the rest of the loop.
sides-step :
    (old : Bool) (rows flushed extended : List IDiffRow) (ms : List GitDiffLine) (l : GitDiffLine)
    (ls : List GitDiffLine)
    → rows_side old flushed ≡ rows_side old rows ++ lines_side old ms
    → rows_side old extended ≡ rows_side old flushed ++ (line_side old l ++ [])
    → rows_side old extended ++ lines_side old ls
      ≡ rows_side old rows ++ lines_side old (ms ++ l ∷ ls)
sides-step old rows flushed extended ms l ls f e =
    rw (e, f, lines_side-append) (simp (append-nil, append_assoc))

rows_loop-Extends :
    (index : ℕ) (rows : List IDiffRow) (ms ls : List GitDiffLine)
    → All IsChange ms
    → All HasPrefixByte ms
    → All HasPrefixByte ls
    → Extends (rows_loop index rows ms ls) rows (ms ++ ls)
unfolding rows_loop
rows_loop-Extends index rows ms [] c h hl = rw append-nil (flush-Extends rows ms c h)
rows_loop-Extends index rows ms (l ∷ ls) c h (p, hl) =
    elim (Bool-cases (is_add l.type || is_delete l.type)) [
      | inl k ↦
          let (rs, e, o, n) =
            rows_loop-Extends index rows (ms ++ l ∷ []) ls
              (All-append IsChange ms (l ∷ []) c (k, tt))
              (All-append HasPrefixByte ms (l ∷ []) h (p, tt)) hl in
          (rs, rw (k, rows_loop) e, o ∙ rw append_assoc, n ∙ rw append_assoc)
      | inr k ↦
          let (fs, ef, fo, fn) = flush-Extends rows ms c h in
          let (es, ee, eo, en) = line_rows-Extends index fs l k p in
          let (rs, e, o, n) = rows_loop-Extends index es [] ls tt tt hl in
          (
            rs,
            rw (k, rows_loop, ef, ee) e,
            o ∙ sides-step true rows fs es ms l ls fo eo,
            n ∙ sides-step false rows fs es ms l ls fn en,
          )
    ]

-- The rows of one hunk: the call returns if every line has its prefix byte, and then each side of the
-- rows lists the lines of that file in the hunk, in order, with their texts and numbers.
pub get_diff_rows_from_hunk-ShowsLines :
    (hunk : GitDiffHunk) (index : ℕ)
    → All HasPrefixByte hunk.lines
    → ShowsLines
        (get_diff_rows_from_hunk hunk index)
        (lines_side true hunk.lines)
        (lines_side false hunk.lines)
unfolding get_diff_rows_from_hunk
get_diff_rows_from_hunk-ShowsLines hunk index h = rows_loop-Extends index [] [] hunk.lines tt tt h

abbrev pub all_lines : List GitDiffHunk → List GitDiffLine
all_lines [] = []
all_lines (k ∷ ks) = k.lines ++ all_lines ks

rows_of_hunks-Extends :
    (i : ℕ) (rows : List IDiffRow) (ks : List GitDiffHunk)
    → All (λ k. All HasPrefixByte k.lines) ks
    → Extends (rows_of_hunks i rows ks) rows (all_lines ks)
unfolding rows_of_hunks
rows_of_hunks-Extends i rows [] h = (rows, refl, rw append-nil, rw append-nil)
rows_of_hunks-Extends i rows (k ∷ ks) (hk, h) =
    let (more, em, om, nm) = get_diff_rows_from_hunk-ShowsLines k i hk in
    let (rs, e, o, n) = rows_of_hunks-Extends (i + 1) (rows ++ more) ks h in
    (
      rs,
      rw em e,
      o ∙ rw (rows_side-append, om, lines_side-append, append_assoc),
      n ∙ rw (rows_side-append, nm, lines_side-append, append_assoc),
    )

-- The rows of a diff: the call returns if every line has its prefix byte, and then each side of the
-- rows lists the lines of that file in all hunks, in order, with their texts and numbers.
pub get_diff_rows_split-ShowsLines :
    (gd : GitDiff)
    → All (λ k. All HasPrefixByte k.lines) gd.hunks
    → ShowsLines
        (get_diff_rows_split gd)
        (lines_side true (all_lines gd.hunks))
        (lines_side false (all_lines gd.hunks))
unfolding get_diff_rows_split
get_diff_rows_split-ShowsLines gd h = rows_of_hunks-Extends 0 [] gd.hunks h
