-- ===== src/Templates/CodeLine/Cover.antt =====
-- `renderCodeLine` splits a line without losing or repeating a character.
use livegrep.GoText.Decimal.{int_lt, half_word}
use livegrep.Prelude.{
  ℕ, zero, suc, ◌+◌, ◌-◌, ◌≤◌, ◌<◌, ◌≡◌, refl, sym, ap, ◌∙◌, inl, inr, true, false, List, [], ◌∷◌,
  ◌++◌, append-nil, append_assoc, arith, map, ltb, if◌then◌else◌, Bool-cases, Text, length, take,
  drop, take-append-drop, length-drop, take_all, All,
}
use livegrep.Runtime.{bind-eq-ret, Run, ret}
use livegrep.Templates.CodeLine.{
  match_part, render_code_line, render_loop, plain_part, gap_parts, suffix_parts, CodePart, slice,
}
use native.Mathlib.Numerals.{unary_clauses}

-- From `curr_idx` on, the bounds follow one another and lie in the line.
abbrev pub Ordered : Text → ℕ → List (ℕ × ℕ) → Type 0
Ordered line curr_idx [] = curr_idx ≤ length line
Ordered line curr_idx ((left, right) ∷ bs) =
    (curr_idx ≤ left) × (left ≤ right) × (right ≤ length line) × Ordered line right bs

abbrev pub text_of : List CodePart → Text
text_of [] = []
text_of (p ∷ ps) = p.line ++ text_of ps

abbrev pub matches_of : List CodePart → List Text
matches_of [] = []
matches_of (p ∷ ps) = if p.is_match then p.line ∷ matches_of ps else matches_of ps

abbrev pub cut : Text → ℕ × ℕ → Text
cut line (left, right) = take (right - left) (drop left line)

slice-in :
    (line : Text) (left right : ℕ)
    → left ≤ right
    → right ≤ length line
    → slice line left right ≡ ret (cut line (left, right))
unfolding slice
slice-in line left right h k = ground arith

drop-drop : (m n : ℕ) (xs : Text) → drop m (drop n xs) ≡ drop (n + m) xs
drop-drop m zero xs = ap (λ k. drop k xs) (omega arith)
drop-drop zero (suc n) [] = simp unary_clauses refl
drop-drop (suc m) (suc n) [] = simp unary_clauses refl
drop-drop m (suc n) (x ∷ xs) =
    let e : suc (n + m) ≡ suc n + m = omega arith in drop-drop m n xs ∙ ap (λ k. drop k (x ∷ xs)) e

cut-drop :
    (line : Text) (left right : ℕ)
    → left ≤ right
    → cut line (left, right) ++ drop right line ≡ drop left line
cut-drop line left right h =
    ap (λ s. cut line (left, right) ++ s)
      (ap (λ n. drop n line) (omega arith) ∙ sym (drop-drop (right - left) left line))
    ∙ take-append-drop (right - left) (drop left line)

cut_end : (line : Text) (left : ℕ) → cut line (left, length line) ≡ drop left line
cut_end line left =
    take_all (length line - left) (drop left line) (omega (arith, length-drop left line))

-- `m` returns parts that make up `rest` and whose matches are `found`.
abbrev pub Renders : Run (List CodePart) → Text → List Text → Type 0
Renders m rest found =
    (ps : List CodePart) × (m ≡ ret ps) × (text_of ps ≡ rest) × (matches_of ps ≡ found)

gap_parts-Renders :
    (line : Text) (curr_idx left : ℕ)
    → curr_idx ≤ left
    → left ≤ length line
    → length line < half_word
    → Renders (gap_parts line curr_idx left) (cut line (curr_idx, left)) []
gap_parts-Renders line curr_idx left h k b = elim (Bool-cases (ltb curr_idx left)) [
  | inl x ↦
      let e : int_lt curr_idx left ≡ true = ground arith in
      (
        plain_part (cut line (curr_idx, left)) ∷ [],
        rw (e, slice-in line curr_idx left h k),
        append-nil _,
        refl,
      )
  | inr x ↦
      let e : int_lt curr_idx left ≡ false = ground arith in
      let d : left - curr_idx ≡ 0 = ground arith in ([], rw e, rw d, refl)
]

suffix_parts-Renders :
    (line : Text) (curr_idx : ℕ)
    → curr_idx ≤ length line
    → length line < half_word
    → Renders (suffix_parts line curr_idx []) (drop curr_idx line) []
suffix_parts-Renders line curr_idx h b =
    let e : int_lt (length line) curr_idx ≡ false = ground arith in
    (
      plain_part (cut line (curr_idx, length line)) ∷ [],
      rw (e, slice-in line curr_idx (length line) h (omega arith)),
      append-nil _ ∙ cut_end line curr_idx,
      refl,
    )

text_of-append : (ps qs : List CodePart) → text_of (ps ++ qs) ≡ text_of ps ++ text_of qs
text_of-append [] qs = refl
text_of-append (p ∷ ps) qs = simp (text_of-append ps qs, append_assoc)

matches_of-append : (ps qs : List CodePart) → matches_of (ps ++ qs) ≡ matches_of ps ++ matches_of qs
matches_of-append [] qs = refl
matches_of-append (p ∷ ps) qs = ground (arith, matches_of-append ps qs)

step-Renders :
    (line : Text) (curr_idx left right : ℕ) (bs : List (ℕ × ℕ)) {rest rest' : Text}
    {found : List Text}
    → curr_idx ≤ left
    → left ≤ right
    → right ≤ length line
    → length line < half_word
    → Renders (suffix_parts line right bs) rest []
    → Renders (render_loop line right bs) rest' found
    → rest ++ rest' ≡ drop right line
    → Renders
        (render_loop line curr_idx ((left, right) ∷ bs))
        (drop curr_idx line)
        (cut line (left, right) ∷ found)
unfolding render_loop
step-Renders line curr_idx left right bs h k l b (s, es, ts, fs) (m, em, tm, fm) er =
    let (g, eg, tg, fg) = gap_parts-Renders line curr_idx left h (omega arith) b in
    (
      g ++ (match_part (cut line (left, right)) ∷ (s ++ m)),
      rw (eg, slice-in line left right k l, es, em),
      rw (text_of-append, tg, text_of-append, ts, tm, er, cut-drop line left right k)
          (cut-drop line curr_idx left h),
      rw (matches_of-append, fg, matches_of-append, fs, fm),
    )

render_loop-Renders :
    (line : Text) (curr_idx : ℕ) (b : ℕ × ℕ) (bs : List (ℕ × ℕ))
    → length line < half_word
    → Ordered line curr_idx (b ∷ bs)
    → Renders (render_loop line curr_idx (b ∷ bs)) (drop curr_idx line) (map (cut line) (b ∷ bs))
unfolding render_loop
render_loop-Renders line curr_idx (left, right) [] w (h, k, l, o) =
    step-Renders line curr_idx left right [] h k l w (suffix_parts-Renders line right l w)
      ([], refl, refl, refl) (append-nil _)
render_loop-Renders line curr_idx (left, right) (b ∷ bs) w (h, k, l, o) =
    step-Renders line curr_idx left right (b ∷ bs) h k l w ([], refl, refl, refl)
      (render_loop-Renders line right b bs w o) refl

-- For a line shorter than 2 ^ 63 bytes and at least one pair of bounds, where the bounds follow one
-- another within the line, `renderCodeLine` returns parts whose texts make up the line and whose
-- matches are exactly the bounded pieces, in order.
pub render_code_line-Renders :
    (line : Text) (b : ℕ × ℕ) (bs : List (ℕ × ℕ))
    → length line < half_word
    → Ordered line 0 (b ∷ bs)
    → Renders (render_code_line line (b ∷ bs)) line (map (cut line) (b ∷ bs))
unfolding render_code_line
render_code_line-Renders line b bs w o = render_loop-Renders line 0 b bs w o

slice_ret :
    (line : Text) (left right : ℕ) {s : Text}
    → slice line left right ≡ ret s
    → (left ≤ right) × (right ≤ length line)
unfolding slice
slice_ret line left right e = ground arith

render_loop-in_line :
    (line : Text) (curr_idx : ℕ) (bounds : List (ℕ × ℕ)) {ps : List CodePart}
    → render_loop line curr_idx bounds ≡ ret ps
    → All (λ b. (b.0 ≤ b.1) × (b.1 ≤ length line)) bounds
unfolding render_loop
render_loop-in_line line curr_idx [] e = tt
render_loop-in_line line curr_idx ((left, right) ∷ bs) e =
    let (g, eg, e1) = bind-eq-ret (gap_parts line curr_idx left) _ e in
    let (f, ef, e2) = bind-eq-ret (slice line left right) _ e1 in
    let (s, es, e3) = bind-eq-ret (suffix_parts line right bs) _ e2 in
    let (m, em, e4) = bind-eq-ret (render_loop line right bs) _ e3 in
    (slice_ret line left right ef, render_loop-in_line line right bs em)

-- Where `renderCodeLine` returns, all its bounds lie in the line, each left bound at most its right
-- one.
pub render_code_line-in_line :
    (line : Text) (bounds : List (ℕ × ℕ)) {ps : List CodePart}
    → render_code_line line bounds ≡ ret ps
    → All (λ b. (b.0 ≤ b.1) × (b.1 ≤ length line)) bounds
unfolding render_code_line
render_code_line-in_line line bounds e = render_loop-in_line line 0 bounds e
