-- ===== src/Show/Patch/Diffs.antt =====
-- What the loop over the diffs of `GitShowCommit` keeps of the lines.
use livegrep.Backend.{is_empty_text}
use livegrep.GoText.Decimal.{increment}
use livegrep.GoText.Prefix.{has_prefix}
use livegrep.Prelude.{
  ℕ, ◌≡◌, refl, ap, ◌∙◌, ◌≢◌, inl, inr, true, false, some, List, [], ◌∷◌, ◌++◌, append-nil,
  append_assoc, if◌then◌else◌, Bool-cases, Text, codes,
}
use livegrep.Runtime.{panic, nil_dereference, Run, ret}
use livegrep.Show.Patch.{
  start_diff, PatchState, keep_line, new_diff, start_patch, patch_line, ShowDiff, ShowLine,
  read_patch,
}

-- the lines with which a diff begins, in order
abbrev pub headers : List Text → List Text
headers [] = []
headers (l ∷ ls) = if has_prefix l (codes "diff") then l ∷ headers ls else headers ls

-- the lines that begin neither a diff nor a chunk, in order
abbrev pub bodies : List Text → List Text
bodies [] = []
bodies (l ∷ ls) =
    if has_prefix l (codes "diff")
    then bodies ls
    else if has_prefix l (codes "@@")
    then bodies ls
    else l ∷ bodies ls

abbrev pub line_texts : List ShowLine → List Text
line_texts [] = []
line_texts (l ∷ ls) = l.line ∷ line_texts ls

-- the lines of a diff
abbrev pub texts_of : ShowDiff → List Text
texts_of d = d.header_lines ++ line_texts d.lines

abbrev pub all_headers : List ShowDiff → List Text
all_headers [] = []
all_headers (d ∷ ds) = d.header ∷ all_headers ds

abbrev pub all_texts : List ShowDiff → List Text
all_texts [] = []
all_texts (d ∷ ds) = texts_of d ++ all_texts ds

line_texts-append : (xs ys : List ShowLine) → line_texts (xs ++ ys) ≡ line_texts xs ++ line_texts ys
line_texts-append [] ys = refl
line_texts-append (x ∷ xs) ys = ap (λ r. x.line ∷ r) (line_texts-append xs ys)

all_headers-append :
    (xs ys : List ShowDiff) → all_headers (xs ++ ys) ≡ all_headers xs ++ all_headers ys
all_headers-append [] ys = refl
all_headers-append (x ∷ xs) ys = ap (λ r. x.header ∷ r) (all_headers-append xs ys)

all_texts-append : (xs ys : List ShowDiff) → all_texts (xs ++ ys) ≡ all_texts xs ++ all_texts ys
all_texts-append [] ys = refl
all_texts-append (x ∷ xs) ys = simp (all_texts-append xs ys, append_assoc)

-- A diff has lines only behind a line of a chunk.
abbrev HasOrder : ShowDiff → Type 0
HasOrder d = d.chunk_line ≡ [] → d.lines ≡ []

empty_text : (s : Text) → is_empty_text s ≡ true → s ≡ []
empty_text [] h = refl
empty_text (c ∷ s) h = cc

keep_line-HasOrder : (l : Text) (d : ShowDiff) → HasOrder d → HasOrder (keep_line l d)
keep_line-HasOrder l d h = elim (Bool-cases (is_empty_text d.chunk_line)) [
  | inl e ↦ rw e (λ f. h (empty_text d.chunk_line e))
  | inr e ↦ rw e (λ f. absurd (cc (let e' = rw f at e in e')))
]

keep_line-texts :
    (l : Text) (d : ShowDiff) → HasOrder d → texts_of (keep_line l d) ≡ texts_of d ++ (l ∷ [])
keep_line-texts l d h = elim (Bool-cases (is_empty_text d.chunk_line)) [
  | inl e ↦ rw (e, h (empty_text d.chunk_line e)) (simp (append_assoc, append-nil))
  | inr e ↦ rw e (simp (line_texts-append, append_assoc))
]

-- what is left to show of the lines to come
abbrev Reads : List ShowDiff → ShowDiff → List Text → Run (List ShowDiff) → Type 0
Reads ds d ls run =
    (out : List ShowDiff) × (run ≡ ret out)
    × (all_headers out ≡ all_headers ds ++ (d.header ∷ headers ls))
    × (all_texts out ≡ all_texts ds ++ (texts_of d ++ bodies ls))

abbrev reading : List ShowDiff → ShowDiff → ℕ → PatchState
reading ds d n = record { diffs = ds; current = some d; hunk_num = n }

patch_line-header :
    (l : Text) (st : PatchState)
    → has_prefix l (codes "diff") ≡ true
    → patch_line l st ≡ ret (start_diff l st)
unfolding patch_line
patch_line-header l st h = rw h

patch_line-chunk :
    (ds : List ShowDiff) (d : ShowDiff) (n : ℕ) (l : Text)
    → has_prefix l (codes "diff") ≡ false
    → has_prefix l (codes "@@") ≡ true
    → patch_line l (reading ds d n) ≡ ret (reading ds (record d { chunk_line = l }) n)
unfolding patch_line
patch_line-chunk ds d n l h k = rw (h, k)

patch_line-body :
    (ds : List ShowDiff) (d : ShowDiff) (n : ℕ) (l : Text)
    → has_prefix l (codes "diff") ≡ false
    → has_prefix l (codes "@@") ≡ false
    → patch_line l (reading ds d n) ≡ ret (reading ds (keep_line l d) n)
unfolding patch_line
patch_line-body ds d n l h k = rw (h, k)

chunk_line-ne-nil : (l : Text) → has_prefix l (codes "@@") ≡ true → l ≢ []
unfolding has_prefix
chunk_line-ne-nil [] h e = cc
chunk_line-ne-nil (c ∷ l) h e = cc

keep_line-header : (l : Text) (d : ShowDiff) → (keep_line l d).header ≡ d.header
keep_line-header l d = elim (Bool-cases (is_empty_text d.chunk_line)) [
  | inl e ↦ rw e
  | inr e ↦ rw e
]

read_patch_lem :
    (ds : List ShowDiff) (d : ShowDiff) (n : ℕ) (ls : List Text)
    → HasOrder d
    → Reads ds d ls (read_patch (reading ds d n) ls)
unfolding read_patch
read_patch_lem ds d n [] h =
    (ds ++ (d ∷ []), refl, all_headers-append ds (d ∷ []), all_texts-append ds (d ∷ []))
read_patch_lem ds d n (l ∷ ls) h = elim (Bool-cases (has_prefix l (codes "diff"))) [
  | inl a ↦
      let (out, e, f, g) =
        read_patch_lem (ds ++ (d ∷ [])) (new_diff l (increment n)) (increment n) ls (λ x. refl) in
      rw (patch_line-header l (reading ds d n) a, a)
        (
          out,
          e,
          f ∙ simp (all_headers-append ds (d ∷ []), append_assoc),
          g ∙ simp (all_texts-append ds (d ∷ []), append_assoc, append-nil),
        )
  | inr a ↦ elim (Bool-cases (has_prefix l (codes "@@"))) [
    | inl b ↦
        let (out, e, f, g) =
          read_patch_lem ds (record d { chunk_line = l }) n ls
            (λ x. absurd (chunk_line-ne-nil l b x)) in
        rw (patch_line-chunk ds d n l a b, a, b) (out, e, f, g)
    | inr b ↦
        let (out, e, f, g) = read_patch_lem ds (keep_line l d) n ls (keep_line-HasOrder l d h) in
        rw (patch_line-body ds d n l a b, a, b)
          (out, e, f ∙ simp (keep_line-header l d), g ∙ simp (keep_line-texts l d h, append_assoc))
  ]
]

no_diff :
    (l : Text)
    → has_prefix l (codes "diff") ≡ false
    → patch_line l start_patch ≡ panic nil_dereference
unfolding patch_line
no_diff l h = elim (Bool-cases (has_prefix l (codes "@@"))) [
  | inl b ↦ rw (h, b)
  | inr b ↦ rw (h, b)
]

-- Where the first line begins with `diff`, the loop over the diffs of `GitShowCommit` returns, the
-- headers of its diffs are the lines that begin with `diff`, and the other lines of the diffs are
-- the lines that begin with neither `diff` nor `@@`, each in order; where the first line does not
-- begin with `diff`, the loop dereferences a nil diff.
pub read_patch-lines :
    (l : Text) (ls : List Text)
    → (has_prefix l (codes "diff") ≡ true
        → (ds : List ShowDiff) × (read_patch start_patch (l ∷ ls) ≡ ret ds)
          × (all_headers ds ≡ headers (l ∷ ls))
          × (all_texts ds ≡ bodies (l ∷ ls)))
      × (has_prefix l (codes "diff") ≡ false
          → read_patch start_patch (l ∷ ls) ≡ panic nil_dereference)
unfolding read_patch
read_patch-lines l ls = (
  λ h.
      let (out, e, f, g) = read_patch_lem [] (new_diff l 0) 0 ls (λ x. refl) in
      rw (patch_line-header l start_patch h, h) (out, e, f, g),
  λ h. rw (no_diff l h),
)
