-- ===== src/Diff/Hunk/Sound.antt =====
-- The loop of `parseGitDiffHunk` returns only what the relation `Reads` allows.
use livegrep.Diff.{
  add_line, delete_line, context_line, no_trailing_newline_line, unknown_line, hunk_line,
  modified_line, GitDiffLine,
}
use livegrep.Diff.Header.{match_diff_header}
use livegrep.Diff.Hunk.{
  get_diff_line_type, HunkScanner, Buffer, mark_line, mark, append_line, added, deleted, context,
  Scanned, stop_unknown, scan_hunk,
}
use livegrep.Diff.Hunk.Reads.{
  Reads, done, marker, addition, deletion, unchanged, StopsAt, at_end, at_header, at_unknown,
  at_short_marker,
}
use livegrep.GoText.Decimal.{increment}
use livegrep.Runtime.{Run, ret, ret-injective}
use mathlib.Core.List.{cons-ne-nil}
use mathlib.Core.Path.{subst}
use livegrep.Prelude.{
  ℕ, ◌≡◌, refl, ◌∙◌, ◌⊎◌, inl, inr, none, some, List, [], ◌∷◌, ◌++◌, append-nil, append_assoc,
  arith, ltb, Bool-cases, Text, length,
}

-- From the header `h` and the body `tl` in the buffer, the loop read `taken` and stopped at `rest`.
pub record Body (before after : ℕ) (h : GitDiffLine) (tl : List GitDiffLine) (ts : List Text)
    (r : Scanned) : Type 0 where
  pub taken : List Text
  pub rest : List Text
  pub new : List GitDiffLine
  pub head : GitDiffLine
  pub split : ts ≡ taken ++ rest
  pub reads : Reads before after taken new
  pub stops : StopsAt rest r.scanner
  pub head_kept : (head ≡ h) ⊎ (head ≡ mark_line h)
  pub lines : r.buffer.hunk_lines ≡ head ∷ (tl ++ new)

stop-Body :
    (before after : ℕ) (b : Buffer) (h : GitDiffLine) (tl : List GitDiffLine) (rest : List Text)
    (hs : HunkScanner) {r : Scanned}
    → b.hunk_lines ≡ h ∷ tl
    → StopsAt rest hs
    → ◌≡◌ {A = Run Scanned} (ret (record { buffer = b; scanner = hs })) (ret r)
    → Body before after h tl rest r
stop-Body before after b h tl rest hs eb s e =
    subst (λ r. Body before after h tl rest r) (ret-injective e)
      (record {
        taken = [];
        rest = rest;
        new = [];
        head = h;
        split = refl;
        reads = done;
        stops = s;
        head_kept = inl refl;
        lines = rw append-nil eb;
      })

-- one line is read, its lines of the hunk are `n`, and then comes the rest of the loop
step-Body :
    {before after before' after' : ℕ} {h h' : GitDiffLine} {tl : List GitDiffLine} {ts : List Text}
    {r : Scanned} (line : Text) (n : List GitDiffLine)
    → ((taken : List Text) (new : List GitDiffLine)
        → Reads before' after' taken new
        → Reads before after (line ∷ taken) (n ++ new))
    → (h' ≡ h) ⊎ (h' ≡ mark_line h)
    → Body before' after' h' (tl ++ n) ts r
    → Body before after h tl (line ∷ ts) r
step-Body {h} {h'} line n f k o = record {
  taken = line ∷ o.taken;
  rest = o.rest;
  new = n ++ o.new;
  head = o.head;
  split = rw o.split;
  reads = f o.taken o.new o.reads;
  stops = o.stops;
  head_kept = ground arith;
  lines = o.lines ∙ rw append_assoc;
}

-- A marker changes at most the flag of the first line.
pub mark-eq :
    (b : Buffer) (h : GitDiffLine) (tl : List GitDiffLine)
    → b.hunk_lines ≡ h ∷ tl
    → (h' : GitDiffLine) × ((h' ≡ h) ⊎ (h' ≡ mark_line h)) × ((mark b).hunk_lines ≡ h' ∷ tl)
mark-eq b h tl eb = elim (Bool-cases b.shared) [
  | inl s ↦ (mark_line h, inr refl, rw (s, eb))
  | inr s ↦ (h, inl refl, rw (s, eb))
]

unknown-Body :
    (before after : ℕ) (b : Buffer) (h : GitDiffLine) (tl : List GitDiffLine) (line : Text)
    (ts : List Text) {r : Scanned}
    → b.hunk_lines ≡ h ∷ tl
    → get_diff_line_type line ≡ unknown_line
    → stop_unknown b line ts ≡ ret r
    → Body before after h tl (line ∷ ts) r
unknown-Body before after b h tl [] ts {r} eb x e =
    (elim (match_diff_header [])
        as (λ m. match_diff_header [] ≡ m → Body before after h tl ([] ∷ ts) r) [
          | some m ↦
              λ y. stop-Body before after b h tl _ _ eb (at_header x y) (rw (y, stop_unknown) at e)
          | none ↦ λ y. cc (let e' = rw (y, stop_unknown) at e in e')
        ])
      refl
unknown-Body before after b h tl (c ∷ s) ts {r} eb x e =
    (elim (match_diff_header (c ∷ s))
        as (λ m. match_diff_header (c ∷ s) ≡ m → Body before after h tl ((c ∷ s) ∷ ts) r) [
          | some m ↦
              λ y. stop-Body before after b h tl _ _ eb (at_header x y) (rw (y, stop_unknown) at e)
          | none ↦ λ y.
              stop-Body before after b h tl _ _ eb (at_unknown x y (cons-ne-nil c s))
                (rw (y, stop_unknown) at e)
        ])
      refl

pub scan_hunk-Body :
    (capacity before after : ℕ) (b : Buffer) (h : GitDiffLine) (tl : List GitDiffLine)
    (ts : List Text) {r : Scanned}
    → b.hunk_lines ≡ h ∷ tl
    → scan_hunk capacity before after b ts ≡ ret r
    → Body before after h tl ts r
unfolding scan_hunk
scan_hunk-Body capacity before after b h tl [] eb e = stop-Body before after b h tl [] _ eb at_end e
scan_hunk-Body capacity before after b h tl (line ∷ ts) {r} eb e =
    (elim (get_diff_line_type line)
        as (λ t. get_diff_line_type line ≡ t → Body before after h tl (line ∷ ts) r) [
          | add_line ↦ λ x.
              step-Body line (added line after ∷ []) (λ _ _ q. addition x q) (inl refl)
                (scan_hunk-Body capacity before (increment after)
                  (append_line capacity b (added line after)) h (tl ++ added line after ∷ []) ts
                  (rw eb) (rw (x, scan_hunk) at e))
          | delete_line ↦ λ x.
              step-Body line (deleted line before ∷ []) (λ _ _ q. deletion x q) (inl refl)
                (scan_hunk-Body capacity (increment before) after
                  (append_line capacity b (deleted line before)) h (tl ++ deleted line before ∷ [])
                  ts (rw eb) (rw (x, scan_hunk) at e))
          | context_line ↦ λ x.
              step-Body line (context line before after ∷ []) (λ _ _ q. unchanged x q) (inl refl)
                (scan_hunk-Body capacity (increment before) (increment after)
                  (append_line capacity b (context line before after)) h
                  (tl ++ context line before after ∷ []) ts (rw eb) (rw (x, scan_hunk) at e))
          | unknown_line ↦
              λ x. unknown-Body before after b h tl line ts eb x (rw (x, scan_hunk) at e)
          | no_trailing_newline_line ↦ λ x. elim (Bool-cases (ltb (length line) 12)) [
            | inl y ↦
                stop-Body before after b h tl (line ∷ ts) _ eb (at_short_marker x y)
                  (rw (x, y, scan_hunk) at e)
            | inr y ↦
                let (h', k, em) = mark-eq b h tl eb in
                step-Body line [] (λ _ _ q. marker x y q) k
                  (scan_hunk-Body capacity before after (mark b) h' (tl ++ []) ts (rw append-nil em)
                    (rw (x, y, scan_hunk) at e))
          ]
          | hunk_line ↦ λ x. cc (let e' = rw (x, scan_hunk) at e in e')
          | modified_line ↦ λ x. cc (let e' = rw (x, scan_hunk) at e in e')
        ])
      refl
