-- ===== src/Diff/Hunk/Laws.antt =====
-- Consequences for the hunks that `parseGitDiffHunk` of `server/fileviewer/fileview.go` returns, and
-- the inputs at which it panics or returns `nil`.
use livegrep.Diff.{hunk_line, modified_line, GitDiffLine, GitDiffHunkHeader, GitDiffHunk}
use livegrep.Diff.Header.{parse_git_diff_hunk_header}
use livegrep.Diff.Header.Range.{parse_git_diff_hunk_header-lt-word}
use livegrep.Diff.Hunk.{
  HunkScanner, Buffer, Scanned, get_diff_line_type, mark, append_line, added, deleted, context,
  scan_hunk, mark_line, header_line, start_buffer, make_hunk, Parsed, take_header, parse_body,
  parse_git_diff_hunk,
}
use livegrep.Diff.Hunk.Complete.{Reads-Scans}
use livegrep.Diff.Hunk.Numbering.{
  Numbered, Reads-Numbered, Reads-flag, map-text-Reads, without_markers,
}
use livegrep.Diff.Hunk.Reads.{Reads, StopsAt}
use livegrep.Diff.Hunk.Spec.{parse_git_diff_hunk-IsHunk}
use livegrep.GoText.Decimal.{increment}
use mathlib.Core.Path.{ap₂}
use livegrep.Prelude.{
  ℕ, ◌≡◌, refl, ap, ◌∙◌, ◌≢◌, ◌↔◌, ◌⊎◌, inl, inr, false, none, some, List, [], ◌∷◌, ◌++◌, arith,
  map, Option-cases, Text, get_elem?, take, drop, All,
}
use livegrep.Runtime.{Run, ret, panic, nil_dereference}

-- Each line behind the header of a returned hunk has the number in each file that the start of the
-- hunk and the lines of that file before it give, modulo 2 ^ 64, and 0 in a file to which it does
-- not belong.
pub parse_git_diff_hunk-Numbered :
    (capacity : ℕ) (hs : HunkScanner) {p : Parsed} {k : GitDiffHunk}
    → parse_git_diff_hunk capacity hs ≡ ret p
    → p.hunk ≡ some k
    → (i : ℕ) {l : GitDiffLine} → get_elem? (drop 1 k.lines) i ≡ some l
    → Numbered k.header.old_start_line k.header.new_start_line (take i (drop 1 k.lines)) l
parse_git_diff_hunk-Numbered capacity hs {k = k} e ek i {l} g =
    let o = parse_git_diff_hunk-IsHunk capacity hs e ek in
    let (b, a) = parse_git_diff_hunk_header-lt-word (take_header hs).0 o.parsed in
    rw o.lines (Reads-Numbered o.reads i b a (rw o.lines at g))

-- No line behind the header of a returned hunk has `NoTrailingNewline` set or an original line
-- number, whatever markers the input holds.
pub parse_git_diff_hunk-flag :
    (capacity : ℕ) (hs : HunkScanner) {p : Parsed} {k : GitDiffHunk}
    → parse_git_diff_hunk capacity hs ≡ ret p
    → p.hunk ≡ some k
    → All (λ l. (l.no_trailing_newline ≡ false) × (l.original_line_number ≡ 0)) (drop 1 k.lines)
parse_git_diff_hunk-flag capacity hs e ek =
    let o = parse_git_diff_hunk-IsHunk capacity hs e ek in rw o.lines (Reads-flag o.reads)

pub head-text :
    {line : Text} {head : GitDiffLine}
    → (head ≡ header_line line) ⊎ (head ≡ mark_line (header_line line))
    → head.text ≡ line
head-text h = ground arith

-- The texts of a returned hunk are its header line and the lines behind it without the markers, up
-- to a line at which the scanner stops.
pub parse_git_diff_hunk-texts :
    (capacity : ℕ) (hs : HunkScanner) {p : Parsed} {k : GitDiffHunk}
    → parse_git_diff_hunk capacity hs ≡ ret p
    → p.hunk ≡ some k
    → (taken : List Text) × (rest : List Text) × ((take_header hs).1 ≡ taken ++ rest)
      × StopsAt rest p.scanner
      × (map (λ l. l.text) k.lines ≡ (take_header hs).0 ∷ without_markers taken)
parse_git_diff_hunk-texts capacity hs e ek =
    let o = parse_git_diff_hunk-IsHunk capacity hs e ek in
    (
      o.taken,
      o.rest,
      o.split,
      o.stops,
      ap (map (λ l. l.text)) o.lines
          ∙ ap₂ (λ x xs. x ∷ xs) (head-text o.head_kept) (map-text-Reads o.reads),
    )

no_header : (h : GitDiffHunkHeader) → parse_git_diff_hunk_header [] ≢ some h
unfolding parse_git_diff_hunk_header
no_header h = cc

get_diff_line_type-cases :
    (line : Text)
    → (get_diff_line_type line ≢ hunk_line) × (get_diff_line_type line ≢ modified_line)
unfolding get_diff_line_type
get_diff_line_type-cases line = ground arith

-- The loop itself never dereferences nil.
scan_hunk-ne-panic :
    (capacity before after : ℕ) (b : Buffer) (ts : List Text)
    → scan_hunk capacity before after b ts ≢ panic nil_dereference
unfolding scan_hunk
scan_hunk-ne-panic capacity before after b [] = cc
scan_hunk-ne-panic capacity before after b (line ∷ ts) = ground (
  arith,
  get_diff_line_type-cases line,
  scan_hunk-ne-panic capacity before after (mark b) ts,
  scan_hunk-ne-panic capacity before (increment after) (append_line capacity b (added line after))
      ts,
  scan_hunk-ne-panic capacity (increment before) after
      (append_line capacity b (deleted line before)) ts,
  scan_hunk-ne-panic capacity (increment before) (increment after)
      (append_line capacity b (context line before after)) ts,
)

parse_body-nil_dereference :
    (capacity : ℕ) (line : Text) (ts : List Text)
    → (parse_body capacity line ts ≡ panic nil_dereference)
      ↔ ((line ≢ []) × (parse_git_diff_hunk_header line ≡ none))
parse_body-nil_dereference capacity [] ts = ground arith
parse_body-nil_dereference capacity (c ∷ s) ts =
    elim (Option-cases (parse_git_diff_hunk_header (c ∷ s))) [
      | inl n ↦ ground arith
      | inr (h, e) ↦ ground (
        arith,
        scan_hunk-ne-panic capacity h.old_start_line h.new_start_line (start_buffer (c ∷ s)) ts,
      )
    ]

-- The call dereferences a nil header exactly if the header line is there and is no hunk header.
pub parse_git_diff_hunk-nil_dereference :
    (capacity : ℕ) (hs : HunkScanner)
    → (parse_git_diff_hunk capacity hs ≡ panic nil_dereference)
      ↔ (((take_header hs).0 ≢ []) × (parse_git_diff_hunk_header (take_header hs).0 ≡ none))
unfolding parse_git_diff_hunk
parse_git_diff_hunk-nil_dereference capacity hs = parse_body-nil_dereference capacity _ _

abbrev parsed_as : GitDiffHunkHeader → List GitDiffLine → HunkScanner → Run Parsed
parsed_as h ls hs = ret (record { hunk = some (make_hunk h ls); scanner = hs })

parse_body_step :
    (capacity c : ℕ) (s : Text) (ts : List Text) (h : GitDiffHunkHeader) (sc : Scanned)
    → parse_git_diff_hunk_header (c ∷ s) ≡ some h
    → scan_hunk capacity h.old_start_line h.new_start_line (start_buffer (c ∷ s)) ts ≡ ret sc
    → parse_body capacity (c ∷ s) ts ≡ parsed_as h sc.buffer.hunk_lines sc.scanner
parse_body_step capacity c s ts h sc eh e = rw (eh, parse_body, e)

parse_body_complete :
    (capacity : ℕ) (line : Text) (ts : List Text) (hs' : HunkScanner) (h : GitDiffHunkHeader)
    (taken rest : List Text) (new : List GitDiffLine)
    → parse_git_diff_hunk_header line ≡ some h
    → ts ≡ taken ++ rest
    → Reads h.old_start_line h.new_start_line taken new
    → StopsAt rest hs'
    → (head : GitDiffLine) × ((head ≡ header_line line) ⊎ (head ≡ mark_line (header_line line)))
      × (parse_body capacity line ts
          ≡ ret (record { hunk = some (make_hunk h (head ∷ new)); scanner = hs' }))
parse_body_complete capacity [] ts hs' h taken rest new eh es r s = absurd (no_header h eh)
parse_body_complete capacity (c ∷ s') ts hs' h taken rest new eh es r s =
    let (sc, e, head, kept, l, z) =
      Reads-Scans capacity (start_buffer (c ∷ s')) (header_line (c ∷ s')) [] refl r s in
    (head, kept, rw es (parse_body_step capacity c s' _ h sc eh e ∙ ap₂ (parsed_as h) l z))

-- A header line that is a hunk header, a body that the relation describes, and a line that ends it
-- give a hunk: the call returns, and its lines behind the header are those of the relation.
pub parse_git_diff_hunk_complete :
    (capacity : ℕ) (hs hs' : HunkScanner) (h : GitDiffHunkHeader) (taken rest : List Text)
    (new : List GitDiffLine)
    → parse_git_diff_hunk_header (take_header hs).0 ≡ some h
    → (take_header hs).1 ≡ taken ++ rest
    → Reads h.old_start_line h.new_start_line taken new
    → StopsAt rest hs'
    → (head : GitDiffLine) × ((head ≡ header_line (take_header hs).0)
        ⊎ (head ≡ mark_line (header_line (take_header hs).0)))
      × (parse_git_diff_hunk capacity hs
          ≡ ret (record { hunk = some (make_hunk h (head ∷ new)); scanner = hs' }))
unfolding parse_git_diff_hunk
parse_git_diff_hunk_complete capacity hs hs' h taken rest new eh es r s =
    parse_body_complete capacity _ _ hs' h taken rest new eh es r s
