-- ===== src/Diff/Unified/RoundTrip.antt =====
-- `parseGitUnifiedDiff` reads every well-formed diff hunk by hunk.
use livegrep.Diff.{
  context_line, delete_line, add_line, no_trailing_newline_line, unknown_line, GitDiffHunk,
  GitDiffHunkHeader, GitDiffLine, GitDiffLineType,
}
use livegrep.Diff.Header.{match_diff_header, HeaderMatch, parse_git_diff_hunk_header, to_string}
use livegrep.Diff.Header.RoundTrip.{parse_git_diff_hunk_header-to_string, InRange}
use livegrep.Diff.Hunk.{
  context, make_hunk, deleted, parse_git_diff_hunk, take_header, added, HunkScanner,
  get_diff_line_type,
}
use livegrep.Diff.Hunk.Laws.{head-text, parse_git_diff_hunk_complete}
use livegrep.Diff.Hunk.Numbering.{map-text-Reads, without_markers}
use livegrep.Diff.Hunk.Reads.{
  unchanged, deletion, addition, marker, at_header, done, Reads, at_end, StopsAt,
}
use livegrep.Diff.Unified.{
  found, make_diff, is_binary_line, parse_git_diff_header, parse_git_unified_diff, parse_hunks,
}
use livegrep.GoText.Decimal.{increment}
use livegrep.GoText.Prefix.{has_prefix}
use livegrep.Prelude.{
  ℕ, zero, suc, ◌+◌, ◌≤◌, ◌<◌, ◌≡◌, refl, ap, ◌∙◌, ◌⊎◌, inl, inr, Bool, true, false, none, some,
  List, [], ◌∷◌, ◌++◌, append-nil, append_assoc, arith, map, ltb, bind-eq-some, Text, codes, length,
  length-append, All,
}
use livegrep.Runtime.{ret}
use mathlib.Core.Path.{ap₂}

-- A hunk as git writes it: a header with a section heading, and the lines of the body.
pub record SourceHunk : Type 0 where
  pub header : GitDiffHunkHeader
  pub heading : Text
  pub body : List Text

abbrev pub header_text : SourceHunk → Text
header_text s = to_string s.header ++ s.heading

abbrev pub render : List SourceHunk → List Text
render [] = []
render (s ∷ ss) = header_text s ∷ (s.body ++ render ss)

abbrev pub is_body_type : GitDiffLineType → Bool
is_body_type add_line = true
is_body_type delete_line = true
is_body_type context_line = true
is_body_type _ = false

-- A line of a body: added, deleted, unchanged, or a marker of full length.
abbrev pub IsBodyLine : Text → Type 0
IsBodyLine line =
    (is_body_type (get_diff_line_type line) ≡ true)
    ⊎ ((get_diff_line_type line ≡ no_trailing_newline_line) × (ltb (length line) 12 ≡ false))

pub record IsWellFormed (s : SourceHunk) : Type 0 where
  pub in_range : InRange s.header
  pub body_lines : All IsBodyLine s.body

-- Hunk by hunk, the header is that of the source, and the texts are its header line and the lines of
-- its body without the markers.
abbrev pub Matches : List SourceHunk → List GitDiffHunk → Type 0
Matches [] [] = Unit
Matches (s ∷ ss) (k ∷ ks) =
    (k.header ≡ s.header)
    × (map (λ l. l.text) k.lines ≡ header_text s ∷ without_markers s.body)
    × Matches ss ks
Matches _ _ = ⊥

Reads-of_body :
    (before after : ℕ) (ts : List Text)
    → All IsBodyLine ts
    → (new : List GitDiffLine) × Reads before after ts new
Reads-of_body before after [] h = ([], done)
Reads-of_body before after (line ∷ ts) (inr (x, y), h) =
    let (new, r) = Reads-of_body before after ts h in (new, marker x y r)
Reads-of_body before after (line ∷ ts) (inl x, h) =
    (elim (get_diff_line_type line)
        as (λ t.
          get_diff_line_type line ≡ t
          → is_body_type t ≡ true
          → (new : List GitDiffLine) × Reads before after (line ∷ ts) new) [
            | add_line ↦ λ e _.
                let (new, r) = Reads-of_body before (increment after) ts h in
                (added line after ∷ new, addition e r)
            | delete_line ↦ λ e _.
                let (new, r) = Reads-of_body (increment before) after ts h in
                (deleted line before ∷ new, deletion e r)
            | context_line ↦ λ e _.
                let (new, r) = Reads-of_body (increment before) (increment after) ts h in
                (context line before after ∷ new, unchanged e r)
            | _ ↦ λ _ f. cc f
          ])
      refl x

header_type : (s : SourceHunk) → get_diff_line_type (header_text s) ≡ unknown_line
unfolding get_diff_line_type to_string
header_type s = refl

header_parsed :
    (s : SourceHunk) → IsWellFormed s → parse_git_diff_hunk_header (header_text s) ≡ some s.header
header_parsed s w = parse_git_diff_hunk_header-to_string s.header s.heading w.in_range

match-of_parse :
    (line : Text) {h : GitDiffHunkHeader}
    → parse_git_diff_hunk_header line ≡ some h
    → (m : HeaderMatch) × (match_diff_header line ≡ some m)
unfolding parse_git_diff_hunk_header
match-of_parse line e = let (m, em, _) = bind-eq-some (match_diff_header line) _ e in (m, em)

header_match :
    (s : SourceHunk)
    → IsWellFormed s
    → (m : HeaderMatch) × (match_diff_header (header_text s) ≡ some m)
header_match s w = match-of_parse (header_text s) (header_parsed s w)

-- the scanner in front of the hunks `ss`, once the header of the first is read or stored
abbrev scanner_at : List SourceHunk → HunkScanner
scanner_at [] = record { input = []; next_hunk_header = none }
scanner_at (s ∷ ss) = record {
  input = s.body ++ render ss;
  next_hunk_header = some (header_text s);
}

StopsAt-render : (ss : List SourceHunk) → All IsWellFormed ss → StopsAt (render ss) (scanner_at ss)
StopsAt-render [] w = at_end
StopsAt-render (s ∷ ss) (w, ws) = let (m, e) = header_match s w in at_header (header_type s) e

-- Where a source hunk is next, it is read, and the scanner is then in front of the next one.
parse_git_diff_hunk-render :
    (capacity : ℕ) (hs : HunkScanner) (s : SourceHunk) (ss : List SourceHunk)
    → (take_header hs).0 ≡ header_text s
    → (take_header hs).1 ≡ s.body ++ render ss
    → All IsWellFormed (s ∷ ss)
    → (k : GitDiffHunk) × (parse_git_diff_hunk capacity hs
        ≡ ret (record { hunk = some k; scanner = scanner_at ss }))
      × (k.header ≡ s.header)
      × (map (λ l. l.text) k.lines ≡ header_text s ∷ without_markers s.body)
parse_git_diff_hunk-render capacity hs s ss eh et (w, ws) =
    let (new, r) =
      Reads-of_body s.header.old_start_line s.header.new_start_line s.body w.body_lines in
    let (head, kept, e) =
      parse_git_diff_hunk_complete capacity hs (scanner_at ss) s.header s.body (render ss) new
        (rw eh (header_parsed s w)) et r (StopsAt-render ss ws) in
    (
      make_hunk s.header (head ∷ new),
      e,
      refl,
      ap₂ (λ x xs. x ∷ xs) (head-text kept ∙ eh) (map-text-Reads r),
    )

parse_hunks-none :
    (capacity fuel : ℕ) (hunks : List GitDiffHunk)
    → parse_hunks capacity (suc fuel) (scanner_at []) hunks ≡ some (ret hunks)
unfolding parse_hunks parse_git_diff_hunk
parse_hunks-none capacity fuel hunks = refl

parse_hunks-some :
    (capacity fuel : ℕ) (hs hs' : HunkScanner) (k : GitDiffHunk) (hunks : List GitDiffHunk)
    → parse_git_diff_hunk capacity hs ≡ ret (record { hunk = some k; scanner = hs' })
    → parse_hunks capacity (suc fuel) hs hunks ≡ parse_hunks capacity fuel hs' (hunks ++ k ∷ [])
unfolding parse_hunks
parse_hunks-some capacity fuel hs hs' k hunks e = rw (e, parse_hunks)

-- The loop over the hunks reads all source hunks from a scanner in front of them.
parse_hunks-render :
    (capacity fuel : ℕ) (hs : HunkScanner) (ss : List SourceHunk) (hunks : List GitDiffHunk)
    → (hs ≡ scanner_at ss) ⊎ (hs ≡ record { input = render ss; next_hunk_header = none })
    → length ss < fuel
    → All IsWellFormed ss
    → (ks : List GitDiffHunk) × (parse_hunks capacity fuel hs hunks ≡ some (ret (hunks ++ ks)))
      × Matches ss ks
parse_hunks-render capacity zero hs ss hunks at h w = elim h [ ]
parse_hunks-render capacity (suc fuel) hs [] hunks at h w =
    ([], rw (at_nil at, append-nil) (parse_hunks-none capacity fuel hunks), tt)
  where
    at_nil :
        (hs ≡ scanner_at []) ⊎ (hs ≡ record { input = []; next_hunk_header = none })
        → hs ≡ scanner_at []
    at_nil (inl e) = e
    at_nil (inr e) = e
parse_hunks-render capacity (suc fuel) hs (s ∷ ss) hunks at h w =
    let (k, e, eh, et) =
      parse_git_diff_hunk-render capacity hs s ss (at_header_text at) (at_body at) w in
    let (ks, e', m) =
      parse_hunks-render capacity fuel (scanner_at ss) ss (hunks ++ k ∷ []) (inl refl) (omega arith)
        w.1 in
    (
      k ∷ ks,
      parse_hunks-some capacity fuel hs (scanner_at ss) k hunks e ∙ e' ∙ rw append_assoc,
      (eh, et, m),
    )
  where
    at_header_text :
        (hs ≡ scanner_at (s ∷ ss))
          ⊎ (hs ≡ record { input = render (s ∷ ss); next_hunk_header = none })
        → (take_header hs).0 ≡ header_text s
    at_header_text (inl e) = ap (λ hs. (take_header hs).0) e
    at_header_text (inr e) = ap (λ hs. (take_header hs).0) e

    at_body :
        (hs ≡ scanner_at (s ∷ ss))
          ⊎ (hs ≡ record { input = render (s ∷ ss); next_hunk_header = none })
        → (take_header hs).1 ≡ s.body ++ render ss
    at_body (inl e) = ap (λ hs. (take_header hs).1) e
    at_body (inr e) = ap (λ hs. (take_header hs).1) e

length-render : (ss : List SourceHunk) → length ss ≤ length (render ss)
length-render [] = omega arith
length-render (s ∷ ss) = omega (arith, length-render ss, length-append s.body (render ss))

-- The lines in front of the hunks end in one that begins with `+++`, and none of them says that the
-- files are binary.
abbrev pub IsPreamble : List Text → Type 0
IsPreamble = All (λ line. (is_binary_line line ≡ false) × (has_prefix line (codes "+++") ≡ false))

parse_git_diff_header-preamble :
    (failed : Bool) (pre rest : List Text) (plus : Text)
    → IsPreamble pre
    → is_binary_line plus ≡ false
    → has_prefix plus (codes "+++") ≡ true
    → parse_git_diff_header failed (pre ++ (plus ∷ rest))
      ≡ (found (record { is_binary = false }), rest)
unfolding parse_git_diff_header
parse_git_diff_header-preamble failed [] rest plus w nb p = rw (nb, p)
parse_git_diff_header-preamble failed (x ∷ pre) rest plus ((nx, px), w) nb p =
    rw (nx, px) (parse_git_diff_header-preamble failed pre rest plus w nb p)

-- A diff made of a preamble without binary and `+++` lines, a line that begins with `+++`, and
-- well-formed hunks is read completely: `parseGitUnifiedDiff` returns one hunk for each source
-- hunk, in order, with its header and the texts of its lines less the markers.
pub parse_git_unified_diff-render :
    (capacity : ℕ) (failed : Bool) (pre : List Text) (plus : Text) (ss : List SourceHunk)
    → IsPreamble pre
    → is_binary_line plus ≡ false
    → has_prefix plus (codes "+++") ≡ true
    → All IsWellFormed ss
    → (ks : List GitDiffHunk) × (parse_git_unified_diff capacity
          (record { tokens = pre ++ (plus ∷ render ss); failed = failed })
        ≡ some (ret (some (make_diff false ks))))
      × Matches ss ks
unfolding parse_git_unified_diff
parse_git_unified_diff-render capacity failed pre plus ss w nb p ws =
    let (ks, e, m) =
      parse_hunks-render capacity (length (render ss) + 1)
        (record { input = render ss; next_hunk_header = none }) ss [] (inr refl)
        (omega (arith, length-render ss)) ws in
    (ks, rw (parse_git_diff_header-preamble failed pre (render ss) plus w nb p, e), m)
