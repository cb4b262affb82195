-- ===== src/Diff/Hunk/Spec.antt =====
-- What `parseGitDiffHunk` of `server/fileviewer/fileview.go` returns, on every branch.
use livegrep.Diff.{GitDiffLine, GitDiffHunkHeader, GitDiffHunk}
use livegrep.Diff.Header.{parse_git_diff_hunk_header}
use livegrep.Diff.Hunk.{
  HunkScanner, Scanned, scan_hunk, mark_line, header_line, start_buffer, make_hunk, Parsed,
  take_header, parse_body, parse_git_diff_hunk,
}
use livegrep.Diff.Hunk.Reads.{Reads, StopsAt}
use livegrep.Diff.Hunk.Sound.{Body, scan_hunk-Body}
use livegrep.Runtime.{ret, bind-eq-ret, ret-injective}
use mathlib.Core.Path.{subst₂}
use livegrep.Prelude.{
  ℕ, ◌≡◌, refl, ap, ◌∙◌, ◌⊎◌, inl, inr, some, List, [], ◌∷◌, ◌++◌, Option-cases, some-eq, Text,
}

-- `k` is the hunk that the header line `line` and the first of the lines `ts` make up, and the scanner
-- is then `hs`.
pub record IsHunk (line : Text) (ts : List Text) (k : GitDiffHunk) (hs : HunkScanner) : Type 0 where
  pub taken : List Text
  pub rest : List Text
  pub new : List GitDiffLine
  pub head : GitDiffLine
  pub parsed : parse_git_diff_hunk_header line ≡ some k.header
  pub split : ts ≡ taken ++ rest
  pub reads : Reads k.header.old_start_line k.header.new_start_line taken new
  pub stops : StopsAt rest hs
  pub head_kept : (head ≡ header_line line) ⊎ (head ≡ mark_line (header_line line))
  pub lines : k.lines ≡ head ∷ new

make_hunk-IsHunk :
    (c : ℕ) (s : Text) (ts : List Text) (h : GitDiffHunkHeader) (r : Scanned) {p : Parsed}
    {k : GitDiffHunk}
    → parse_git_diff_hunk_header (c ∷ s) ≡ some h
    → Body h.old_start_line h.new_start_line (header_line (c ∷ s)) [] ts r
    → record { hunk = some (make_hunk h r.buffer.hunk_lines); scanner = r.scanner } ≡ p
    → p.hunk ≡ some k
    → IsHunk (c ∷ s) ts k p.scanner
make_hunk-IsHunk c s ts h r {p} {k} eh o ep ek =
    let q : make_hunk h r.buffer.hunk_lines ≡ k = some-eq (ap (λ (p : Parsed). p.hunk) ep ∙ ek) in
    subst₂ (IsHunk (c ∷ s) ts) q (ap (λ (p : Parsed). p.scanner) ep) (record {
      taken = o.taken;
      rest = o.rest;
      new = o.new;
      head = o.head;
      parsed = eh;
      split = o.split;
      reads = o.reads;
      stops = o.stops;
      head_kept = o.head_kept;
      lines = o.lines;
    })

parse_body-IsHunk :
    (capacity : ℕ) (line : Text) (ts : List Text) {p : Parsed} {k : GitDiffHunk}
    → parse_body capacity line ts ≡ ret p
    → p.hunk ≡ some k
    → IsHunk line ts k p.scanner
parse_body-IsHunk capacity [] ts e ek = absurd (cc (ap (λ (p : Parsed). p.hunk) (ret-injective e)))
parse_body-IsHunk capacity (c ∷ s) ts {p} {k} e ek =
    elim (Option-cases (parse_git_diff_hunk_header (c ∷ s))) [
      | inl n ↦ absurd (cc (let e' = rw (n, parse_body) at e in e'))
      | inr (h, eh) ↦
          let (r, er, ep) =
            bind-eq-ret (scan_hunk capacity h.old_start_line h.new_start_line _ ts) _
              (rw (eh, parse_body) at e) in
          make_hunk-IsHunk c s ts h r eh
            (scan_hunk-Body capacity h.old_start_line h.new_start_line (start_buffer (c ∷ s))
              (header_line (c ∷ s)) [] ts refl er)
            (ret-injective ep) ek
    ]

-- Whatever hunk `parseGitDiffHunk` returns, it is the hunk of the header line and the lines behind
-- it, up to a line at which the scanner stops.
pub parse_git_diff_hunk-IsHunk :
    (capacity : ℕ) (hs : HunkScanner) {p : Parsed} {k : GitDiffHunk}
    → parse_git_diff_hunk capacity hs ≡ ret p
    → p.hunk ≡ some k
    → IsHunk (take_header hs).0 (take_header hs).1 k p.scanner
unfolding parse_git_diff_hunk
parse_git_diff_hunk-IsHunk capacity hs e ek = parse_body-IsHunk capacity _ _ e ek
