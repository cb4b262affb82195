-- ===== src/Diff/Hunk/Complete.antt =====
-- The loop of `parseGitDiffHunk` reads every body that the relation `Reads` describes.
use livegrep.Diff.{GitDiffLine}
use livegrep.Diff.Hunk.{
  HunkScanner, Buffer, mark_line, mark, append_line, added, deleted, context, Scanned, stop_unknown,
  scan_hunk,
}
use livegrep.Diff.Hunk.Reads.{
  Reads, done, marker, addition, deletion, unchanged, StopsAt, at_end, at_header, at_unknown,
  at_short_marker,
}
use livegrep.Diff.Hunk.Sound.{mark-eq}
use livegrep.Runtime.{ret}
use livegrep.Prelude.{
  ℕ, ◌≡◌, refl, ◌∙◌, ◌⊎◌, inl, List, [], ◌∷◌, ◌++◌, append-nil, append_assoc, arith, Text,
}

-- The loop returns, with a line `h` or its marked copy in front of the new lines.
abbrev pub Scans :
    (capacity before after : ℕ) (b : Buffer) (ts : List Text) (h : GitDiffLine)
    (body : List GitDiffLine) (hs : HunkScanner)
    → Type 0
Scans capacity before after b ts h body hs =
    (r : Scanned) × (scan_hunk capacity before after b ts ≡ ret r)
    × (head : GitDiffLine) × ((head ≡ h) ⊎ (head ≡ mark_line h))
    × (r.buffer.hunk_lines ≡ head ∷ body)
    × (r.scanner ≡ hs)

module _ (capacity : ℕ) where
  stop-Scans :
      (before after : ℕ) {rest : List Text} {hs : HunkScanner} (b : Buffer) (h : GitDiffLine)
      (tl : List GitDiffLine)
      → b.hunk_lines ≡ h ∷ tl
      → StopsAt rest hs
      → Scans capacity before after b rest h tl hs
  unfolding scan_hunk
  stop-Scans before after {hs = hs} b h tl eb at_end =
      (record { buffer = b; scanner = hs }, refl, h, inl refl, eb, refl)
  stop-Scans before after {hs = hs} b h tl eb (at_header x y) = (
    record { buffer = b; scanner = hs },
    rw (x, y, scan_hunk, stop_unknown),
    h,
    inl refl,
    eb,
    refl,
  )
  stop-Scans before after b h tl eb (at_unknown {line = []} x y ne) = absurd (ne refl)
  stop-Scans before after {hs = hs} b h tl eb (at_unknown {line = c ∷ s} x y ne) = (
    record { buffer = b; scanner = hs },
    rw (x, y, scan_hunk, stop_unknown),
    h,
    inl refl,
    eb,
    refl,
  )
  stop-Scans before after {hs = hs} b h tl eb (at_short_marker x y) =
      (record { buffer = b; scanner = hs }, rw (x, y, scan_hunk), h, inl refl, eb, refl)

  pub Reads-Scans :
      {before after : ℕ} {taken rest : List Text} {new : List GitDiffLine} {hs : HunkScanner}
      (b : Buffer) (h : GitDiffLine) (tl : List GitDiffLine)
      → b.hunk_lines ≡ h ∷ tl
      → Reads before after taken new
      → StopsAt rest hs
      → Scans capacity before after b (taken ++ rest) h (tl ++ new) hs
  unfolding scan_hunk
  Reads-Scans {before} {after} b h tl eb done s =
      rw append-nil (stop-Scans before after b h tl eb s)
  Reads-Scans {before} {after} b h tl eb (addition {line} x q) s =
      let (r, e, k, m, l, z) =
        Reads-Scans (append_line capacity b (added line after)) h (tl ++ added line after ∷ [])
          (rw eb) q s in
      (r, rw (x, scan_hunk) e, k, m, l ∙ rw append_assoc, z)
  Reads-Scans {before} {after} b h tl eb (deletion {line} x q) s =
      let (r, e, k, m, l, z) =
        Reads-Scans (append_line capacity b (deleted line before)) h
          (tl ++ deleted line before ∷ []) (rw eb) q s in
      (r, rw (x, scan_hunk) e, k, m, l ∙ rw append_assoc, z)
  Reads-Scans {before} {after} b h tl eb (unchanged {line} x q) s =
      let (r, e, k, m, l, z) =
        Reads-Scans (append_line capacity b (context line before after)) h
          (tl ++ context line before after ∷ []) (rw eb) q s in
      (r, rw (x, scan_hunk) e, k, m, l ∙ rw append_assoc, z)
  Reads-Scans {before} {after} b h tl eb (marker x y q) s =
      let (h', m', em) = mark-eq b h tl eb in
      let (r, e, k, m, l, z) = Reads-Scans (mark b) h' tl em q s in
      (r, rw (x, y, scan_hunk) e, k, ground arith, l, z)
