-- ===== src/Show/Progress.antt =====
-- The scanner of `git show` gets on.
use livegrep.GoText.Split.{cut_at-append, cut_at-length, Lacks, cut_at}
use livegrep.Prelude.{
  ℕ, zero, suc, ◌+◌, ◌≤◌, ◌<◌, ◌≡◌, refl, ap, ◌∙◌, inl, inr, Bool, true, some, List, [], ◌∷◌, ◌++◌,
  arith, map, Option-cases, Text, length, drop, All,
}
use livegrep.Show.{SplitResult, push_token, drop_cr, scan_entries, scan_git_show_entry}
use mathlib.Core.Path.{ap₂}

-- On data that is not empty `ScanGitShowEntry` never advances past the data, and at the end of the
-- input it advances and gives a token.
pub scan_git_show_entry_progress :
    (c : ℕ) (s : Text) (at_eof : Bool)
    → ((scan_git_show_entry (c ∷ s) at_eof).advance ≤ length (c ∷ s))
      × (at_eof ≡ true
          → (t : Text) × ((scan_git_show_entry (c ∷ s) at_eof).token ≡ some t)
            × (0 < (scan_git_show_entry (c ∷ s) at_eof).advance))
unfolding scan_git_show_entry
scan_git_show_entry_progress c s at_eof = elim (Option-cases (cut_at 0 (c ∷ s))) [
  | inl n ↦
      rw (scan_git_show_entry, n) (ground arith, λ h. rw h (drop_cr (c ∷ s), refl, omega arith))
  | inr (r, e) ↦
      rw (scan_git_show_entry, e)
        (omega (arith, cut_at-length 0 (c ∷ s) e), λ h. (drop_cr r.0, refl, omega arith))
]

-- Each entry ends in a NUL byte.
abbrev pub terminated : List Text → Text
terminated [] = []
terminated (t ∷ ts) = t ++ (0 ∷ terminated ts)

scan-append :
    (t rest : Text)
    → Lacks 0 t
    → scan_git_show_entry (t ++ (0 ∷ rest)) true
      ≡ record { advance = length t + 1; token = some (drop_cr t) }
unfolding scan_git_show_entry cut_at drop_cr
scan-append [] rest w = refl
scan-append (c ∷ s) rest w = rw (scan_git_show_entry, cut_at-append 0 (c ∷ s) rest w)

drop-past : (t : Text) (c : ℕ) (rest : Text) → drop (length t + 1) (t ++ (c ∷ rest)) ≡ rest
drop-past [] c rest = refl
drop-past (d ∷ s) c rest =
    let e : suc (length s) + 1 ≡ suc (length s + 1) = omega arith in
    ap (λ n. drop n (d ∷ (s ++ (c ∷ rest)))) e ∙ drop-past s c rest

scan_entries_nil : (fuel : ℕ) → scan_entries (suc fuel) [] ≡ some []
unfolding scan_entries scan_git_show_entry
scan_entries_nil fuel = refl

scan_entries_step :
    (fuel : ℕ) (s t rest : Text) (n : ℕ) (ts : List Text)
    → scan_git_show_entry s true ≡ record { advance = n; token = some t }
    → drop n s ≡ rest
    → scan_entries fuel rest ≡ some ts
    → scan_entries (suc fuel) s ≡ some (t ∷ ts)
unfolding scan_entries
scan_entries_step fuel s t rest n ts e d h =
    ap₂ push_token (ap (λ (r : SplitResult). r.token) e)
      (ap (scan_entries fuel) (ap (λ (r : SplitResult). drop r.advance s) e ∙ d) ∙ h)

-- For entries without a NUL byte, each followed by one, and fuel above their number, reading by
-- `ScanGitShowEntry` at the end of the input gives these entries in order, each without a final
-- carriage return.
pub scan_entries-terminated :
    (ts : List Text) (fuel : ℕ)
    → All (Lacks 0) ts
    → length ts < fuel
    → scan_entries fuel (terminated ts) ≡ some (map drop_cr ts)
scan_entries-terminated ts zero w h = elim h [ ]
scan_entries-terminated [] (suc fuel) w h = scan_entries_nil fuel
scan_entries-terminated (t ∷ ts) (suc fuel) (w, ws) h =
    scan_entries_step fuel _ (drop_cr t) (terminated ts) (length t + 1) (map drop_cr ts)
      (scan-append t (terminated ts) w) (drop-past t 0 (terminated ts))
      (scan_entries-terminated ts fuel ws (omega arith))
