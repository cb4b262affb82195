-- ===== src/Log/Commits/Total.antt =====
-- The loop of `parseCommitLogOutput` ends: each commit takes bytes off the log.
use livegrep.GoText.Split.{size-split_n, split_n, size, split}
use livegrep.Log.Commits.{
  parse_time_from_log_part, parts_per_commit, parse_commit_file_names, prepend, ten_parts,
  FileNames, GitCommit, Parts, last_of, parse_commit_log_output, parse_commits,
  parse_next_commit_from_log, rest_of, trim_newline,
}
use livegrep.Prelude.{
  ℕ, zero, suc, ◌+◌, ◌≤◌, ◌<◌, ◌≡◌, refl, inl, inr, Bool, true, false, Option, none, some, List, [],
  ◌∷◌, arith, Option-cases, bind-eq-some, some-eq, Text, length, length-append,
}
use mathlib.Core.Path.{subst}

ten_parts-size :
    (ps : List Text) {r : Parts × List Text} → ten_parts ps ≡ some r → 10 + size r.1 ≤ size ps
ten_parts-size [] e = cc
ten_parts-size (p0 ∷ []) e = cc
ten_parts-size (p0 ∷ (p1 ∷ [])) e = cc
ten_parts-size (p0 ∷ (p1 ∷ (p2 ∷ []))) e = cc
ten_parts-size (p0 ∷ (p1 ∷ (p2 ∷ (p3 ∷ [])))) e = cc
ten_parts-size (p0 ∷ (p1 ∷ (p2 ∷ (p3 ∷ (p4 ∷ []))))) e = cc
ten_parts-size (p0 ∷ (p1 ∷ (p2 ∷ (p3 ∷ (p4 ∷ (p5 ∷ [])))))) e = cc
ten_parts-size (p0 ∷ (p1 ∷ (p2 ∷ (p3 ∷ (p4 ∷ (p5 ∷ (p6 ∷ []))))))) e = cc
ten_parts-size (p0 ∷ (p1 ∷ (p2 ∷ (p3 ∷ (p4 ∷ (p5 ∷ (p6 ∷ (p7 ∷ [])))))))) e = cc
ten_parts-size (p0 ∷ (p1 ∷ (p2 ∷ (p3 ∷ (p4 ∷ (p5 ∷ (p6 ∷ (p7 ∷ (p8 ∷ []))))))))) e = cc
ten_parts-size (p0 ∷ (p1 ∷ (p2 ∷ (p3 ∷ (p4 ∷ (p5 ∷ (p6 ∷ (p7 ∷ (p8 ∷ (p9 ∷ ps)))))))))) e =
    subst
      (λ (r : Parts × List Text).
        10 + size r.1
        ≤ size (p0 ∷ (p1 ∷ (p2 ∷ (p3 ∷ (p4 ∷ (p5 ∷ (p6 ∷ (p7 ∷ (p8 ∷ (p9 ∷ ps)))))))))))
      (some-eq e) (omega arith)

last_of-length : (ls : List Text) → length (last_of ls) ≤ size ls
last_of-length [] = omega arith
last_of-length (l ∷ []) = omega arith
last_of-length (l ∷ (m ∷ ls)) = omega (arith, last_of-length (m ∷ ls))

trim_newline-length : (s : Text) → length (trim_newline s) ≤ length s
trim_newline-length [] = omega arith
trim_newline-length (c ∷ s) = ground arith

rest_of-length : (next : Text) (ps : List Text) → length (rest_of next ps) ≤ length next + size ps
rest_of-length next [] = omega arith
rest_of-length [] (r ∷ rs) = omega arith
rest_of-length (c ∷ s) (r ∷ rs) = omega (arith, length-append s (0 ∷ r))

split-size : (s : Text) → size (split b'\n' s) ≡ suc (length s)
unfolding split
split-size s = size-split_n b'\n' (length s) s

file_names-size :
    (name_only : Bool) (ps : List Text) {f : FileNames}
    → parse_commit_file_names name_only ps ≡ some f
    → length f.next_commit + size f.behind ≤ size ps
file_names-size false ps e =
    subst (λ (f : FileNames). length f.next_commit + size f.behind ≤ size ps) (some-eq e)
      (omega arith)
file_names-size true [] e = cc
file_names-size true (p ∷ ps) e =
    subst (λ (f : FileNames). length f.next_commit + size f.behind ≤ size (p ∷ ps)) (some-eq e)
      (omega (
        arith,
        last_of-length (split b'\n' (trim_newline p)),
        split-size (trim_newline p),
        trim_newline-length p,
      ))

parse_next-shorter :
    (name_only : Bool) (raw_log : Text) {r : GitCommit × Text}
    → parse_next_commit_from_log name_only raw_log ≡ some r
    → length r.1 < length raw_log
unfolding parse_next_commit_from_log
parse_next-shorter name_only raw_log {r} e =
    let (ps, ep, e1) =
      bind-eq-some (ten_parts (split_n 0 (parts_per_commit name_only) raw_log)) _ e in
    let (f, ef, e2) = bind-eq-some (parse_commit_file_names name_only ps.1) _ e1 in
    let (t, et, e3) = bind-eq-some (parse_time_from_log_part ps.0.author_date) _ e2 in
    let (u, eu, e4) = bind-eq-some (parse_time_from_log_part ps.0.committer_date) _ e3 in
    subst (λ (r : GitCommit × Text). length r.1 < length raw_log) (some-eq e4)
      (omega (
        arith,
        rest_of-length f.next_commit f.behind,
        file_names-size name_only ps.1 ef,
        ten_parts-size (split_n 0 (parts_per_commit name_only) raw_log) ep,
        size-split_n 0 (parts_per_commit name_only) raw_log,
      ))

prepend_total :
    (c : GitCommit) (m : Option (Option (List GitCommit)))
    → (r : Option (List GitCommit)) × (m ≡ some r)
    → (r : Option (List GitCommit)) × (prepend c m ≡ some r)
prepend_total c none (r, e) = absurd (cc e)
prepend_total c (some none) h = (none, refl)
prepend_total c (some (some cs)) h = (some (c ∷ cs), refl)

parse_commits_total :
    (fuel : ℕ) (name_only : Bool) (raw_log : Text)
    → length raw_log < fuel
    → (r : Option (List GitCommit)) × (parse_commits fuel name_only raw_log ≡ some r)
unfolding parse_commits
parse_commits_total zero name_only raw_log h = elim h [ ]
parse_commits_total (suc fuel) name_only [] h = (some [], refl)
parse_commits_total (suc fuel) name_only (c ∷ s) h =
    elim (Option-cases (parse_next_commit_from_log name_only (c ∷ s))) [
      | inl n ↦ (none, rw (n, parse_commits))
      | inr (r, e) ↦
          rw (e, parse_commits)
            (prepend_total r.0 _ (
              parse_commits_total fuel name_only r.1
                (omega (arith, parse_next-shorter name_only (c ∷ s) e))))
    ]

-- `parseCommitLogOutput` ends on every log, with or without file names, by commits or an error: the
-- fuel its loop is given never runs out.
pub parse_commit_log_output_total :
    (raw_log : Text) (name_only : Bool)
    → (r : Option (List GitCommit)) × (parse_commit_log_output raw_log name_only ≡ some r)
unfolding parse_commit_log_output
parse_commit_log_output_total raw_log name_only =
    parse_commits_total (length raw_log + 1) name_only raw_log (omega arith)
