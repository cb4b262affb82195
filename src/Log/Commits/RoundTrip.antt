-- ===== src/Log/Commits/RoundTrip.antt =====
-- What `git log` writes in the format `logFormatWithoutRefs`, `parseCommitLogOutput` reads.
use livegrep.GoText.Decimal.{half_word, print_int}
use livegrep.GoText.Decimal.RoundTrip.{atoi-print_int}
use livegrep.GoText.Split.{split-join_by, split_n-fields, split, Lacks, join_by}
use livegrep.Log.Commits.{
  prepend, parse_commit_log_output, parse_commits, parse_next_commit_from_log, parse_parents,
  trim_newline, GitCommit,
}
use livegrep.Prelude.{
  ℕ, zero, suc, ◌+◌, ◌≤◌, ◌<◌, ◌≡◌, refl, sym, ap, ◌∙◌, ◌≢◌, false, some, List, [], ◌∷◌, ◌++◌,
  arith, Text, length, drop, length-append, All,
}
use mathlib.Core.List.{cons-ne-nil}

-- The parts of a commit; `%P` gives the hashes of the parents with a blank between them.
abbrev pub fields : Text → GitCommit → List Text
fields hash_part c =
    hash_part
    ∷ c.author.name
    ∷ c.author.email
    ∷ print_int c.author.date
    ∷ c.committer.name
    ∷ c.committer.email
    ∷ print_int c.committer.date
    ∷ c.subject
    ∷ c.body
    ∷ join_by b' ' c.parents
    ∷ []

abbrev pub render_commit : Text → GitCommit → Text → Text
render_commit hash_part c rest = join_by 0 (fields hash_part c ++ (rest ∷ []))

-- The log puts a newline between commits, in front of the hash.
abbrev pub render_more : List GitCommit → Text
render_more [] = []
render_more (c ∷ cs) = render_commit (b'\n' ∷ c.id) c (render_more cs)

abbrev pub render_log : List GitCommit → Text
render_log [] = []
render_log (c ∷ cs) = render_commit c.id c (render_more cs)

-- No part holds a NUL byte, a hash does not begin with a newline and no parent holds a blank; the
-- dates are not negative; and the log was not asked for names.
pub record IsLogged (c : GitCommit) : Type 0 where
  pub no_nul : All (Lacks 0) (fields c.id c)
  pub hash_lem : trim_newline c.id ≡ c.id
  pub parents_ne_nil : All (λ p. p ≢ []) c.parents
  pub parents_lem : All (Lacks b' ') c.parents
  pub author_date : c.author.date < half_word
  pub committer_date : c.committer.date < half_word
  pub no_files : c.files ≡ []

parse_parents-ne-nil : (s : Text) → s ≢ [] → parse_parents s ≡ split b' ' s
parse_parents-ne-nil [] n = absurd (n refl)
parse_parents-ne-nil (c ∷ s) n = refl

join_by-ne-nil : (sep : ℕ) (p : Text) (ps : List Text) → p ≢ [] → join_by sep (p ∷ ps) ≢ []
join_by-ne-nil sep [] ps n = absurd (n refl)
join_by-ne-nil sep (c ∷ s) [] n = cons-ne-nil c s
join_by-ne-nil sep (c ∷ s) (q ∷ ps) n = cons-ne-nil c _

parse_parents-join_by :
    (ps : List Text)
    → All (λ p. p ≢ []) ps
    → All (Lacks b' ') ps
    → parse_parents (join_by b' ' ps) ≡ ps
parse_parents-join_by [] n w = refl
parse_parents-join_by (p ∷ ps) (n, ns) w =
    parse_parents-ne-nil (join_by b' ' (p ∷ ps)) (join_by-ne-nil b' ' p ps n)
    ∙ split-join_by b' ' p ps w

parse_next-render_commit :
    (hash_part : Text) (c : GitCommit) (rest : Text)
    → IsLogged c
    → Lacks 0 hash_part
    → trim_newline hash_part ≡ c.id
    → parse_next_commit_from_log false (render_commit hash_part c rest) ≡ some (c, rest)
unfolding parse_next_commit_from_log
parse_next-render_commit hash_part c rest w n t =
    rw
      (
        split_n-fields 0 (fields hash_part c) rest (n, w.no_nul.1),
        atoi-print_int c.author.date w.author_date,
        atoi-print_int c.committer.date w.committer_date,
        t,
        parse_parents-join_by c.parents w.parents_ne_nil w.parents_lem,
      )
      (ap (λ fs. some (record c { files = fs }, rest)) (sym w.no_files))

parse_commits_step :
    (fuel c : ℕ) (s : Text) {k : GitCommit} {rest : Text}
    → parse_next_commit_from_log false (c ∷ s) ≡ some (k, rest)
    → parse_commits (suc fuel) false (c ∷ s) ≡ prepend k (parse_commits fuel false rest)
unfolding parse_commits
parse_commits_step fuel c s e = rw (parse_commits, e)

parse_commits_nil : (fuel : ℕ) → parse_commits (suc fuel) false [] ≡ some (some [])
unfolding parse_commits
parse_commits_nil fuel = refl

parse_commits_cons :
    (fuel : ℕ) (s : Text) {k : GitCommit} {rest : Text}
    → s ≢ []
    → parse_next_commit_from_log false s ≡ some (k, rest)
    → parse_commits (suc fuel) false s ≡ prepend k (parse_commits fuel false rest)
parse_commits_cons fuel [] n e = absurd (n refl)
parse_commits_cons fuel (c ∷ s) n e = parse_commits_step fuel c s e

parse_commits-render_more :
    (fuel : ℕ) (cs : List GitCommit)
    → length cs < fuel
    → All IsLogged cs
    → parse_commits fuel false (render_more cs) ≡ some (some cs)
parse_commits-render_more zero cs h w = elim h [ ]
parse_commits-render_more (suc fuel) [] h w = parse_commits_nil fuel
parse_commits-render_more (suc fuel) (c ∷ cs) h (w, ws) =
    parse_commits_step fuel b'\n' _
      (parse_next-render_commit (b'\n' ∷ c.id) c (render_more cs) w (refl, w.no_nul.0) refl)
    ∙ ap (prepend c) (parse_commits-render_more fuel cs (omega arith) ws)

length-join_by_last :
    (sep : ℕ) (f : Text) (fs : List Text) (s : Text)
    → length s < length (join_by sep ((f ∷ fs) ++ (s ∷ [])))
length-join_by_last sep f [] s = omega (arith, length-append f (sep ∷ s))
length-join_by_last sep f (g ∷ fs) s = omega (
  arith,
  length-append f (sep ∷ join_by sep ((g ∷ fs) ++ (s ∷ []))),
  length-join_by_last sep g fs s,
)

length-render_commit :
    (hash_part : Text) (c : GitCommit) (rest : Text)
    → length rest < length (render_commit hash_part c rest)
length-render_commit hash_part c rest =
    length-join_by_last 0 hash_part (drop 1 (fields hash_part c)) rest

length-render_more : (cs : List GitCommit) → length cs ≤ length (render_more cs)
length-render_more [] = omega arith
length-render_more (c ∷ cs) =
    let h : length cs < length (render_more (c ∷ cs)) =
      omega
        (arith, length-render_more cs, length-render_commit (b'\n' ∷ c.id) c (render_more cs)) in
    h

-- For commits whose parts hold no NUL byte, whose hash does not begin with a newline, whose parents
-- are not empty and hold no blank, whose dates are not negative and which list no files,
-- `parseCommitLogOutput` reads from the log of these commits exactly the commits, in order.
pub parse_commit_log_output-render_log :
    (cs : List GitCommit)
    → All IsLogged cs
    → parse_commit_log_output (render_log cs) false ≡ some (some cs)
unfolding parse_commit_log_output
parse_commit_log_output-render_log [] w = parse_commits_nil 0
parse_commit_log_output-render_log (c ∷ cs) (w, ws) =
    let raw_log = render_log (c ∷ cs) in
    let h = length-render_commit c.id c (render_more cs) in
    let e : length raw_log + 1 ≡ suc (length raw_log) = omega arith in
    ap (λ fuel. parse_commits fuel false raw_log) e
    ∙ parse_commits_cons (length raw_log) raw_log (λ n. omega (arith, h, ap length n))
        (parse_next-render_commit c.id c (render_more cs) w w.no_nul.0 w.hash_lem)
    ∙ ap (prepend c)
        (parse_commits-render_more (length raw_log) cs (omega (arith, h, length-render_more cs)) ws)
