-- ===== src/Pages/SimpleLog/RoundTrip.antt =====
-- `BuildSimpleGitLogData` on what git writes for `-z` and `--pretty=format:`, which puts a NUL byte between
-- the commits and none behind the last one.
use livegrep.Blame.{is_blank}
use livegrep.GoText.Decimal.{is_digit}
use livegrep.GoText.Prefix.{strip_prefix}
use livegrep.GoText.Regexp.{contains_byte}
use livegrep.GoText.Split.{contains_byte-Lacks, cut_at-append, Lacks}
use livegrep.Pages.{RepoConfig, Paths}
use livegrep.Pages.SimpleLog.{
  last_hash, simple_git_log, simple_log_of_output, find_commits, take_key, LogCommit, is_word,
  match_commit, span_name,
}
use livegrep.Pages.SimpleLog.NoNul.{match_commit-NoNul, NoNul}
use livegrep.Prelude.{
  ℕ, zero, suc, ◌+◌, ◌-◌, ◌≤◌, ◌≡◌, refl, ap, ◌∙◌, true, false, some, List, [], ◌∷◌, ◌++◌, arith,
  ◌==◌, Text, codes, length, length-append, All, All-append,
}

-- one commit in `customGitLogFormat`, and what stands behind it
abbrev pub render_to : LogCommit → Text → Text
render_to c behind =
    codes "commit "
    ++ (c.hash
        ++ (codes " <"
            ++ (c.short_hash
                ++ (codes ">\nauthor <"
                    ++ (c.author_name
                        ++ (b'>'
                            ∷ (codes " <"
                                ++ (c.author_email
                                    ++ (b'>'
                                        ∷ (codes "\nsubject "
                                            ++ (c.subject
                                                ++ (b'\n'
                                                    ∷ (codes "date "
                                                        ++ (c.date
                                                            ++ (b'\n'
                                                            ∷ (codes "body "
                                                            ++ (c.body ++ behind)))))))))))))))))

abbrev pub git_log_z : List LogCommit → Text
git_log_z [] = []
git_log_z (c ∷ []) = render_to c []
git_log_z (c ∷ (d ∷ cs)) = render_to c (0 ∷ git_log_z (d ∷ cs))

-- The parts are such as the format separates: hashes of word characters, names without `>`, a subject and a
-- date of one line, and no NUL byte.
pub record IsListed (c : LogCommit) : Type 0 where
  pub hash_words : All (λ x. is_word x ≡ true) c.hash
  pub short_words : All (λ x. is_word x ≡ true) c.short_hash
  pub plain_name : Lacks b'>' c.author_name
  pub plain_email : Lacks b'>' c.author_email
  pub one_line_subject : Lacks b'\n' c.subject
  pub one_line_date : Lacks b'\n' c.date
  pub no_nul_hash : NoNul c.hash
  pub no_nul_short : NoNul c.short_hash
  pub no_nul_name : NoNul c.author_name
  pub no_nul_email : NoNul c.author_email
  pub no_nul_subject : NoNul c.subject
  pub no_nul_date : NoNul c.date
  pub no_nul_body : NoNul c.body

span_name-append :
    (w : Text) (c : ℕ) (r : Text)
    → All (λ x. is_word x ≡ true) w
    → is_word c ≡ false
    → span_name (w ++ (c ∷ r)) ≡ (w, c ∷ r)
unfolding span_name
span_name-append [] c r h n = rw n
span_name-append (x ∷ w) c r (hx, h) n = rw (hx, span_name-append w c r h n)

blank_ends : is_word 32 ≡ false
unfolding is_word is_digit
blank_ends = refl

angle_ends : is_word b'>' ≡ false
unfolding is_word is_digit
angle_ends = refl

match_commit-render_to :
    (c : LogCommit) (rest : Text)
    → IsListed c
    → match_commit (render_to c (0 ∷ rest)) ≡ some (c, rest)
unfolding match_commit take_key strip_prefix is_blank
match_commit-render_to c rest h = rw (
  span_name-append c.hash 32 _ h.hash_words blank_ends,
  span_name-append c.short_hash b'>' _ h.short_words angle_ends,
  cut_at-append b'>' c.author_name _ h.plain_name,
  cut_at-append b'>' c.author_email _ h.plain_email,
  cut_at-append b'\n' c.subject _ h.one_line_subject,
  cut_at-append b'\n' c.date _ h.one_line_date,
  cut_at-append 0 c.body _ h.no_nul_body,
)

append-NoNul : (p s : Text) → NoNul p → NoNul s → NoNul (p ++ s)
append-NoNul p s hp h = All-append (λ x. (x == 0) ≡ false) p s hp h

key-NoNul : (p s : Text) → contains_byte 0 p ≡ false → NoNul s → NoNul (p ++ s)
key-NoNul p s e h = append-NoNul p s (contains_byte-Lacks 0 p e) h

render_to-NoNul : (c : LogCommit) → IsListed c → NoNul (render_to c [])
unfolding contains_byte
render_to-NoNul c h = key-NoNul (codes "commit ") _ refl (
    append-NoNul c.hash _ h.no_nul_hash (
      key-NoNul (codes " <") _ refl (
        append-NoNul c.short_hash _ h.no_nul_short (
          key-NoNul (codes ">\nauthor <") _ refl (
            append-NoNul c.author_name _ h.no_nul_name (
              refl,
              key-NoNul (codes " <") _ refl (
                  append-NoNul c.author_email _ h.no_nul_email (
                    refl,
                    key-NoNul (codes "\nsubject ") _ refl (
                        append-NoNul c.subject _ h.no_nul_subject (
                          refl,
                          key-NoNul (codes "date ") _ refl (
                              append-NoNul c.date _ h.no_nul_date (
                                refl,
                                key-NoNul (codes "body ") _ refl
                                    (append-NoNul c.body [] h.no_nul_body tt),
                              )),
                        )),
                  )),
            ))))))

find_commits_nil : (fuel : ℕ) (s : Text) → NoNul s → find_commits fuel s ≡ []
unfolding find_commits
find_commits_nil zero s h = refl
find_commits_nil (suc fuel) [] h = refl
find_commits_nil (suc fuel) (c ∷ s) (hc, h) =
    rw (find_commits, match_commit-NoNul (c ∷ s) (hc, h), find_commits_nil fuel s h)

abbrev pub all_but_last {ℓ} : {A : Type ℓ} → List A → List A
all_but_last [] = []
all_but_last (x ∷ []) = []
all_but_last (x ∷ (y ∷ xs)) = x ∷ all_but_last (y ∷ xs)

find_commits_step :
    (fuel : ℕ) (s : Text) {c : LogCommit} {rest : Text}
    → match_commit s ≡ some (c, rest)
    → find_commits (suc fuel) s ≡ c ∷ find_commits fuel rest
unfolding find_commits match_commit take_key strip_prefix
find_commits_step fuel [] e = cc
find_commits_step fuel (x ∷ s) e = rw (find_commits, e)

find_commits-git_log_z :
    (fuel : ℕ) (cs : List LogCommit)
    → length cs ≤ fuel
    → All IsListed cs
    → find_commits fuel (git_log_z cs) ≡ all_but_last cs
unfolding find_commits
find_commits-git_log_z fuel [] n h = find_commits_nil fuel [] tt
find_commits-git_log_z fuel (c ∷ []) n (hc, h) = find_commits_nil fuel _ (render_to-NoNul c hc)
find_commits-git_log_z zero (c ∷ (d ∷ cs)) n (hc, h) = elim n [ ]
find_commits-git_log_z (suc fuel) (c ∷ (d ∷ cs)) n (hc, h) =
    find_commits_step fuel (render_to c (0 ∷ git_log_z (d ∷ cs)))
      (match_commit-render_to c (git_log_z (d ∷ cs)) hc)
    ∙ ap (λ xs. c ∷ xs) (find_commits-git_log_z fuel (d ∷ cs) (omega arith) h)

behind_part : (n : ℕ) (part s : Text) → n ≤ length s → n ≤ length (part ++ s)
behind_part n part s h = omega (arith, length-append part s)

length-render_to :
    (n : ℕ) (c : LogCommit) (behind : Text) → n ≤ length behind → n ≤ length (render_to c behind)
length-render_to n c behind h =
    let body = codes "body " ++ (c.body ++ behind) in
    let date = codes "date " ++ (c.date ++ (b'\n' ∷ body)) in
    let subject = codes "\nsubject " ++ (c.subject ++ (b'\n' ∷ date)) in
    let email = codes " <" ++ (c.author_email ++ (b'>' ∷ subject)) in
    let name = codes ">\nauthor <" ++ (c.author_name ++ (b'>' ∷ email)) in
    let short_hash = codes " <" ++ (c.short_hash ++ name) in
    let h₀ = behind_part n c.body behind h in
    let h₁ = behind_part n c.date (b'\n' ∷ body) (omega arith) in
    let h₂ = behind_part n c.subject (b'\n' ∷ date) (omega arith) in
    let h₃ = behind_part n c.author_email (b'>' ∷ subject) (omega arith) in
    let h₄ = behind_part n c.author_name (b'>' ∷ email) (omega arith) in
    let h₅ = behind_part n c.short_hash name (omega arith) in
    let h₆ = behind_part n c.hash short_hash (omega arith) in omega arith

length-git_log_z : (cs : List LogCommit) → length cs ≤ length (git_log_z cs)
length-git_log_z [] = omega arith
length-git_log_z (c ∷ []) = omega arith
length-git_log_z (c ∷ (d ∷ cs)) =
    let rest = length-git_log_z (d ∷ cs) in
    let more =
      length-render_to (length (git_log_z (d ∷ cs)) + 1) c (0 ∷ git_log_z (d ∷ cs)) (omega arith) in
    omega arith

length-all_but_last {ℓ} : {A : Type ℓ} (xs : List A) → length (all_but_last xs) ≤ length xs - 1
length-all_but_last [] = omega arith
length-all_but_last (x ∷ []) = omega arith
length-all_but_last (x ∷ (y ∷ xs)) = let rest = length-all_but_last (y ∷ xs) in omega arith

-- For at most 1000 commits whose parts the format separates, written with a NUL byte between them
-- and none behind the last one, the log of `BuildSimpleGitLogData` has all commits but the last
-- one, its next parent is the last of those, and it is always marked as the last page.
pub simple_log_of_output-git_log_z :
    (paths : Paths) (first_parent : Text) (repo : RepoConfig) (clean : Text) (cs : List LogCommit)
    → All IsListed cs
    → length cs ≤ 1000
    → let log = simple_log_of_output paths first_parent repo clean (git_log_z cs) in
      (log.commits ≡ all_but_last cs)
      × (log.next_parent ≡ last_hash (all_but_last cs))
      × (log.maybe_last_page ≡ true)
unfolding simple_log_of_output simple_git_log
simple_log_of_output-git_log_z paths first_parent repo clean cs h n =
    let found = find_commits-git_log_z (length (git_log_z cs)) cs (length-git_log_z cs) h in
    let few = length-all_but_last cs in (found, ap last_hash found, rw found (ground arith))
