-- ===== src/Server/Repos/Longest.antt =====
-- The repository that a URL names is the most specific one.
use livegrep.GoText.Prefix.{strip_prefix-append, strip_prefix-eq-some, strip_prefix}
use livegrep.GoText.Split.{Lacks}
use livegrep.Prelude.{
  ℕ, zero, suc, ◌≤◌, ◌≡◌, refl, sym, ap, ◌∙◌, inl, inr, false, some, List, [], ◌∷◌, ◌++◌,
  append_assoc, arith, ◌==◌, Option-cases, some-eq, Text, codes, length, get_elem?, All,
}
use livegrep.Server.Repos.{find_repo_path, get_repo_path_from_url, match_repo, until_newline}
use mathlib.Core.Path.{subst}

-- no name stands behind a shorter one
abbrev pub IsByLength : List Text → Type 0
IsByLength [] = Unit
IsByLength (n ∷ ns) = All (λ m. length m ≤ length n) ns × IsByLength ns

until_newline_all : (s : Text) → Lacks b'\n' s → until_newline s ≡ s
unfolding until_newline
until_newline_all [] h = refl
until_newline_all (c ∷ s) (hc, h) = rw (until_newline, hc) (ap (λ t. c ∷ t) (until_newline_all s h))

module _ {ℓ κ} {A : Type ℓ} (P : A → Type κ) where
  All-right : (xs ys : List A) → All P (xs ++ ys) → All P ys
  All-right [] ys h = h
  All-right (x ∷ xs) ys (p, h) = All-right xs ys h

  All-get_elem? : (xs : List A) (i : ℕ) {x : A} → All P xs → get_elem? xs i ≡ some x → P x
  All-get_elem? [] i h e = cc
  All-get_elem? (y ∷ xs) zero (p, h) e = subst P (some-eq e) p
  All-get_elem? (y ∷ xs) (suc i) (p, h) e = All-get_elem? xs i h e

-- what a match of a URL has: it is a name, and gives the URL back
abbrev pub IsMatch : List Text → Text → ℕ → Text × Text → Type 0
IsMatch names url least r =
    ((i : ℕ) × (get_elem? names i ≡ some r.0))
    × (r.0 ++ (codes "/" ++ r.1) ≡ url)
    × (least ≤ length r.0)

here :
    (name url rest : Text)
    → Lacks b'\n' url
    → strip_prefix (name ++ codes "/") url ≡ some rest
    → (name ++ (codes "/" ++ until_newline rest)) ≡ url
here name url rest h e =
    let whole = strip_prefix-eq-some (name ++ codes "/") url e in
    let line : Lacks b'\n' rest =
      All-right (λ c. (c == b'\n') ≡ false) (name ++ codes "/") rest
        (subst (Lacks b'\n') whole h) in
    rw (until_newline_all rest line) (sym (whole ∙ append_assoc name (codes "/") rest))

match_repo-longest :
    (names : List Text) (i : ℕ) (repo url rest : Text)
    → IsByLength names
    → get_elem? names i ≡ some repo
    → Lacks b'\n' url
    → strip_prefix (repo ++ codes "/") url ≡ some rest
    → (r : Text × Text) × (match_repo names url ≡ some r) × IsMatch names url (length repo) r
unfolding match_repo
match_repo-longest [] i repo url rest h m line e = cc
match_repo-longest (n ∷ ns) zero repo url rest (hn, h) m line e =
    let same = some-eq m in
    let found = subst (λ x. strip_prefix (x ++ codes "/") url ≡ some rest) (sym same) e in
    (
      (n, until_newline rest),
      rw (match_repo, found) refl,
      (
        (zero, refl),
        here n url rest line found,
        subst (λ x. length x ≤ length n) same (omega arith),
      ),
    )
match_repo-longest (n ∷ ns) (suc k) repo url rest (hn, h) m line e =
    elim (Option-cases (strip_prefix (n ++ codes "/") url)) [
      | inl fails ↦
          let (r, found, ((j, at), gives, least)) =
            match_repo-longest ns k repo url rest h m line e in
          (r, rw (match_repo, fails) found, ((suc j, at), gives, least))
      | inr (other, found) ↦ (
        (n, until_newline other),
        rw (match_repo, found) refl,
        (
          (zero, refl),
          here n url other line found,
          All-get_elem? (λ x. length x ≤ length n) ns k hn m,
        ),
      )
    ]

find_repo_path_found :
    (names : List Text) (s : Text) {r : Text × Text}
    → match_repo names s ≡ some r
    → find_repo_path names s ≡ some r
unfolding find_repo_path
find_repo_path_found names [] e = e
find_repo_path_found names (c ∷ s) e = rw (find_repo_path, e)

-- Where no name stands behind a shorter one, a URL without a newline that is the name of a
-- repository, a slash and a path is split into a name and a path that give it back, and that name
-- is at least as long.
pub get_repo_path_from_url-longest :
    (names : List Text) (i : ℕ) (repo path : Text)
    → IsByLength names
    → get_elem? names i ≡ some repo
    → Lacks b'\n' (repo ++ (codes "/" ++ path))
    → (r : Text × Text) × (get_repo_path_from_url names (repo ++ (codes "/" ++ path)) ≡ some r)
      × IsMatch names (repo ++ (codes "/" ++ path)) (length repo) r
unfolding get_repo_path_from_url
get_repo_path_from_url-longest [] i repo path h m line = cc
get_repo_path_from_url-longest (n ∷ ns) i repo path h m line =
    let url = repo ++ (codes "/" ++ path) in
    let e =
      ap (strip_prefix (repo ++ codes "/")) (sym (append_assoc repo (codes "/") path))
      ∙ strip_prefix-append (repo ++ codes "/") path in
    let (r, found, others) = match_repo-longest (n ∷ ns) i repo url path h m line e in
    (r, find_repo_path_found (n ∷ ns) url found, others)
