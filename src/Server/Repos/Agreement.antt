-- ===== src/Server/Repos/Agreement.antt =====
-- The two maps of repositories, by full name and by parent and name, give the same repository.
use livegrep.Dict.{lookup-insert, insert, Dict, lookup, text_key, number_key}
use livegrep.GoText.Split.{cut_at, Lacks, cut_at-append}
use livegrep.Pages.{RepoConfig}
use livegrep.Pages.Build.{no_config}
use livegrep.Prelude.{
  ◌≡◌, refl, sym, ap, ◌∙◌, inl, inr, Bool, true, false, ◌&&◌, ◌||◌, Option, none, some, List, [],
  ◌∷◌, ◌++◌, arith, map, if◌then◌else◌, Bool-cases, some-eq, Text, codes, text_eq, text_eq_iff, All,
}
use livegrep.Runtime.{ret}
use livegrep.Server.Repos.{
  build_repos_and_parents, load_repos, add_repos, or_empty, repo_at, add_repo, children_at, Parents,
}
use mathlib.Core.Path.{ap₂}

-- the repository of a parent
unfoldable pub repo_under : Text → Text → Parents → Option RepoConfig
unfolding lookup
repo_under parent repo m = lookup repo (children_at parent m)

abbrev pub full : Text × Text → Text
full p = p.0 ++ (codes "/" ++ p.1)

unfoldable pub has_name : Text → List Text → Bool
unfolding text_eq
has_name x [] = false
has_name x (n ∷ ns) = text_eq n x || has_name x ns

abbrev pub HasParent : Text × Text → Type 0
HasParent p = Lacks b'/' p.0

full_injective : (p q : Text × Text) → HasParent p → HasParent q → full p ≡ full q → p ≡ q
full_injective p q hp hq e =
    some-eq
      (sym (cut_at-append b'/' p.0 p.1 hp) ∙ ap (cut_at b'/') e ∙ cut_at-append b'/' q.0 q.1 hq)

text_eq-full :
    (p q : Text × Text)
    → HasParent p
    → HasParent q
    → text_eq (full p) (full q) ≡ (text_eq p.0 q.0 && text_eq p.1 q.1)
text_eq-full (a, b) (c, d) hp hq = elim (Bool-cases (text_eq (full (a, b)) (full (c, d)))) [
  | inl same ↦
      let e = full_injective (a, b) (c, d) hp hq ((text_eq_iff _ _).0 same) in
      rw ((text_eq_iff a c).1 (ap (λ x. x.0) e), (text_eq_iff b d).1 (ap (λ x. x.1) e)) same
  | inr other ↦ elim (Bool-cases (text_eq a c)) [
    | inr ne ↦ rw (other, ne) refl
    | inl eq ↦ elim (Bool-cases (text_eq b d)) [
      | inr ne ↦ rw (other, eq, ne) refl
      | inl eq' ↦
          let parts = (text_eq_iff a c).0 eq in
          let rests = (text_eq_iff b d).0 eq' in
          absurd (
            cc ((text_eq_iff (full (a, b)) (full (c, d))).1 (ap₂ (λ x y. full (x, y)) parts rests)))
    ]
  ]
]

join_tests {ℓ} :
    {A : Type ℓ} (t h : Bool) (x y z : A)
    → (t ≡ true → y ≡ x)
    → (if h then x else if t then y else z) ≡ (if t || h then x else z)
join_tests true true x y z e = refl
join_tests true false x y z e = e refl
join_tests false h x y z e = refl

abbrev some_of : Option RepoConfig → Bool
some_of none = false
some_of (some r) = true

some_of-insert :
    (k n : Text) (r : RepoConfig) (m : Dict Text RepoConfig)
    → some_of (lookup k (insert n r m)) ≡ (text_eq n k || some_of (lookup k m))
some_of-insert k n r m =
    let e = lookup-insert n k r m in
    elim (Bool-cases (text_eq n k)) [
      | inl same ↦ ap some_of (rw same at e) ∙ rw same refl
      | inr other ↦ ap some_of (rw other at e) ∙ rw other refl
    ]

swap_tests : (a b c : Bool) → ((a || b) || c) ≡ (b || (a || c))
swap_tests a b c = ground arith

some_of-load_repos :
    (k : Text) (m : Dict Text RepoConfig) (cs : List RepoConfig)
    → some_of (lookup k (load_repos m cs))
      ≡ (some_of (lookup k m) || has_name k (map (λ (c : RepoConfig). c.name) cs))
unfolding load_repos has_name
some_of-load_repos k m [] = ground arith
some_of-load_repos k m (c ∷ cs) =
    some_of-load_repos k (insert c.name c m) cs
    ∙ ap (λ b. b || has_name k (map (λ (c : RepoConfig). c.name) cs)) (some_of-insert k c.name c m)
    ∙ swap_tests (text_eq c.name k) (some_of (lookup k m)) _

same_repo :
    (o : Option RepoConfig) (b : Bool)
    → some_of o ≡ b
    → (if b then some (elim o [ none ↦ no_config | some r ↦ r ]) else none) ≡ o
same_repo none true e = cc
same_repo none false e = refl
same_repo (some r) true e = refl
same_repo (some r) false e = cc

module _ (repos : Dict Text RepoConfig) where
  add_repo-full :
      (p : Text × Text) (m : Parents)
      → HasParent p
      → add_repo repos (full p) m
        ≡ ret (insert p.0 (insert p.1 (repo_at repos (full p)) (children_at p.0 m)) m)
  unfolding add_repo
  add_repo-full p m h = rw (add_repo, cut_at-append b'/' p.0 p.1 h) refl

  add-repo_under :
      (p : Text × Text) (parent repo : Text) (r : RepoConfig) (m : Parents)
      → repo_under parent repo (insert p.0 (insert p.1 r (children_at p.0 m)) m)
        ≡ (if text_eq p.0 parent && text_eq p.1 repo then some r else repo_under parent repo m)
  unfolding repo_under
  add-repo_under p parent repo r m =
      let at_parent = lookup-insert p.0 parent (insert p.1 r (children_at p.0 m)) m in
      let at_repo = lookup-insert p.1 repo r (children_at p.0 m) in
      elim (Bool-cases (text_eq p.0 parent)) [
        | inl same ↦
            ap (λ o. lookup repo (or_empty o)) (rw same at at_parent)
            ∙ at_repo
            ∙ rw same (
                ap (λ d. if text_eq p.1 repo then some r else lookup repo (children_at d m))
                  ((text_eq_iff p.0 parent).0 same))
        | inr other ↦ ap (λ o. lookup repo (or_empty o)) (rw other at at_parent) ∙ rw other refl
      ]

  add_repos-full :
      (ps : List (Text × Text)) (q : Text × Text) (m : Parents)
      → All HasParent ps
      → HasParent q
      → (m' : Parents) × (add_repos repos (map full ps) m ≡ ret m')
        × (repo_under q.0 q.1 m' ≡ (
            if has_name (full q) (map full ps)
            then some (repo_at repos (full q))
            else repo_under q.0 q.1 m))
  unfolding add_repos has_name
  add_repos-full [] q m hs hq = (m, refl, refl)
  add_repos-full (p ∷ ps) q m (hp, hs) hq =
      let next = insert p.0 (insert p.1 (repo_at repos (full p)) (children_at p.0 m)) m in
      let (m', built, found) = add_repos-full ps q next hs hq in
      (
        m',
        rw (add_repos, add_repo-full p m hp) built,
        found
            ∙ ap (λ o. if has_name (full q) (map full ps) then some (repo_at repos (full q)) else o)
                (add-repo_under p q.0 q.1 (repo_at repos (full p)) m
                  ∙ ap (λ b. if b then some (repo_at repos (full p)) else repo_under q.0 q.1 m)
                      (sym (text_eq-full p q hp hq)))
            ∙ join_tests (text_eq (full p) (full q)) (has_name (full q) (map full ps))
                (some (repo_at repos (full q))) (some (repo_at repos (full p)))
                (repo_under q.0 q.1 m)
                (λ e. ap (λ x. some (repo_at repos x)) ((text_eq_iff (full p) (full q)).0 e)),
      )

-- For a configuration whose names are a parent without a slash, a slash and the rest, and names in
-- any order that has the name asked for exactly if the configuration has it, `buildReposAndParents`
-- does not panic, and its map by parent and name gives the same repository as the map by full name,
-- or none in both.
pub build_repos_and_parents-lookup :
    (cs : List RepoConfig) (ps : List (Text × Text)) (q : Text × Text)
    → All HasParent ps
    → HasParent q
    → has_name (full q) (map full ps) ≡ has_name (full q) (map (λ (c : RepoConfig). c.name) cs)
    → (m : Parents) × (build_repos_and_parents (load_repos [] cs) (map full ps) ≡ ret m)
      × (repo_under q.0 q.1 m ≡ lookup (full q) (load_repos [] cs))
unfolding build_repos_and_parents repo_under
build_repos_and_parents-lookup cs ps q hs hq names =
    let (m, built, found) = add_repos-full (load_repos [] cs) ps q [] hs hq in
    let known = some_of-load_repos (full q) [] cs ∙ sym names in
    (m, built, found ∙ same_repo (lookup (full q) (load_repos [] cs)) _ known)
