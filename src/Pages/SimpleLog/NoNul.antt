-- ===== src/Pages/SimpleLog/NoNul.antt =====
-- `gitLogRegex`: every match ends with a NUL byte.
use livegrep.Blame.{is_blank}
use livegrep.GoText.Prefix.{strip_prefix}
use livegrep.GoText.Split.{Lacks, cut_at}
use livegrep.Pages.SimpleLog.{match_commit, span_name, take_key}
use livegrep.Prelude.{
  ℕ, ◌≡◌, refl, inl, inr, Option, none, some, [], ◌∷◌, arith, ◌==◌, if◌then◌else◌, Bool-cases,
  Option-cases, ◌>>=◌, some-eq, Text, codes,
}
use mathlib.Core.Path.{subst}

abbrev pub NoNul : Text → Type 0
NoNul = Lacks 0

strip_prefix-NoNul : (p s : Text) {r : Text} → NoNul s → strip_prefix p s ≡ some r → NoNul r
unfolding strip_prefix
strip_prefix-NoNul [] s h e = subst NoNul (some-eq e) h
strip_prefix-NoNul (x ∷ p) [] h e = cc
strip_prefix-NoNul (x ∷ p) (c ∷ s) {r} (hc, h) e = ground (arith, strip_prefix-NoNul p s {r = r} h)

after_blank-NoNul :
    (s : Text) {r : Text}
    → NoNul s
    → (elim (some s) [
      | none ↦ none
      | some [] ↦ none
      | some (c ∷ rest) ↦ if is_blank c then some rest else none
    ])
      ≡ some r
    → NoNul r
after_blank-NoNul [] h e = cc
after_blank-NoNul (c ∷ s) (hc, h) e = ground arith

take_key-NoNul : (key s : Text) {r : Text} → NoNul s → take_key key s ≡ some r → NoNul r
unfolding take_key
take_key-NoNul key s {r} h e = elim (Option-cases (strip_prefix key s)) [
  | inl fails ↦ cc (rw (take_key, fails) at e)
  | inr (t, found) ↦
      after_blank-NoNul t (strip_prefix-NoNul key s h found) (rw (take_key, found) at e)
]

span_name-NoNul : (s : Text) → NoNul s → NoNul (span_name s).1
unfolding span_name
span_name-NoNul [] h = tt
span_name-NoNul (c ∷ s) (hc, h) = ground (arith, span_name-NoNul s h)

cut_at-NoNul : (sep : ℕ) (s : Text) {r : Text × Text} → NoNul s → cut_at sep s ≡ some r → NoNul r.1
unfolding cut_at
cut_at-NoNul sep [] h e = cc
cut_at-NoNul sep (c ∷ s) {r} (hc, h) e = elim (Bool-cases (c == sep)) [
  | inl here ↦ subst (λ (x : Text × Text). NoNul x.1) (some-eq (rw here at e)) h
  | inr later ↦ elim (Option-cases (cut_at sep s)) [
    | inl fails ↦ cc (rw (later, fails) at e)
    | inr (t, found) ↦
        subst (λ (x : Text × Text). NoNul x.1) (some-eq (rw (later, found) at e))
          (cut_at-NoNul sep s h found)
  ]
]

cut_at-none : (s : Text) → NoNul s → cut_at 0 s ≡ none
unfolding cut_at
cut_at-none [] h = refl
cut_at-none (c ∷ s) (hc, h) = rw (hc, cut_at-none s h)

bind-none {ℓ κ} :
    {A : Type ℓ} {B : Type κ} (m : Option A) (f : A → Option B)
    → ((a : A) → m ≡ some a → f a ≡ none)
    → (m >>= f) ≡ none
bind-none none f h = refl
bind-none (some a) f h = h a refl

bind_of_none {ℓ κ} :
    {A : Type ℓ} {B : Type κ} {m : Option A} (f : A → Option B) → m ≡ none → (m >>= f) ≡ none
bind_of_none f e = rw e

pub match_commit-NoNul : (s : Text) → NoNul s → match_commit s ≡ none
unfolding match_commit
match_commit-NoNul s h = bind-none _ _ (λ s₁ e₁.
    let h₁ = take_key-NoNul (codes "commit") s h e₁ in
    bind-none _ _ (λ s₂ e₂.
      let h₂ = take_key-NoNul [] _ (span_name-NoNul s₁ h₁) e₂ in
      bind-none _ _ (λ s₃ e₃.
        let h₃ = strip_prefix-NoNul (codes "<") s₂ h₂ e₃ in
        bind-none _ _ (λ s₄ e₄.
          let h₄ = strip_prefix-NoNul (codes ">\nauthor") _ (span_name-NoNul s₃ h₃) e₄ in
          bind-none _ _ (λ s₅ e₅.
            let h₅ = take_key-NoNul [] s₄ h₄ e₅ in
            bind-none _ _ (λ s₆ e₆.
              let h₆ = strip_prefix-NoNul (codes "<") s₅ h₅ e₆ in
              bind-none _ _ (λ name ename.
                let hname = cut_at-NoNul b'>' s₆ h₆ ename in
                bind-none _ _ (λ s₇ e₇.
                  let h₇ = take_key-NoNul [] name.1 hname e₇ in
                  bind-none _ _ (λ s₈ e₈.
                    let h₈ = strip_prefix-NoNul (codes "<") s₇ h₇ e₈ in
                    bind-none _ _ (λ email eemail.
                      let hemail = cut_at-NoNul b'>' s₈ h₈ eemail in
                      bind-none _ _ (λ s₉ e₉.
                        let h₉ = take_key-NoNul (codes "\nsubject") email.1 hemail e₉ in
                        bind-none _ _ (λ subject esubject.
                          let hsubject = cut_at-NoNul b'\n' s₉ h₉ esubject in
                          bind-none _ _ (λ s₁₀ e₁₀.
                            let h₁₀ = take_key-NoNul (codes "date") subject.1 hsubject e₁₀ in
                            bind-none _ _ (λ date edate.
                              let hdate = cut_at-NoNul b'\n' s₁₀ h₁₀ edate in
                              bind-none _ _ (λ s₁₁ e₁₁.
                                let h₁₁ = take_key-NoNul (codes "body") date.1 hdate e₁₁ in
                                bind_of_none _ (cut_at-none s₁₁ h₁₁))))))))))))))))
