-- ===== src/Log/Arguments/Safe.antt =====
-- What a user gives never becomes an option of `git log`.
use livegrep.GoText.Decimal.{print_ℕ}
use livegrep.GoText.Prefix.{has_prefix}
use livegrep.Log.Arguments.{
  flag_args, number_args, option_args, path_args, range_args, is_nil, ensure_safe_spec_arg,
  CommitOptions, gen_log_args,
}
use livegrep.Prelude.{
  ℕ, ◌≡◌, refl, ◌↔◌, inl, inr, Bool, true, false, Option, none, some, List, [], ◌∷◌, ◌++◌,
  append-nil, arith, ◌==◌, if◌then◌else◌, Bool-cases, some-eq, Text, codes, text_eq,
}
use mathlib.Core.Path.{subst}

-- What git reads from the command line: options with their values, revisions, and paths behind `--`.
pub record LogRequest : Type 0 where
  pub max_count : Option Text
  pub skip : Option Text
  pub revisions : List Text
  pub name_only : Bool
  pub follow : Bool
  pub unknown_options : List Text
  pub paths : List Text

abbrev pub empty_request : LogRequest
empty_request = record {
  max_count = none;
  skip = none;
  revisions = [];
  name_only = false;
  follow = false;
  unknown_options = [];
  paths = [];
}

abbrev with_plain : Text → LogRequest → LogRequest
with_plain a r =
    if has_prefix a (codes "-")
    then (if text_eq a (codes "--name-only")
        then record r { name_only = true }
        else if text_eq a (codes "--follow")
        then record r { follow = true }
        else record r { unknown_options = a ∷ r.unknown_options })
    else record r { revisions = a ∷ r.revisions }

abbrev single : Text → LogRequest
single a = if text_eq a (codes "--") then empty_request else with_plain a empty_request

-- `-n` and `--skip` take the next argument as their value.
unfoldable pub read_log_args : List Text → LogRequest
unfolding has_prefix text_eq
read_log_args [] = empty_request
read_log_args (a ∷ []) = single a
read_log_args (a ∷ (b ∷ args)) =
    let behind_value = read_log_args args in
    let behind = read_log_args (b ∷ args) in
    if text_eq a (codes "--")
    then record empty_request { paths = b ∷ args }
    else if text_eq a (codes "-n")
    then record behind_value { max_count = some b }
    else if text_eq a (codes "--skip")
    then record behind_value { skip = some b }
    else with_plain a behind

-- What the options ask for.
abbrev pub requested : CommitOptions → LogRequest
requested opts = record {
  max_count = if opts.n == 0 then none else some (print_ℕ opts.n);
  skip = if opts.skip_n == 0 then none else some (print_ℕ opts.skip_n);
  revisions = if is_nil opts.range then [] else opts.range ∷ [];
  name_only = opts.name_only;
  follow = opts.follow;
  unknown_options = [];
  paths = if is_nil opts.path then [] else opts.path ∷ [];
}

read_path :
    (opts : CommitOptions)
    → read_log_args (path_args opts)
      ≡ record empty_request { paths = if is_nil opts.path then [] else opts.path ∷ [] }
unfolding read_log_args
read_path opts = elim (Bool-cases (is_nil opts.path)) [ inl e ↦ rw e | inr e ↦ rw e ]

read_follow :
    (b : Bool) (rest : List Text)
    → read_log_args (flag_args b (codes "--follow") ++ rest)
      ≡ record (read_log_args rest) { follow = if b then true else (read_log_args rest).follow }
unfolding read_log_args
read_follow false rest = refl
read_follow true [] = refl
read_follow true (a ∷ rest) = refl

read_name_only :
    (b : Bool) (rest : List Text)
    → read_log_args (flag_args b (codes "--name-only") ++ rest) ≡ record (read_log_args rest) {
      name_only = if b then true else (read_log_args rest).name_only;
    }
unfolding read_log_args
read_name_only false rest = refl
read_name_only true [] = refl
read_name_only true (a ∷ rest) = refl

no_option :
    (range : Text)
    → has_prefix range (codes "-") ≡ false
    → (text_eq range (codes "--") ≡ false)
      × (text_eq range (codes "-n") ≡ false)
      × (text_eq range (codes "--skip") ≡ false)
unfolding has_prefix text_eq
no_option [] h = (refl, refl, refl)
no_option (c ∷ s) h = ground arith

read_revision :
    (range : Text) (rest : List Text)
    → has_prefix range (codes "-") ≡ false
    → read_log_args (range ∷ rest)
      ≡ record (read_log_args rest) { revisions = range ∷ (read_log_args rest).revisions }
unfolding read_log_args
read_revision range [] h = rw ((no_option range h).0, h)
read_revision range (a ∷ rest) h =
    let (x, y, z) = no_option range h in rw (read_log_args, x, y, z, h)

read_range :
    (range : Text) (rest : List Text)
    → has_prefix range (codes "-") ≡ false
    → read_log_args (range_args range ++ rest) ≡ record (read_log_args rest) {
      revisions = range_args range ++ (read_log_args rest).revisions;
    }
read_range [] rest h = refl
read_range (c ∷ s) rest h = read_revision (c ∷ s) rest h

read_skip :
    (n : ℕ) (rest : List Text)
    → read_log_args (number_args n (codes "--skip") ++ rest) ≡ record (read_log_args rest) {
      skip = if n == 0 then (read_log_args rest).skip else some (print_ℕ n);
    }
unfolding read_log_args
read_skip n rest = elim (Bool-cases (n == 0)) [ inl e ↦ rw e | inr e ↦ rw e ]

read_count :
    (n : ℕ) (rest : List Text)
    → read_log_args (number_args n (codes "-n") ++ rest) ≡ record (read_log_args rest) {
      max_count = if n == 0 then (read_log_args rest).max_count else some (print_ℕ n);
    }
unfolding read_log_args
read_count n rest = elim (Bool-cases (n == 0)) [ inl e ↦ rw e | inr e ↦ rw e ]

if_eta : (b : Bool) → (if b then true else false) ≡ b
if_eta true = refl
if_eta false = refl

read_options :
    (opts : CommitOptions)
    → has_prefix opts.range (codes "-") ≡ false
    → read_log_args (option_args opts) ≡ requested opts
read_options opts h = rw (
  read_count opts.n _,
  read_skip opts.skip_n _,
  read_range opts.range _ h,
  read_name_only opts.name_only _,
  read_follow opts.follow (path_args opts),
  read_path opts,
  if_eta opts.follow,
  if_eta opts.name_only,
  append-nil,
)

-- Where `genLogArgs` gives arguments from an empty list, git reads from them exactly what the
-- options ask for: no range or path is taken for an option.
pub read_log_args-gen_log_args :
    (opts : CommitOptions) {args : List Text}
    → gen_log_args opts [] ≡ some args
    → read_log_args args ≡ requested opts
unfolding gen_log_args ensure_safe_spec_arg read_log_args
read_log_args-gen_log_args opts e = elim (Bool-cases (has_prefix opts.range (codes "-"))) [
  | inl x ↦ absurd (cc (let e' = rw x at e in e'))
  | inr x ↦
      subst (λ args. read_log_args args ≡ requested opts) (some-eq (rw x at e))
        (read_options opts x)
]

-- `genLogArgs` fails exactly where the range begins with a dash.
pub gen_log_args-none :
    (opts : CommitOptions) (initial_args : List Text)
    → (gen_log_args opts initial_args ≡ none) ↔ (has_prefix opts.range (codes "-") ≡ true)
unfolding gen_log_args ensure_safe_spec_arg
gen_log_args-none opts initial_args = ground arith
