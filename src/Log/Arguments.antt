-- ===== src/Log/Arguments.antt =====
-- `CommitOptions`, `ensureSafeSpecArg` and `genLogArgs` of `server/fileviewer/fileview.go`. The error is
-- `none`. The field `NoEnsureRevision` is never read.
pub mod Safe
use livegrep.GoText.Decimal.{print_ℕ}
use livegrep.GoText.Prefix.{has_prefix}
use livegrep.Prelude.{
  ℕ, Bool, true, false, not, Option, none, some, List, [], ◌∷◌, ◌++◌, ◌==◌, if◌then◌else◌, Text,
  codes,
}

pub record CommitOptions : Type 0 where
  pub range : Text
  pub n : ℕ
  pub skip_n : ℕ
  pub path : Text
  pub follow : Bool
  pub name_only : Bool

abbrev pub is_nil : Text → Bool
is_nil [] = true
is_nil (c ∷ s) = false

-- the error, if any
unfoldable pub ensure_safe_spec_arg : Text → Bool
unfolding has_prefix
ensure_safe_spec_arg spec = not (has_prefix spec (codes "-"))

abbrev pub path_args : CommitOptions → List Text
path_args opts = if is_nil opts.path then [] else codes "--" ∷ opts.path ∷ []

abbrev pub flag_args : Bool → Text → List Text
flag_args b flag = if b then flag ∷ [] else []

abbrev pub number_args : ℕ → Text → List Text
number_args n flag = if n == 0 then [] else flag ∷ print_ℕ n ∷ []

abbrev pub range_args : Text → List Text
range_args range = if is_nil range then [] else range ∷ []

-- what the six tests append, in order
abbrev pub option_args : CommitOptions → List Text
option_args opts =
    number_args opts.n (codes "-n")
    ++ (number_args opts.skip_n (codes "--skip")
        ++ (range_args opts.range
            ++ (flag_args opts.name_only (codes "--name-only")
                ++ (flag_args opts.follow (codes "--follow") ++ path_args opts))))

unfoldable pub gen_log_args : CommitOptions → List Text → Option (List Text)
gen_log_args opts initial_args =
    if ensure_safe_spec_arg opts.range then some (initial_args ++ option_args opts) else none
