-- ===== src/Call.antt =====
-- The outcome of a Go call that returns a value and an error, and that can panic. An error is its text. What
-- a subprocess writes is a parameter: the output of a list of arguments, or the text of the error.
use livegrep.Prelude.{Option, none, some, List, Text}
use livegrep.Runtime.{panic, ret, PanicReason, Run}

pub data Call {ℓ} (A : Type ℓ) : Type ℓ where
  value : A → Call A
  error : Text → Call A
  panics : PanicReason → Call A

infixl 5 ◌>>=◌
abbrev pub ◌>>=◌ {ℓ κ} : {A : Type ℓ} {B : Type κ} → Call A → (A → Call B) → Call B
value a >>= f = f a
error e >>= f = error e
panics r >>= f = panics r

-- a call that has no error
abbrev pub of_run {ℓ} : {A : Type ℓ} → Run A → Call A
of_run (ret a) = value a
of_run (panic r) = panics r

-- a command by its arguments behind the name `git`
abbrev pub Git : Type 0
Git = List Text → Call Text

-- a result that is thrown away where there is an error
abbrev pub to_option {ℓ} : {A : Type ℓ} → Call A → Option A
to_option (value a) = some a
to_option (error e) = none
to_option (panics r) = none

abbrev pub map_option {ℓ κ} : {A : Type ℓ} {B : Type κ} → (A → B) → Option A → Option B
map_option f none = none
map_option f (some a) = some (f a)
