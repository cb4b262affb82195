-- ===== src/Query/Group.antt =====
-- The inner loop of `ParseQuery` of `server/query.go`: it consumes a balanced group.
pub mod Split
use livegrep.Prelude.{ℕ, ◌+◌, ◌-◌, Bool, false, [], ◌∷◌, ◌==◌, if◌then◌else◌, Text}

-- `depth` is `p`, and `esc` tells that the character before was a backslash.
unfoldable pub next_depth : ℕ → ℕ → ℕ → Bool → ℕ → ℕ
next_depth open' close depth esc r =
    if esc
    then depth
    else if r == b'\\'
    then depth
    else if r == open'
    then depth + 1
    else if r == close
    then depth - 1
    else depth

abbrev pub next_esc : Bool → ℕ → Bool
next_esc esc r = if esc then false else r == b'\\'

-- what is written to the buffer, and what is left of the text
unfoldable pub consume_group : ℕ → ℕ → ℕ → Bool → Text → Text × Text
unfolding next_depth
consume_group open' close depth esc [] = ([], [])
consume_group open' close depth esc (r ∷ q) =
    let rest = consume_group open' close (next_depth open' close depth esc r) (next_esc esc r) q in
    if next_depth open' close depth esc r == 0 then (r ∷ [], q) else (r ∷ rest.0, rest.1)
