-- ===== src/Query/Group/Split.antt =====
-- The inner loop of `ParseQuery` splits the text, and stops as soon as the group is balanced.
use livegrep.Prelude.{ℕ, ◌≡◌, refl, Bool, [], ◌∷◌, ◌++◌, arith, Text}
use livegrep.Query.Group.{next_esc, next_depth, consume_group}

-- Consuming a group loses nothing: what is written and what is left are the text.
pub consume_group-append :
    (open' close depth : ℕ) (esc : Bool) (q : Text)
    → (consume_group open' close depth esc q).0 ++ (consume_group open' close depth esc q).1 ≡ q
unfolding consume_group
consume_group-append open' close depth esc [] = refl
consume_group-append open' close depth esc (r ∷ q) = ground (
  arith,
  consume_group-append open' close (next_depth open' close depth esc r) (next_esc esc r) q,
)
