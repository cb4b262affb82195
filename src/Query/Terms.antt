-- ===== src/Query/Terms.antt =====
-- Queries of operators with plain values, as a user types them: `file:a -repo:b`. They are the inputs
-- of the round trip for `ParseQuery` of `server/query.go`.
pub mod Pieces
pub mod Loop
pub mod RoundTrip
use livegrep.GoText.Space.{is_space}
use livegrep.Prelude.{ℕ, ◌≡◌, ◌≢◌, Bool, true, not, ◌&&◌, none, [], ◌∷◌, ◌++◌, ◌==◌, Text, All}
use livegrep.Query.Types.{get_op, Ops, known_tags}

-- a character that neither ends a value nor begins a piece
abbrev pub is_plain : ℕ → Bool
is_plain c =
    not (c == b'[') && not (c == b'(') && not (c == b'\\') && not (c == b':') && not (is_space c)

-- A known operator and a value of plain characters, one at least.
pub record IsTerm (t : Text × Text) : Type 0 where
  pub known : known_tags t.0 ≡ true
  pub plain : All (λ c. is_plain c ≡ true) t.1
  pub value_ne_nil : t.1 ≢ []

-- No operator is given twice.
abbrev pub Distinct : Ops → Type 0
Distinct [] = Unit
Distinct ((k, v) ∷ ts) = (get_op ts k ≡ none) × Distinct ts

abbrev pub render_term : Text × Text → Text → Text
render_term t rest = t.0 ++ (b':' ∷ (t.1 ++ rest))

-- the terms with a blank between them
abbrev pub render_terms : Ops → Text
render_terms [] = []
render_terms (t ∷ []) = render_term t []
render_terms (t ∷ (u ∷ ts)) = render_term t (b' ' ∷ render_terms (u ∷ ts))
