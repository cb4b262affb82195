-- ===== src/Query/Piece.antt =====
-- `pieceRE` of `server/query.go`, `\[|\(|(?:^([a-zA-Z0-9-_]+):|\\.)| `, and its leftmost match. The
-- text is a list of code points.
pub mod Split
use livegrep.Prelude.{
  ℕ, Bool, false, ◌&&◌, ◌||◌, Option, none, some, [], ◌∷◌, ◌++◌, leb, ◌==◌, if◌then◌else◌, Text,
}

-- what matched: a bracket, a parenthesis, a blank, an operator with its key, or an escaped character
pub data Piece : Type 0 where
  bracket paren blank : Piece
  operator : Text → Piece
  escape : ℕ → Piece

-- the matched text
abbrev pub piece_text : Piece → Text
piece_text bracket = b'[' ∷ []
piece_text paren = b'(' ∷ []
piece_text blank = b' ' ∷ []
piece_text (operator k) = k ++ b':' ∷ []
piece_text (escape c) = b'\\' ∷ c ∷ []

unfoldable pub is_key_char : ℕ → Bool
is_key_char c =
    (leb b'a' c && leb c b'z')
    || (leb b'A' c && leb c b'Z')
    || (leb b'0' c && leb c b'9')
    || c == b'-'
    || c == b'_'

unfoldable pub span_key : Text → Text × Text
unfolding is_key_char
span_key [] = ([], [])
span_key (c ∷ s) =
    let rest = span_key s in if is_key_char c then (c ∷ rest.0, rest.1) else ([], c ∷ s)

-- a key of at least one character, with a colon behind it
abbrev pub match_colon : Text → Text → Option (Piece × Text)
match_colon [] r = none
match_colon (k ∷ ks) [] = none
match_colon (k ∷ ks) (c ∷ r) = if c == b':' then some (operator (k ∷ ks), r) else none

unfoldable pub match_operator : Text → Option (Piece × Text)
match_operator q = match_colon (span_key q).0 (span_key q).1

-- `\\.`: the dot matches any character but a newline
abbrev match_escape : Text → Option (Piece × Text)
match_escape [] = none
match_escape (c ∷ r) = if c == b'\n' then none else some (escape c, r)

-- a match that begins here; `start` tells whether this is the beginning of the text
unfoldable pub match_here : Bool → Text → Option (Piece × Text)
match_here start [] = none
match_here start (c ∷ r) =
    if c == b'['
    then some (bracket, r)
    else if c == b'('
    then some (paren, r)
    else if c == b'\\'
    then match_escape r
    else if c == b' '
    then some (blank, r)
    else if start
    then match_operator (c ∷ r)
    else none

pub record PieceMatch : Type 0 where
  pub before : Text
  pub piece : Piece
  pub after : Text

-- `pieceRE.FindStringSubmatchIndex(q)`, with the text before the match and the text behind it
unfoldable pub find_piece : Bool → Text → Option PieceMatch
find_piece start [] = none
find_piece start (c ∷ r) =
    let later = find_piece false r in
    elim (match_here start (c ∷ r)) [
      | some (p, after) ↦ some (record { before = []; piece = p; after = after })
      | none ↦ elim later [ none ↦ none | some m ↦ some (record m { before = c ∷ m.before }) ]
    ]
