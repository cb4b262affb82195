-- ===== src/Query/Terms/Pieces.antt =====
-- The pieces that `pieceRE` finds in a query of plain terms.
use livegrep.GoText.Space.{is_space}
use livegrep.Prelude.{
  ℕ, ◌≡◌, refl, sym, ◌≢◌, inl, inr, Bool, true, false, none, some, List, [], ◌∷◌, ◌++◌, append-nil,
  arith, ◌==◌, Bool-cases, Text, text_eq, text_eq_iff, All,
}
use livegrep.Query.Piece.{
  Piece, match_colon, operator, blank, match_operator, find_piece, is_key_char, match_here,
  span_key,
}
use livegrep.Query.Terms.{is_plain}
use livegrep.Query.Types.{known_tag_list, contains_text, known_tags}
use mathlib.Core.Path.{subst}

abbrev starts_colon : Text → Bool
starts_colon [] = false
starts_colon (c ∷ s) = c == b':'

match_colon-none : (d r : Text) → starts_colon r ≡ false → match_colon d r ≡ none
match_colon-none [] r h = refl
match_colon-none (k ∷ ks) [] h = refl
match_colon-none (k ∷ ks) (c ∷ r) h = rw h

-- the text that may stand behind a value: nothing, or a blank and more
abbrev pub EndsValue : Text → Type 0
EndsValue [] = Unit
EndsValue (c ∷ r) = c ≡ b' '

span_key-starts_colon :
    (v r : Text)
    → All (λ c. is_plain c ≡ true) v
    → EndsValue r
    → starts_colon (span_key (v ++ r)).1 ≡ false
unfolding span_key is_space
span_key-starts_colon [] [] h e = refl
span_key-starts_colon [] (c ∷ r) h e = ground arith
span_key-starts_colon (c ∷ v) r (p, h) e = ground (arith, span_key-starts_colon v r h e)

match_here-plain :
    (start : Bool) (c : ℕ) (v r : Text)
    → is_plain c ≡ true
    → All (λ c. is_plain c ≡ true) v
    → EndsValue r
    → match_here start (c ∷ (v ++ r)) ≡ none
unfolding match_here match_operator is_space
match_here-plain start c v r p h e = ground (
  arith,
  match_colon-none (span_key (c ∷ (v ++ r))).0 (span_key (c ∷ (v ++ r))).1,
  span_key-starts_colon (c ∷ v) r (p, h) e,
)

-- Behind plain characters the next piece is the blank.
pub find_piece-plain :
    (start : Bool) (v rest : Text)
    → All (λ c. is_plain c ≡ true) v
    → find_piece start (v ++ (b' ' ∷ rest))
      ≡ some (record { before = v; piece = blank; after = rest })
unfolding find_piece
find_piece-plain start [] rest h = unfold match_here in refl
find_piece-plain start (c ∷ v) rest (p, h) =
    rw (
      match_here-plain start c v (b' ' ∷ rest) p h refl,
      find_piece,
      find_piece-plain false v rest h,
    )

-- Plain characters alone hold no piece.
pub find_piece-plain_end :
    (start : Bool) (v : Text) → All (λ c. is_plain c ≡ true) v → find_piece start v ≡ none
unfolding find_piece
find_piece-plain_end start [] h = refl
find_piece-plain_end start (c ∷ v) (p, h) =
    rw (none_here, find_piece, find_piece-plain_end false v h)
  where
    none_here : match_here start (c ∷ v) ≡ none
    none_here = rw append-nil at (match_here-plain start c v [] p h tt)

abbrev pub IsKey : Text → Type 0
IsKey k = All (λ c. is_key_char c ≡ true) k × (k ≢ [])

contains_text-IsKey :
    (k : Text) (ts : List Text) → All IsKey ts → contains_text k ts ≡ true → IsKey k
unfolding contains_text
contains_text-IsKey k [] h e = cc
contains_text-IsKey k (t ∷ ts) (p, h) e = elim (Bool-cases (text_eq k t)) [
  | inl x ↦ subst IsKey (sym ((text_eq_iff k t).0 x)) p
  | inr x ↦ contains_text-IsKey k ts h (rw (x, contains_text) at e)
]

-- Every known operator is a key.
pub known_tags-IsKey : (k : Text) → known_tags k ≡ true → IsKey k
unfolding known_tags is_key_char
known_tags-IsKey k e = contains_text-IsKey k known_tag_list (ground arith) e

span_key-colon :
    (k rest : Text)
    → All (λ c. is_key_char c ≡ true) k
    → span_key (k ++ (b':' ∷ rest)) ≡ (k, b':' ∷ rest)
unfolding span_key
span_key-colon [] rest h = unfold is_key_char in refl
span_key-colon (c ∷ k) rest (p, h) = rw (p, span_key-colon k rest h)

-- a key character begins none of the other pieces
match_here-key :
    (c : ℕ) (r : Text) → is_key_char c ≡ true → match_here true (c ∷ r) ≡ match_operator (c ∷ r)
unfolding match_here is_key_char
match_here-key c r h = ground arith

match_here-IsKey :
    (k rest : Text) → IsKey k → match_here true (k ++ (b':' ∷ rest)) ≡ some (operator k, rest)
unfolding match_operator
match_here-IsKey [] rest (h, ne) = absurd (ne refl)
match_here-IsKey (c ∷ k) rest ((p, h), ne) =
    rw (match_here-key c (k ++ (b':' ∷ rest)) p, span_key-colon (c ∷ k) rest (p, h))

find_piece-here :
    (c : ℕ) (r : Text) (p : Piece) (after : Text)
    → match_here true (c ∷ r) ≡ some (p, after)
    → find_piece true (c ∷ r) ≡ some (record { before = []; piece = p; after = after })
unfolding find_piece
find_piece-here c r p after e = rw (e, find_piece)

-- A known operator at the beginning of the text is the first piece.
pub find_piece-known :
    (k rest : Text)
    → known_tags k ≡ true
    → find_piece true (k ++ (b':' ∷ rest))
      ≡ some (record { before = []; piece = operator k; after = rest })
find_piece-known [] rest e = absurd ((known_tags-IsKey [] e).1 refl)
find_piece-known (c ∷ k) rest e =
    find_piece-here c (k ++ (b':' ∷ rest)) (operator (c ∷ k)) rest
      (match_here-IsKey (c ∷ k) rest (known_tags-IsKey (c ∷ k) e))
