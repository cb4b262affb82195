-- ===== src/Query/Piece/Split.antt =====
-- A match of `pieceRE` splits the text.
use livegrep.Prelude.{
  append_assoc, ◌≡◌, refl, sym, ap, ◌∙◌, inl, inr, Bool, false, none, some, [], ◌∷◌, ◌++◌, arith,
  Option-cases, some-eq, Text,
}
use livegrep.Query.Piece.{
  match_colon, match_escape, match_operator, PieceMatch, piece_text, Piece, find_piece, match_here,
  span_key,
}
use mathlib.Core.Path.{subst}

span_key-append : (s : Text) → (span_key s).0 ++ (span_key s).1 ≡ s
unfolding span_key
span_key-append [] = refl
span_key-append (c ∷ s) = ground (arith, span_key-append s)

match_colon-split :
    (d r : Text) {p : Piece} {after : Text}
    → match_colon d r ≡ some (p, after)
    → d ++ r ≡ piece_text p ++ after
match_colon-split [] r e = cc
match_colon-split (k ∷ ks) [] e = cc
match_colon-split (k ∷ ks) (c ∷ r) {p} {after} e =
    ground (arith, append_assoc (k ∷ ks) (b':' ∷ []) after)

match_operator-split :
    (q : Text) {p : Piece} {after : Text}
    → match_operator q ≡ some (p, after)
    → q ≡ piece_text p ++ after
unfolding match_operator
match_operator-split q e =
    sym (span_key-append q) ∙ match_colon-split (span_key q).0 (span_key q).1 e

match_escape-split :
    (r : Text) {p : Piece} {after : Text}
    → match_escape r ≡ some (p, after)
    → b'\\' ∷ r ≡ piece_text p ++ after
match_escape-split [] e = cc
match_escape-split (c ∷ r) e = ground arith

match_here-split :
    (start : Bool) (q : Text) {p : Piece} {after : Text}
    → match_here start q ≡ some (p, after)
    → q ≡ piece_text p ++ after
unfolding match_here
match_here-split start [] e = cc
match_here-split start (c ∷ r) {p} {after} e = ground (
  arith,
  match_operator-split (c ∷ r) {p = p} {after = after},
  match_escape-split r {p = p} {after = after},
)

-- Where a piece is found, the text before the match, the match and the text behind it are the text.
pub find_piece-split :
    (start : Bool) (q : Text) {m : PieceMatch}
    → find_piece start q ≡ some m
    → q ≡ m.before ++ (piece_text m.piece ++ m.after)
unfolding find_piece
find_piece-split start [] e = cc
find_piece-split start (c ∷ r) {m} e =
    (elim (match_here start (c ∷ r))
        as (λ o.
          match_here start (c ∷ r) ≡ o → c ∷ r ≡ m.before ++ (piece_text m.piece ++ m.after)) [
            | some (p, after) ↦ λ h.
                subst (λ (m : PieceMatch). c ∷ r ≡ m.before ++ (piece_text m.piece ++ m.after))
                  (some-eq (rw (h, find_piece) at e)) (match_here-split start (c ∷ r) h)
            | none ↦ λ h. elim (Option-cases (find_piece false r)) [
              | inl n ↦ absurd (cc (let e' = rw (h, n, find_piece) at e in e'))
              | inr (m', em) ↦
                  subst (λ (m : PieceMatch). c ∷ r ≡ m.before ++ (piece_text m.piece ++ m.after))
                    (some-eq (rw (h, em, find_piece) at e))
                    (ap (λ s. c ∷ s) (find_piece-split false r em))
            ]
          ])
      refl
