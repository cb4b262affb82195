-- ===== src/Query/Loop/Total.antt =====
-- The loop of `ParseQuery` ends: each round that goes on leaves a shorter text.
use livegrep.Prelude.{
  ℕ, zero, suc, ◌≤◌, ◌<◌, ◌≡◌, refl, ap, ◌≢◌, inl, inr, Bool, true, false, some, [], ◌∷◌, ◌++◌,
  arith, Option-cases, Text, length, length-append,
}
use livegrep.Query.Group.{consume_group}
use livegrep.Query.Group.Split.{consume_group-append}
use livegrep.Query.Loop.{
  failed, rejected, parsed, finished, take_piece, LoopResult, on_end, parse_loop, round, continue,
  on_piece, ParseState,
}
use livegrep.Query.Piece.{find_piece, blank, paren, bracket, escape, operator, piece_text, Piece}
use livegrep.Query.Piece.Split.{find_piece-split}

piece_text-pos : (p : Piece) → 0 < length (piece_text p)
piece_text-pos bracket = omega arith
piece_text-pos paren = omega arith
piece_text-pos blank = omega arith
piece_text-pos (operator k) = omega (arith, length-append k (b':' ∷ []))
piece_text-pos (escape c) = omega arith

consume_group-le :
    (open' close : ℕ) (q : Text) → length (consume_group open' close 1 false q).1 ≤ length q
consume_group-le open' close q = omega (
  arith,
  ap length (consume_group-append open' close 1 false q),
  length-append (consume_group open' close 1 false q).0 (consume_group open' close 1 false q).1,
)

-- what a round does with a piece does not make the text longer
on_piece-le :
    (global_regex : Bool) (p : Piece) (s : ParseState) {s' : ParseState}
    → on_piece global_regex p s ≡ continue s'
    → length s'.q ≤ length s.q
on_piece-le global_regex bracket s e = ground (arith, consume_group-le b'[' b']' s.q)
on_piece-le global_regex paren s e = ground (arith, consume_group-le b'(' b')' s.q)
on_piece-le global_regex blank s e = ground arith
on_piece-le global_regex (operator k) s e = ground arith
on_piece-le global_regex (escape c) s e = ground arith

end-ne-continue : (s : ParseState) {s' : ParseState} → on_end s ≢ continue s'
end-ne-continue s e = ground arith

round-lt :
    (global_regex : Bool) (s : ParseState) {s' : ParseState}
    → round global_regex s ≡ continue s'
    → length s'.q < length s.q
unfolding round
round-lt global_regex s e = elim (Option-cases (find_piece true s.q)) [
  | inl n ↦ absurd (end-ne-continue s (rw (n, round) at e))
  | inr (m, em) ↦ omega (
    arith,
    on_piece-le global_regex m.piece (take_piece s m) (rw (em, round) at e),
    piece_text-pos m.piece,
    ap length (find_piece-split true s.q em),
    length-append m.before (piece_text m.piece ++ m.after),
    length-append (piece_text m.piece) m.after,
  )
]

-- With more fuel than characters the loop ends, by its result or by an error.
pub parse_loop_total :
    (fuel : ℕ) (global_regex : Bool) (s : ParseState)
    → length s.q < fuel
    → (r : LoopResult) × (parse_loop fuel global_regex s ≡ some r)
unfolding parse_loop
parse_loop_total zero global_regex s h = elim h [ ]
parse_loop_total (suc fuel) global_regex s h =
    (elim (round global_regex s)
        as (λ o.
          round global_regex s ≡ o
          → (r : LoopResult) × (parse_loop (suc fuel) global_regex s ≡ some r)) [
            | continue s' ↦ λ e.
                rw (e, parse_loop)
                  (parse_loop_total fuel global_regex s' (omega (arith, round-lt global_regex s e)))
            | finished ops ↦ λ e. (parsed ops, rw (e, parse_loop))
            | failed x ↦ λ e. (rejected x, rw (e, parse_loop))
          ])
      refl
