-- ===== src/Query/Loop.antt =====
-- The loop of `ParseQuery` of `server/query.go`. Each round takes a piece off the text, so fuel above
-- the length of the text is enough (Query/Loop/Total).
pub mod Total
use livegrep.GoText.Space.{trim_space}
use livegrep.Prelude.{
  ℕ, zero, suc, Bool, true, false, not, ◌&&◌, ◌||◌, Option, none, some, [], ◌∷◌, ◌++◌,
  if◌then◌else◌, Text, codes, text_eq,
}
use livegrep.Query.Group.{consume_group}
use livegrep.Query.Piece.{bracket, paren, blank, operator, escape, Piece, PieceMatch, find_piece}
use livegrep.Query.Types.{not_contiguous, QueryError, get_op, set_op, Ops, known_tags, term_twice}

pub record ParseState : Type 0 where
  pub ops : Ops
  pub key : Text
  pub term : Text
  pub q : Text
  pub in_regex : Bool
  pub just_got_space : Bool

pub data Round : Type 0 where
  continue : ParseState → Round
  finished : Ops → Round
  failed : QueryError → Round

abbrev pub is_set : Ops → Text → Bool
is_set ops k = elim (get_op ops k) [ none ↦ false | some v ↦ true ]

abbrev pub is_empty : Text → Bool
is_empty [] = true
is_empty (c ∷ s) = false

-- the state behind a match, before the match is looked at
abbrev pub take_piece : ParseState → PieceMatch → ParseState
take_piece s m = record s {
  term = s.term ++ m.before;
  q = m.after;
  just_got_space = s.just_got_space && is_empty m.before;
}

abbrev add_term : ParseState → Text → Round
add_term s t = continue (record s { term = s.term ++ t; just_got_space = false })

-- a space ends the operator, if there is one
abbrev pub on_space : Bool → ParseState → Round
on_space global_regex s =
    if is_empty s.key
    then continue (record s { term = s.term ++ b' ' ∷ []; just_got_space = true })
    else if is_set s.ops s.key
    then failed (term_twice s.key)
    else continue (record s {
      ops = set_op s.ops s.key s.term;
      key = [];
      term = [];
      in_regex = global_regex;
      just_got_space = true;
    })

-- a parenthesis or a bracket
abbrev pub on_group : ℕ → ℕ → ParseState → Round
on_group open' close s =
    if not (s.in_regex || s.just_got_space)
    then add_term s (open' ∷ [])
    else let group = consume_group open' close 1 false s.q in
      continue (record s { term = s.term ++ open' ∷ group.0; q = group.1; just_got_space = false })

-- the last test of an operator's branch, and the end of the round
abbrev lit_ends_regex : ParseState → Round
lit_ends_regex s = continue (record s {
  in_regex = if text_eq s.key (codes "lit") then false else s.in_regex;
  just_got_space = false;
})

abbrev pub on_operator : Text → ParseState → Round
on_operator new_key s =
    if is_empty s.key && known_tags new_key
    then if is_empty (trim_space s.term)
      then lit_ends_regex (record s { term = []; key = new_key })
      else if is_set s.ops s.key
      then failed not_contiguous
      else lit_ends_regex (record s { ops = set_op s.ops s.key s.term; term = []; key = new_key })
    else lit_ends_regex (record s { term = s.term ++ (new_key ++ b':' ∷ []) })

abbrev pub on_piece : Bool → Piece → ParseState → Round
on_piece global_regex blank s = on_space global_regex s
on_piece global_regex paren s = on_group b'(' b')' s
on_piece global_regex bracket s = on_group b'[' b']' s
on_piece global_regex (escape c) s = add_term s (b'\\' ∷ c ∷ [])
on_piece global_regex (operator k) s = on_operator k s

-- the text without a further piece ends the last term
abbrev pub on_end : ParseState → Round
on_end s =
    if is_set s.ops s.key
    then failed (term_twice s.key)
    else finished (set_op s.ops s.key (s.term ++ s.q))

unfoldable pub round : Bool → ParseState → Round
round global_regex s = elim (find_piece true s.q) [
  | none ↦ on_end s
  | some m ↦ on_piece global_regex m.piece (take_piece s m)
]

-- What the loop comes to; `none` means that the fuel ran out.
pub data LoopResult : Type 0 where
  parsed : Ops → LoopResult
  rejected : QueryError → LoopResult

unfoldable pub parse_loop : ℕ → Bool → ParseState → Option LoopResult
parse_loop zero global_regex s = none
parse_loop (suc fuel) global_regex s = elim (round global_regex s) [
  | continue s' ↦ parse_loop fuel global_regex s'
  | finished ops ↦ some (parsed ops)
  | failed e ↦ some (rejected e)
]

abbrev pub start_state : Bool → Text → ParseState
start_state global_regex q = record {
  ops = [];
  key = [];
  term = [];
  q = q;
  in_regex = global_regex;
  just_got_space = true;
}
