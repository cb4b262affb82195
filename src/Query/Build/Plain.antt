-- ===== src/Query/Build/Plain.antt =====
-- A query that holds no piece of the query language is searched for as it stands.
use livegrep.GoText.Regexp.{quote_meta}
use livegrep.GoText.Space.{trim_space}
use livegrep.GoText.Space.Trim.{trim_space_nil, trim_space_idem}
use livegrep.Prelude.{
  ◌+◌, ◌≡◌, refl, ap, ◌∙◌, Bool, true, false, not, none, some, List, [], ◌∷◌, append-nil,
  if◌then◌else◌, Text, text_eq, length,
}
use livegrep.Query.Build.{
  build_line, has_upper, choose_line, done, line_bits, only_one_synonym, build_query, parse_query,
}
use livegrep.Query.Loop.{is_empty, parsed, start_state, round, parse_loop}
use livegrep.Query.Piece.{find_piece}
use livegrep.Query.Types.{empty_query, get_op}
use native.Mathlib.Numerals.{add-one}

-- what is searched for: the trimmed text, quoted unless it is a regular expression
abbrev pub searched : Bool → Text → Text
searched global_regex text = if global_regex then trim_space text else quote_meta (trim_space text)

plain_loop :
    (global_regex : Bool) (q : Text)
    → find_piece true q ≡ none
    → parse_loop (length q + 1) global_regex (start_state global_regex q)
      ≡ some (parsed (([], q) ∷ []))
unfolding parse_loop round get_op find_piece
plain_loop global_regex q e = rw (add-one (length q), e, round)

abbrev bits_of : Text → List Text
bits_of t = if is_empty t then [] else t ∷ []

line_bits_plain :
    (global_regex : Bool) (text : Text)
    → line_bits global_regex (get_op (([], trim_space text) ∷ []))
      ≡ bits_of (searched global_regex text)
unfolding line_bits get_op text_eq quote_meta
line_bits_plain true text = rw (trim_space_idem text, trim_space_nil, append-nil)
line_bits_plain false text = rw (trim_space_idem text, trim_space_nil, append-nil)

-- a query of one bit, or of none
build_line_plain :
    (global_regex : Bool) (text line : Text)
    → build_line global_regex (get_op (([], text) ∷ [])) empty_query (bits_of line)
      ≡ done (record empty_query { line = line; fold_case = not (has_upper line) })
unfolding get_op text_eq choose_line quote_meta
build_line_plain true text [] = refl
build_line_plain true text (c ∷ s) = refl
build_line_plain false text [] = refl
build_line_plain false text (c ∷ s) = refl

build_plain :
    (global_regex : Bool) (text : Text)
    → build_query global_regex (get_op (([], trim_space text) ∷ []))
      ≡ done (record empty_query {
        line = searched global_regex text;
        fold_case = not (has_upper (searched global_regex text));
      })
unfolding build_query only_one_synonym get_op text_eq
build_plain global_regex text =
    ap (build_line global_regex (get_op (([], trim_space text) ∷ [])) empty_query)
      (line_bits_plain global_regex text)
    ∙ build_line_plain global_regex (trim_space text) (searched global_regex text)

-- A trimmed text that holds no piece of the query language is searched for as it stands, quoted
-- unless it is a regular expression, with case folding unless it holds an upper-case letter.
pub parse_query-plain :
    (text : Text) (global_regex : Bool)
    → find_piece true (trim_space text) ≡ none
    → parse_query text global_regex
      ≡ some (
          done (record empty_query {
            line = searched global_regex text;
            fold_case = not (has_upper (searched global_regex text));
          }))
unfolding parse_query
parse_query-plain text global_regex e =
    rw (plain_loop global_regex (trim_space text) e) (ap some (build_plain global_regex text))
