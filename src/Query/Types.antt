-- ===== src/Query/Types.antt =====
-- The query that `ParseQuery` of `server/query.go` fills in (the fields of the protocol buffer that it
-- sets), its errors, and its table of operators.
use livegrep.Prelude.{
  ℕ, Bool, true, false, Option, none, some, List, [], ◌∷◌, if◌then◌else◌, Text, codes, text_eq,
}

pub record Query : Type 0 where
  pub line : Text
  pub file : Text
  pub repo : Text
  pub tags : Text
  pub fold_case : Bool
  pub not_file : Text
  pub not_repo : Text
  pub not_tags : Text
  -- an int32, as its bit pattern
  pub max_matches : ℕ
  pub filename_only : Bool
  pub treename_only : Bool

abbrev pub empty_query : Query
empty_query = record {
  line = [];
  file = [];
  repo = [];
  tags = [];
  fold_case = false;
  not_file = [];
  not_repo = [];
  not_tags = [];
  max_matches = 0;
  filename_only = false;
  treename_only = false;
}

pub data QueryError : Type 0 where
  both_synonyms : Text → Text → QueryError
  term_twice : Text → QueryError
  not_contiguous multiple_patterns bad_max_matches : QueryError

abbrev pub known_tag_list : List Text
known_tag_list =
    codes "file"
    ∷ codes "-file"
    ∷ codes "path"
    ∷ codes "-path"
    ∷ codes "repo"
    ∷ codes "-repo"
    ∷ codes "tags"
    ∷ codes "-tags"
    ∷ codes "case"
    ∷ codes "lit"
    ∷ codes "max_matches"
    ∷ []

unfoldable pub contains_text : Text → List Text → Bool
unfolding text_eq
contains_text k [] = false
contains_text k (t ∷ ts) = if text_eq k t then true else contains_text k ts

-- `knownTags[newKey]`
unfoldable pub known_tags : Text → Bool
unfolding contains_text
known_tags k = contains_text k known_tag_list

-- The map `ops`. An operator is set at most once, so an entry is never overwritten.
abbrev pub Ops : Type 0
Ops = List (Text × Text)

unfoldable pub get_op : Ops → Text → Option Text
get_op [] k = none
get_op ((j, v) ∷ ops) k = if text_eq j k then some v else get_op ops k

-- The map as the code behind the loop reads it.
abbrev pub Lookup : Type 0
Lookup = Text → Option Text

-- `ops[k]`: the empty text where `k` is not set
abbrev pub op_text : Lookup → Text → Text
op_text ops k = elim (ops k) [ none ↦ [] | some v ↦ v ]

-- `_, ok := ops[k]`
abbrev pub is_given : Lookup → Text → Bool
is_given ops k = elim (ops k) [ none ↦ false | some v ↦ true ]

abbrev pub set_op : Ops → Text → Text → Ops
set_op ops k v = (k, v) ∷ ops
