-- ===== src/Search/Merge.antt =====
-- `server/api.go`: the first loop of `doSearchV2`, which puts the hits of one file together.
pub mod Files
pub mod Lines
use livegrep.Dict.{number_key, text_key}
use livegrep.Api.{convert_bounds, reverse_strings}
use livegrep.Dict.{lookup, insert, Dict}
use livegrep.GoText.Decimal.{increment, word}
use livegrep.Prelude.{
  ℕ, ◌+◌, ◌-◌, ◌%◌, Bool, true, false, Option, none, some, List, [], ◌∷◌, ◌++◌, ltb, ◌==◌,
  if◌then◌else◌, Text, codes, length,
}
use livegrep.Search.{ResultV2, ResultLine, SearchHit}

-- `fmt.Sprintf("%s-%s", r.Tree, r.Path)`
unfoldable pub result_key : SearchHit → Text
result_key r = r.tree ++ codes "-" ++ r.path

-- `idx + lineNumber - len(r.ContextBefore)` at index 0
abbrev pub first_line_number : SearchHit → ℕ
first_line_number r = (r.line_number + (word - length r.context_before % word)) % word

abbrev pub context_texts : SearchHit → List Text
context_texts r = reverse_strings r.context_before ++ r.line ∷ r.context_after

-- the bounds that a line of the hit brings
abbrev pub hit_bounds : SearchHit → ℕ → List (ℕ × ℕ)
hit_bounds r lno = if lno == r.line_number then convert_bounds r.bounds else []

-- "defer to the existing bounds information"
abbrev pub choose_bounds : Bool → Option ResultLine → List (ℕ × ℕ) → List (ℕ × ℕ)
choose_bounds false old bounds = bounds
choose_bounds true none bounds = bounds
choose_bounds true (some old) bounds =
    if ltb (length bounds) (length old.bounds) then old.bounds else bounds

-- the loop over the lines of a hit, from the line number `lno` on
unfoldable pub merge_lines :
    Bool → SearchHit → ℕ → List Text → Dict ℕ ResultLine → Dict ℕ ResultLine
merge_lines present r lno [] lines = lines
merge_lines present r lno (text ∷ texts) lines = merge_lines present r (increment lno) texts (
    insert lno
      (record {
        line_number = lno;
        bounds = choose_bounds present (lookup lno lines) (hit_bounds r lno);
        line = text;
      })
      lines)

abbrev pub new_result : SearchHit → ResultV2
new_result r = record {
  tree = r.tree;
  version = r.version;
  path = r.path;
  lines = [];
  context_lines = [];
  num_matches = 0;
}

abbrev pub add_hit : Bool → SearchHit → ResultV2 → ResultV2
add_hit present r old = record old {
  context_lines = merge_lines present r (first_line_number r) (context_texts r) old.context_lines;
  num_matches = (old.num_matches + r.num_matches) % word;
}

-- what stands in the map for the file of the hit, after the hit
abbrev pub merged : SearchHit → Option ResultV2 → ResultV2
merged r none = add_hit false r (new_result r)
merged r (some old) = add_hit true r old

unfoldable pub merge_hit : SearchHit → Dict Text ResultV2 → Dict Text ResultV2
merge_hit r results = insert (result_key r) (merged r (lookup (result_key r) results)) results

unfoldable pub dedupe : List SearchHit → Dict Text ResultV2 → Dict Text ResultV2
dedupe [] results = results
dedupe (r ∷ rs) results = dedupe rs (merge_hit r results)
