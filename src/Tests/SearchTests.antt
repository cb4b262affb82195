-- ===== src/Tests/SearchTests.antt =====
-- The search handlers at concrete hits and requests, and instances of their theorems.
use livegrep.GoText.Replace.{replace_first}
use livegrep.Api.{Extracted, Params, extract_query, reverse_strings, convert_bounds}
use livegrep.Dict.{insert, lookup, Dict, text_key, number_key}
use livegrep.Directory.{text_lt}
use livegrep.GoText.Decimal.{atoi, print_digits, print_ℕ, print_int}
use livegrep.GoText.Prefix.{strip_prefix}
use livegrep.GoText.Regexp.{quote_meta}
use livegrep.GoText.Space.{trim_space}
use livegrep.Prelude.{
  ℕ, ◌≡◌, refl, Option, none, some, List, [], ◌∷◌, ◌++◌, map, Text, codes, text_eq, length,
}
use livegrep.Query.Build.{
  has_upper, choose_line, line_bits, only_one_synonym, build_query, parse_query,
}
use livegrep.Query.Group.{consume_group}
use livegrep.Query.Loop.{round, parse_loop}
use livegrep.Query.Piece.{span_key, match_operator, match_here, find_piece}
use livegrep.Query.Types.{known_tags, get_op}
use livegrep.Runtime.{Run}
use livegrep.Search.{ResultLine, ResultV2, SearchHit}
use livegrep.Search.Extensions.{
  FileExtension, ext_scan, count_ext, extension_array, extension_counts, pop_exts,
}
use livegrep.Search.Handlers.{
  Response, get_query_error, search_with_backup, check_query, get_backend, serve_api_search,
  search_v2, SearchBackend,
}
use livegrep.Search.Merge.{result_key, merge_lines, merge_hit, dedupe}
use livegrep.Search.NextPage.{get_next_page_url, next_query}
use livegrep.Search.Reply.{
  ReplySearch, ReplySearchV2, tree_results, file_results, make_reply_v2, make_reply, sort_lines,
  make_results, Surroundings,
}
use livegrep.Sort.{insert_sorted, sort}

run :
    (List SearchHit → Dict Text ResultV2 → Dict Text ResultV2)
    × (Surroundings → Dict Text ResultV2 → List ResultV2)
    × (List Text → List FileExtension)
    × (Text → ℕ → Text)
    × (Surroundings → Dict Text SearchBackend → Params → Option (Run (Response ReplySearchV2)))
    × (Surroundings → Dict Text SearchBackend → Params → Option (Run (Response ReplySearch)))
    × (Params → Option Extracted)
unfolding dedupe merge_hit merge_lines result_key lookup insert convert_bounds reverse_strings
    make_results sort_lines sort insert_sorted text_lt pop_exts extension_counts extension_array
    count_ext ext_scan next_query replace_first strip_prefix print_int print_ℕ print_digits
    search_v2 serve_api_search get_backend check_query search_with_backup make_reply make_reply_v2
    file_results tree_results get_query_error get_next_page_url extract_query parse_query parse_loop
    round find_piece match_here match_operator span_key get_op trim_space build_query
    only_one_synonym line_bits choose_line has_upper text_eq quote_meta known_tags consume_group
    atoi
run = (
  dedupe,
  make_results,
  pop_exts (λ m. m),
  next_query,
  λ env. search_v2 (λ m. elim m [ [] ↦ none | e ∷ m' ↦ some e.1 ]) 50 env (λ q. codes "q=" ++ q),
  λ env. serve_api_search (λ m. elim m [ [] ↦ none | e ∷ m' ↦ some e.1 ]) 50 env,
  extract_query,
)

abbrev pub first_entry : Dict Text SearchBackend → Option SearchBackend
first_entry [] = none
first_entry (e ∷ m) = some e.1

abbrev pub surroundings : Surroundings
surroundings = record {
  visit_files = λ m. m;
  visit_lines = λ m. m;
  visit_exts = λ m. m;
  meet_results = λ rs. rs;
  total_time = 7;
  index_age = λ t. codes "1m0s";
  last_indexed = λ t. codes "today";
}

abbrev pub hit : SearchHit
hit = record {
  tree = codes "t";
  version = codes "HEAD";
  path = codes "a.c";
  line_number = 5;
  context_before = codes "four" ∷ codes "three" ∷ [];
  context_after = codes "six" ∷ [];
  bounds = (0, 4) ∷ [];
  line = codes "five";
  num_matches = 1;
}

abbrev pub next_hit : SearchHit
next_hit = record {
  tree = codes "t";
  version = codes "HEAD";
  path = codes "a.c";
  line_number = 6;
  context_before = codes "five" ∷ [];
  context_after = codes "seven" ∷ [];
  bounds = (1, 2) ∷ [];
  line = codes "six";
  num_matches = 2;
}

-- another file under the same key
abbrev other_file : SearchHit
other_file = record next_hit { tree = codes "t-a.c"; path = codes "b" }

abbrev same_key : SearchHit
same_key = record next_hit { tree = codes "t"; path = codes "a.c-b" }

dashed_run :
    map {B = Text × Text}
      (λ (e : Text × ResultV2). (e.1.tree, e.1.path))
      (dedupe (other_file ∷ same_key ∷ []) [])
    ≡ (codes "t-a.c", codes "b") ∷ []
unfolding run
dashed_run = refl

lines_run :
    map {B = List (ℕ × ℕ)}
      (λ (r : ResultV2).
        map {B = ℕ × ℕ} (λ (l : ResultLine). (l.line_number, length l.bounds)) r.lines)
      (make_results surroundings (dedupe (hit ∷ next_hit ∷ []) []))
    ≡ ((3, 0) ∷ (4, 0) ∷ (5, 1) ∷ (6, 1) ∷ (7, 0) ∷ []) ∷ []
unfolding run
lines_run = refl

exts_run :
    pop_exts (λ m. m) (codes "t-a.c" ∷ codes "t-b.h" ∷ codes "t-Makefile" ∷ codes "t-c.h" ∷ [])
    ≡ record { ext = codes ".h"; count = 2 } ∷ record { ext = codes ".c"; count = 1 } ∷ []
unfolding run
exts_run = refl

next_run : next_query (codes "foo max_matches:50 bar") 50 ≡ codes "foo max_matches:150 bar"
unfolding run
next_run = refl

-- a term for the number of matches that opens the query gets a second one
leading_run :
    next_query (codes "max_matches:50 foo") 50 ≡ codes "max_matches:50 foo max_matches:150"
unfolding run
leading_run = refl

-- with the default of 50 in place of 0, the link leads to the same page
zero_run : next_query (codes "foo max_matches:0") 50 ≡ codes "foo max_matches:0"
unfolding run
zero_run = refl
