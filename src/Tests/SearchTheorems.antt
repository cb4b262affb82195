-- ===== src/Tests/SearchTheorems.antt =====
-- The theorems about the search handlers at concrete hits and requests.
use livegrep.GoText.Replace.{replace_first}
use livegrep.Api.{reverse_strings, convert_bounds, Extracted, Params, extract_query}
use livegrep.Backend.{is_empty_text}
use livegrep.Dict.{insert, Dict, lookup, text_key, number_key}
use livegrep.GoText.Decimal.{atoi, print_digits, print_ℕ, print_int, word}
use livegrep.GoText.Prefix.{strip_prefix}
use livegrep.GoText.Regexp.{quote_meta}
use livegrep.GoText.Space.{trim_space}
use livegrep.Prelude.{
  ◌%◌, ◌≤◌, ◌≡◌, refl, sym, ◌≢◌, true, false, Option, none, some, List, [], ◌∷◌, ◌++◌, map,
  if◌then◌else◌, some-eq, Text, codes, text_eq, length, All,
}
use livegrep.Query.Build.{
  has_upper, choose_line, line_bits, only_one_synonym, build_query, parse_query,
}
use livegrep.Query.Group.{consume_group}
use livegrep.Query.Loop.{round, parse_loop}
use livegrep.Query.Piece.{span_key, match_operator, match_here, find_piece}
use livegrep.Query.Types.{known_tags, get_op, empty_query, Query}
use livegrep.Runtime.{Run, ret, panic, nil_dereference}
use livegrep.Search.{SearchHit, ResultV2}
use livegrep.Search.Extensions.{count_greater, pop_exts}
use livegrep.Search.Extensions.Bounds.{pop_exts_bounds, IsCounted}
use livegrep.Search.Handlers.{
  get_query_error, check_query, get_param, refuse, success, done, failed, get_backend, with_default,
  Response, RpcError, SearchBackend, search_v2, search_with_backup, serve_api_search,
}
use livegrep.Search.Handlers.Answers.{search_v2_total, AnswersCompletely, IsComplete}
use livegrep.Search.Handlers.NoBackend.{search-no_backend}
use livegrep.Search.Handlers.Success.{search_v2-success, Answered}
use livegrep.Search.Merge.{merge_lines, merge_hit, merged, result_key, dedupe}
use livegrep.Search.Merge.Files.{matches_at-dedupe, sum_matches, has_hit, matches_at}
use livegrep.Search.NextPage.{next_query, get_next_page_url}
use livegrep.Search.Reply.{
  Surroundings, tree_results, file_results, make_reply_v2, values, sort_lines, make_results,
  reply_v2, match_limit, ReplySearchV2, SearchResponse,
}
use livegrep.Search.Reply.Lines.{IsAscending}
use livegrep.Search.Reply.Results.{make_results-IsAscending, result_less}
use livegrep.Sort.Laws.{IsSorted}
use livegrep.Tests.SearchTests.{surroundings, first_entry, hit, next_hit}
use mathlib.Core.List.{Perm}
use mathlib.Core.Path.{subst}
use mathlib.Core.List.Perm

run :
    (Surroundings → Dict Text SearchBackend → Params → Option (Run (Response ReplySearchV2)))
    × (Params → Option Extracted)
    × (List SearchHit → Dict Text ResultV2)
unfolding dedupe merge_hit merge_lines result_key lookup insert convert_bounds reverse_strings
    search_v2 get_backend check_query search_with_backup make_reply_v2 file_results get_query_error
    tree_results get_next_page_url next_query replace_first strip_prefix print_int print_ℕ
    print_digits extract_query parse_query parse_loop round find_piece match_here match_operator
    span_key get_op trim_space build_query only_one_synonym line_bits choose_line has_upper text_eq
    quote_meta known_tags consume_group atoi
run = (
  λ env. search_v2 first_entry 50 env (λ q. codes "q=" ++ q),
  extract_query,
  λ hits. dedupe hits [],
)

matches_at-dedupe_example :
    (matches_at (result_key hit) (dedupe (hit ∷ next_hit ∷ []) []) ≡ (
      if has_hit (result_key hit) (hit ∷ next_hit ∷ [])
      then some (sum_matches (result_key hit) (hit ∷ next_hit ∷ []) % word)
      else none))
    × ((res : ResultV2)
        → lookup (result_key hit) (dedupe (hit ∷ next_hit ∷ []) []) ≡ some res
        → (res.tree ≡ codes "t") × (res.path ≡ codes "a.c"))
matches_at-dedupe_example =
    matches_at-dedupe (hit ∷ next_hit ∷ []) hit ((refl, tt), ((refl, tt), tt)) (refl, tt)

abbrev seen : ResultV2
seen = merged hit none

seen_lem : lookup (codes "t-a.c") (dedupe (hit ∷ []) []) ≡ some seen
unfolding run
seen_lem = refl

make_results-IsAscending_example :
    All
      (λ (r : ResultV2). IsAscending r.lines)
      (make_results surroundings (dedupe (hit ∷ next_hit ∷ []) []))
    × IsSorted result_less (make_results surroundings (dedupe (hit ∷ next_hit ∷ []) []))
    × Perm
        (make_results surroundings (dedupe (hit ∷ next_hit ∷ []) []))
        (map (sort_lines surroundings) (values (dedupe (hit ∷ next_hit ∷ []) [])))
make_results-IsAscending_example =
    make_results-IsAscending surroundings Perm.refl Perm.refl (hit ∷ next_hit ∷ [])

abbrev some_paths : List Text
some_paths = codes "t-a.c" ∷ codes "t-b.h" ∷ []

pop_exts_bounds_example :
    (length (pop_exts (λ m. m) some_paths) ≤ 5)
    × (length (pop_exts (λ m. m) some_paths) ≢ 1)
    × IsSorted count_greater (pop_exts (λ m. m) some_paths)
    × All (IsCounted some_paths) (pop_exts (λ m. m) some_paths)
pop_exts_bounds_example = pop_exts_bounds (λ m. m) Perm.refl some_paths

abbrev response : SearchResponse
response = record {
  stats = some (record {
    re2_time = 1;
    git_time = 2;
    sort_time = 3;
    index_time = 4;
    analyze_time = 5;
    num_matches = 3;
    exit_reason = match_limit;
  });
  results = hit ∷ next_hit ∷ [];
  file_results =
      record { tree = codes "t"; version = codes "HEAD"; path = codes "a"; bounds = some (0, 1) }
      ∷ [];
  tree_results = [];
  index_time = 1700000000;
}

abbrev unavailable : RpcError
unavailable = record { code = 14; desc = codes "down"; message = codes "rpc error" }

-- the primary is down, and its backup answers
abbrev backend : SearchBackend
backend = record { search = λ q. failed unavailable; backup = some (λ q. done response) }

abbrev backends : Dict Text SearchBackend
backends = (codes "b", backend) ∷ []

abbrev request : Params
request k = if text_eq k (codes "q") then some (codes "foo") else none

picks_backend :
    (b : SearchBackend)
    → get_backend first_entry 50 surroundings backends (get_param request (codes ":backend"))
      ≡ some b
    → b ≡ backend
unfolding run
picks_backend b e = sym (some-eq e)

response-IsComplete : IsComplete response
response-IsComplete = ((_, refl), (((0, 1), refl), tt), tt)

done-eq : {a b : SearchResponse} → done a ≡ done b → a ≡ b
done-eq e = cc

answers_completely : AnswersCompletely backend
unfolding run
answers_completely q s e = subst IsComplete (done-eq e) response-IsComplete

search_v2_total_example :
    (r : Response ReplySearchV2) × (search_v2 first_entry 50 surroundings
        (λ q. codes "q=" ++ q)
        backends
        request
      ≡ some (ret r))
search_v2_total_example =
    search_v2_total first_entry 50 surroundings (λ q. codes "q=" ++ q) backends request
      (λ b e. subst AnswersCompletely (sym (picks_backend b e)) answers_completely)

abbrev foo : Query
foo = record empty_query { line = codes "foo"; fold_case = true }

abbrev extracted : Extracted
extracted = record { query = foo; regex = true; error = none }

extracted_lem : extract_query request ≡ some extracted
unfolding run
extracted_lem = refl

names_none : get_param request (codes ":backend") ≡ []
unfolding run
names_none = refl

search-no_backend_example :
    (serve_api_search first_entry 50 surroundings [] request ≡ some (panic nil_dereference))
    × (search_v2 first_entry 50 surroundings (λ q. codes "q=" ++ q) [] request
        ≡ some (ret (refuse 400 (codes "bad_backend") (codes "Unknown backend: "))))
search-no_backend_example =
    search-no_backend first_entry 50 surroundings (λ q. codes "q=" ++ q) [] request extracted
      names_none refl extracted_lem refl refl

abbrev answer : ReplySearchV2
answer =
    let q = with_default 50 foo in
    record (reply_v2 surroundings q true response
      (record { tree = codes "t"; version = codes "HEAD"; path = codes "a"; bounds = (0, 1) } ∷ [])
      []
      (record {
        re2_time = 1;
        git_time = 2;
        sort_time = 3;
        index_time = 4;
        analyze_time = 5;
        num_matches = 3;
        exit_reason = match_limit;
      })) { next_url = codes "?q=foo max_matches:150" }

answer_lem :
    search_v2 first_entry 50 surroundings (λ q. codes "q=" ++ q) backends request
    ≡ some (ret (success answer))
unfolding run
answer_lem = refl

search_v2-success_example :
    (b : SearchBackend) × (x : Extracted) × (s : SearchResponse) × (get_backend first_entry 50
        surroundings backends
        (get_param request (codes ":backend"))
      ≡ some b)
    × (extract_query request ≡ some x)
    × (x.error ≡ none)
    × (is_empty_text x.query.line ≡ false)
    × Answered b (with_default 50 x.query) s answer.backup_idx_used
    × (answer.results ≡ make_results surroundings (dedupe s.results []))
search_v2-success_example =
    search_v2-success first_entry 50 surroundings (λ q. codes "q=" ++ q) backends request answer_lem
