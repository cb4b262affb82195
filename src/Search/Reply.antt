-- ===== src/Search/Reply.antt =====
-- `server/api.go`: `doSearch` and `doSearchV2` behind the call of the backend. What the Go runtime and
-- the clock choose is a parameter: the orders in which the loops visit the maps, the time that passed,
-- and the texts of times.
pub mod Lines
pub mod Results
pub use livegrep.Search.Types.{
  ExitReason, SearchStats, FileHit, TreeMetadata, TreeHit, SearchResponse, Stats, FileResult,
  TreeResult, LineResult, ReplySearch, ReplySearchV2, Surroundings, no_reason, timeout, match_limit,
}
use livegrep.Api.{convert_bounds, widen}
use livegrep.Dict.{Dict, text_key}
use livegrep.Directory.{text_lt}
use livegrep.GoText.Decimal.{word, int_lt}
use livegrep.Prelude.{
  ℕ, ◌*◌, ◌%◌, Bool, Option, none, some, List, [], ◌∷◌, ◌++◌, map, if◌then◌else◌, Text, codes,
  text_eq,
}
use livegrep.Query.Types.{Query}
use livegrep.Runtime.{nil_dereference, Run, ret, panic, ◌>>=◌}
use livegrep.Search.{ResultLine, ResultV2, SearchHit}
use livegrep.Search.Extensions.{pop_exts, FileExtension}
use livegrep.Search.Merge.{dedupe}
use livegrep.Sort.{sort}

abbrev pub reason_text : ExitReason → Text
reason_text no_reason = codes "NONE"
reason_text timeout = codes "TIMEOUT"
reason_text match_limit = codes "MATCH_LIMIT"

abbrev pub search_type : Query → Text
search_type q =
    if q.filename_only
    then codes "filename_only"
    else if q.treename_only
    then codes "treename_only"
    else codes "normal"

-- a pointer that the code reads through
abbrev pub deref {ℓ} : {A : Type ℓ} → Option A → Run A
deref none = panic nil_dereference
deref (some a) = ret a

abbrev pub file_result : FileHit → ℕ × ℕ → FileResult
file_result r b = record {
  tree = r.tree;
  version = r.version;
  path = r.path;
  bounds = (widen b.0, widen b.1);
}

unfoldable pub file_results : List FileHit → Run (List FileResult)
file_results [] = ret []
file_results (r ∷ rs) =
    let rest = file_results rs in do b ← deref r.bounds; more ← rest; ret (file_result r b ∷ more)

abbrev pub tree_result : TreeHit → ℕ × ℕ → TreeMetadata → TreeResult
tree_result r b md = record {
  name = r.name;
  version = r.version;
  labels = md.labels;
  external_url = md.github ++ codes "/tree/" ++ r.version;
  bounds = (widen b.0, widen b.1);
}

unfoldable pub tree_results : List TreeHit → Run (List TreeResult)
tree_results [] = ret []
tree_results (r ∷ rs) =
    let rest = tree_results rs in
    do b ← deref r.bounds; md ← deref r.metadata; more ← rest; ret (tree_result r b md ∷ more)

abbrev pub line_result : SearchHit → LineResult
line_result r = record {
  tree = r.tree;
  version = r.version;
  path = r.path;
  line_number = r.line_number;
  context_before = r.context_before;
  context_after = r.context_after;
  bounds = convert_bounds r.bounds;
  line = r.line;
}

-- the order of the results: the tree and then the path
abbrev pub file_less : Text × Text → Text × Text → Bool
file_less (t, p) (u, q) = if text_eq t u then text_lt p q else text_lt t u

abbrev pub line_less : ResultLine → ResultLine → Bool
line_less a b = int_lt a.line_number b.line_number

abbrev pub values {ℓ κ} : {K : Type ℓ} {V : Type κ} → Dict K V → List V
values m = map (λ e. e.1) m

abbrev pub keys {ℓ κ} : {K : Type ℓ} {V : Type κ} → Dict K V → List K
keys m = map (λ e. e.0) m

module _ (env : Surroundings) where
  abbrev pub stats_reply : SearchStats → Stats
  stats_reply s = record {
    re2_time = s.re2_time;
    git_time = s.git_time;
    sort_time = s.sort_time;
    index_time = s.index_time;
    analyze_time = s.analyze_time;
    total_time = env.total_time;
    exit_reason = reason_text s.exit_reason;
    num_matches = s.num_matches;
  }

  -- "Change the lines over to an array then sort by LineNumber"
  unfoldable pub sort_lines : ResultV2 → ResultV2
  sort_lines r = record r { lines = sort line_less (values (env.visit_lines r.context_lines)) }

  -- the results of `doSearchV2`, from the map of files as the loop visits it
  unfoldable pub make_results : Dict Text ResultV2 → List ResultV2
  make_results files =
      sort (λ a b. file_less (a.tree, a.path) (b.tree, b.path)) (map sort_lines (values files))

  -- `doSearch`, behind the call
  unfoldable pub make_reply : Query → SearchResponse → Run ReplySearch
  make_reply q search = do
    files ← file_results search.file_results
    trees ← tree_results search.tree_results
    s ← deref search.stats
    ret (record {
      info = stats_reply s;
      results =
          sort (λ a b. file_less (a.tree, a.path) (b.tree, b.path))
            (env.meet_results (map line_result search.results));
      file_results = files;
      tree_results = trees;
      search_type = search_type q;
    })

  abbrev pub reply_v2 :
      Query
      → Bool
      → SearchResponse
      → List FileResult
      → List TreeResult
      → SearchStats
      → ReplySearchV2
  reply_v2 q backup_used search files trees s =
      let visited = env.visit_files (dedupe search.results []) in
      record {
        info = stats_reply s;
        results = make_results visited;
        file_results = files;
        tree_results = trees;
        search_type = search_type q;
        pop_exts = pop_exts env.visit_exts (keys visited);
        index_age = env.index_age search.index_time;
        last_indexed = env.last_indexed search.index_time;
        backup_idx_used = backup_used;
        curr_max_matches = widen q.max_matches;
        next_max_matches = widen q.max_matches * 3 % word;
        next_url = [];
      }

  -- `doSearchV2`, behind the calls
  unfoldable pub make_reply_v2 : Query → Bool → SearchResponse → Run ReplySearchV2
  make_reply_v2 q backup_used search = do
    files ← file_results search.file_results
    trees ← tree_results search.tree_results
    s ← deref search.stats
    ret (reply_v2 q backup_used search files trees s)
