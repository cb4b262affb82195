-- ===== src/Search/Types.antt =====
-- The messages of the search backend that a reply is made from, and the types of `server/api/types.go` that
-- it fills.
use livegrep.Dict.{Dict}
use livegrep.Prelude.{ℕ, Bool, Option, List, Text}
use livegrep.Search.{ResultLine, ResultV2, SearchHit}
use livegrep.Search.Extensions.{FileExtension}

pub data ExitReason : Type 0 where
  no_reason timeout match_limit : ExitReason

-- a SearchStats of the backend
pub record SearchStats : Type 0 where
  pub re2_time : ℕ
  pub git_time : ℕ
  pub sort_time : ℕ
  pub index_time : ℕ
  pub analyze_time : ℕ
  pub num_matches : ℕ
  pub exit_reason : ExitReason

pub record FileHit : Type 0 where
  pub tree : Text
  pub version : Text
  pub path : Text
  pub bounds : Option (ℕ × ℕ)

pub record TreeMetadata : Type 0 where
  pub labels : List Text
  pub github : Text

pub record TreeHit : Type 0 where
  pub name : Text
  pub version : Text
  pub metadata : Option TreeMetadata
  pub bounds : Option (ℕ × ℕ)

-- a CodeSearchResult of the backend
pub record SearchResponse : Type 0 where
  pub stats : Option SearchStats
  pub results : List SearchHit
  pub file_results : List FileHit
  pub tree_results : List TreeHit
  pub index_time : ℕ

pub record Stats : Type 0 where
  pub re2_time : ℕ
  pub git_time : ℕ
  pub sort_time : ℕ
  pub index_time : ℕ
  pub analyze_time : ℕ
  pub total_time : ℕ
  pub exit_reason : Text
  pub num_matches : ℕ

pub record FileResult : Type 0 where
  pub tree : Text
  pub version : Text
  pub path : Text
  pub bounds : ℕ × ℕ

-- the struct Metadata stands in its two fields
pub record TreeResult : Type 0 where
  pub name : Text
  pub version : Text
  pub labels : List Text
  pub external_url : Text
  pub bounds : ℕ × ℕ

-- the struct `api.Result`
pub record LineResult : Type 0 where
  pub tree : Text
  pub version : Text
  pub path : Text
  pub line_number : ℕ
  pub context_before : List Text
  pub context_after : List Text
  pub bounds : List (ℕ × ℕ)
  pub line : Text

pub record ReplySearch : Type 0 where
  pub info : Stats
  pub results : List LineResult
  pub file_results : List FileResult
  pub tree_results : List TreeResult
  pub search_type : Text

pub record ReplySearchV2 : Type 0 where
  pub info : Stats
  pub results : List ResultV2
  pub file_results : List FileResult
  pub tree_results : List TreeResult
  pub search_type : Text
  pub pop_exts : List FileExtension
  pub index_age : Text
  pub last_indexed : Text
  pub backup_idx_used : Bool
  pub curr_max_matches : ℕ
  pub next_max_matches : ℕ
  pub next_url : Text

-- the choices of the runtime and of the clock
pub record Surroundings : Type 0 where
  pub visit_files : Dict Text ResultV2 → Dict Text ResultV2
  pub visit_lines : Dict ℕ ResultLine → Dict ℕ ResultLine
  pub visit_exts : Dict Text ℕ → Dict Text ℕ
  -- sort.Slice is not stable: the entries of `doSearch`, as it meets them
  pub meet_results : List LineResult → List LineResult
  pub total_time : ℕ
  pub index_age : ℕ → Text
  pub last_indexed : ℕ → Text
