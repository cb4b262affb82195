-- ===== src/Search.antt =====
-- `server/api.go`: the answer to a search. The messages of a search backend are those of
-- `src/proto/livegrep.proto`; a pointer of a message that may be nil is an Option, an int32 is its
-- 32-bit pattern and an int64 its 64-bit pattern. A text is a list of bytes.
pub mod Extensions
pub mod Handlers
pub mod Merge
pub mod NextPage
pub mod Reply
pub mod Types
use livegrep.Dict.{Dict}
use livegrep.Prelude.{ℕ, List, Text}

-- a SearchResult of the backend
pub record SearchHit : Type 0 where
  pub tree : Text
  pub version : Text
  pub path : Text
  pub line_number : ℕ
  pub context_before : List Text
  pub context_after : List Text
  pub bounds : List (ℕ × ℕ)
  pub line : Text
  pub num_matches : ℕ

-- A nil slice of bounds is kept as an empty one.
pub record ResultLine : Type 0 where
  pub line_number : ℕ
  pub bounds : List (ℕ × ℕ)
  pub line : Text

pub record ResultV2 : Type 0 where
  pub tree : Text
  pub version : Text
  pub path : Text
  pub lines : List ResultLine
  pub context_lines : Dict ℕ ResultLine
  pub num_matches : ℕ
