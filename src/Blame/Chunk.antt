-- ===== src/Blame/Chunk.antt =====
-- `processNextChunk` and the loop of `GitBlameBlob`.
use livegrep.Blame.{
  clamped_atoi, read_key, BlameChunk, BlameState, KeyEffect, LineRange, match_chunk_header,
  match_line_header,
}
use livegrep.Dict.{lookup, Dict, insert, text_key, number_key}
use livegrep.GoText.Decimal.{atoi, word}
use livegrep.GoText.Prefix.{has_prefix}
use livegrep.Prelude.{
  ℕ, zero, suc, ◌+◌, ◌-◌, ◌%◌, Bool, true, false, Option, none, some, List, [], ◌∷◌, ◌++◌, ◌==◌,
  if◌then◌else◌, Text, codes, length, take,
}
use livegrep.Runtime.{PanicReason}

-- the two errors of `processNextChunk`
pub data BlameError : Type 0 where
  unexpected_format : Text → BlameError
  bad_count : BlameError

-- The outcome of a call: what it returns, the maps, and the lines to come; or it never returns, or it
-- panics.
pub data ChunkRun : Type 0 where
  returned : Bool → Option BlameError → BlameState → List Text → ChunkRun
  hangs : ChunkRun
  panics : PanicReason → ChunkRun

-- What one line of a chunk does: it goes on with a line number and the chunk, it is a line of code,
-- or the call ends.
pub data LineEffect : Type 0 where
  moves : ℕ → BlameChunk → LineEffect
  code_line : LineEffect
  stops : LineEffect
  breaks : PanicReason → LineEffect

abbrev pub of_key : ℕ → KeyEffect → LineEffect
of_key current (KeyEffect.fills chunk) = moves current chunk
of_key current KeyEffect.ends = stops
of_key current (KeyEffect.breaks r) = LineEffect.breaks r

-- a line that is no code: its number, and the facts about the commit if they are still missing
abbrev pub read_other : ℕ → BlameChunk → Text → LineEffect
read_other current chunk line =
    if chunk.already_filled then moves current chunk else of_key current (read_key line chunk)

abbrev pub tab : Text
tab = 9 ∷ []

unfoldable pub read_line : ℕ → BlameChunk → Text → LineEffect
unfolding match_line_header has_prefix read_key
read_line current chunk line = elim (match_line_header line) [
  | some number ↦ read_other (clamped_atoi number) chunk line
  | none ↦ if has_prefix line tab then code_line else read_other current chunk line
]

abbrev pub save : BlameChunk → Dict ℕ Text → Dict Text BlameChunk → BlameState
save chunk lines chunks = record { chunks = insert chunk.commit_hash chunk chunks; lines = lines }

-- The loop over `remaining` lines of code. Behind the last token a line is empty, for ever: the loop
-- changes nothing more, and does not end.
unfoldable pub fill_chunk :
    Dict Text BlameChunk → ℕ → ℕ → BlameChunk → Dict ℕ Text → List Text → ChunkRun
unfolding insert read_line
fill_chunk chunks current zero chunk lines tokens =
    returned true none (save chunk lines chunks) tokens
fill_chunk chunks current (suc n) chunk lines [] = hangs
fill_chunk chunks current (suc n) chunk lines (line ∷ tokens) =
    elim (read_line current chunk line) [
      | moves current' chunk' ↦ fill_chunk chunks current' (suc n) chunk' lines tokens
      | code_line ↦
          fill_chunk chunks current n (record chunk { already_filled = true })
            (insert current chunk.commit_hash lines) tokens
      | stops ↦ returned true none (save chunk lines chunks) tokens
      | breaks r ↦ panics r
    ]

abbrev pub new_chunk : Text → Text → BlameChunk
new_chunk repo_path hash = record {
  commit_hash = hash;
  short_hash = take 8 hash;
  commit_link = codes "/delve/" ++ repo_path ++ codes "/commit/" ++ hash;
  author_name = [];
  author_email = [];
  author_time = 0;
  committer_name = [];
  committer_email = [];
  committer_time = 0;
  commit_summary = [];
  filename = [];
  previous_filename = [];
  previous_commit_hash = [];
  line_ranges = [];
  already_filled = false;
}

-- "attempt to merge this chunk interval with the previous": the ranges with one more
unfoldable pub add_range : ℕ → ℕ → List LineRange → List LineRange
add_range start end [] = record { start_line = start; end_line = end } ∷ []
add_range start end (r ∷ []) =
    if (end + (word - 1)) % word == r.end_line
    then record r { end_line = end } ∷ []
    else r ∷ (record { start_line = start; end_line = end } ∷ [])
add_range start end (r ∷ (q ∷ rs)) = r ∷ add_range start end (q ∷ rs)

abbrev pub find_chunk : Text → Text → Dict Text BlameChunk → BlameChunk
find_chunk repo_path hash chunks = elim (lookup hash chunks) [
  | none ↦ new_chunk repo_path hash
  | some chunk ↦ chunk
]

abbrev pub start_chunk : Text → Text → ℕ → ℕ → BlameState → List Text → ChunkRun
start_chunk repo_path hash current count st tokens =
    let chunk = find_chunk repo_path hash st.chunks in
    let ranges = add_range current ((current + count + (word - 1)) % word) chunk.line_ranges in
    fill_chunk st.chunks current count (record chunk { line_ranges = ranges }) st.lines tokens

unfoldable pub process_next_chunk : Text → BlameState → List Text → ChunkRun
unfolding match_chunk_header lookup add_range fill_chunk
process_next_chunk repo_path st [] = returned false none st []
process_next_chunk repo_path st (header ∷ tokens) = elim (match_chunk_header header) [
  | none ↦ returned false (some (unexpected_format header)) st tokens
  | some h ↦ elim (atoi h.count) [
    | none ↦ returned false (some bad_count) st tokens
    | some count ↦ start_chunk repo_path h.hash (clamped_atoi h.final_line) count st tokens
  ]
]

pub data BlameOutcome : Type 0 where
  blamed : BlameState → BlameOutcome
  reported : BlameError → BlameOutcome
  never : BlameOutcome
  panicked : PanicReason → BlameOutcome

-- what the loop of `GitBlameBlob` makes of a call; `later` is the rest of the loop
abbrev pub after_chunk :
    ChunkRun → (BlameState → List Text → Option BlameOutcome) → Option BlameOutcome
after_chunk hangs later = some never
after_chunk (panics r) later = some (panicked r)
after_chunk (returned false error st rest) later = some (blamed st)
after_chunk (returned true (some e) st rest) later = some (reported e)
after_chunk (returned true none st rest) later = later st rest

-- The loop of `GitBlameBlob`; a call that goes on takes at least one line.
unfoldable pub blame_loop : ℕ → Text → BlameState → List Text → Option BlameOutcome
unfolding process_next_chunk
blame_loop zero repo_path st tokens = none
blame_loop (suc fuel) repo_path st tokens =
    after_chunk (process_next_chunk repo_path st tokens)
      (λ st' rest. blame_loop fuel repo_path st' rest)

unfoldable pub git_blame_blob : Text → List Text → Option BlameOutcome
unfolding blame_loop
git_blame_blob repo_path tokens =
    blame_loop (suc (length tokens)) repo_path (record { chunks = []; lines = [] }) tokens
