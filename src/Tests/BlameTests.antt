-- ===== src/Tests/BlameTests.antt =====
-- Blame at a concrete output of git, and instances of its theorems.
use livegrep.Blame.{
  KeyEffect, delete_key, key_of, read_key, is_hash_char, is_blank, take_number, take_hash,
  match_chunk_header, match_line_header, BlameState, BlameChunk,
}
use livegrep.Blame.Chunk.{
  add_range, read_line, process_next_chunk, blame_loop, blamed, hangs, never, new_chunk,
  BlameOutcome, fill_chunk, git_blame_blob,
}
use livegrep.Blame.Ends.{fill_chunk-hangs, code_lines, git_blame_blob_total, HasNoError}
use livegrep.Blame.Links.{git_blame_blob-IsLinked, IsLinked}
use livegrep.Dict.{Dict, lookup, insert, text_key, number_key}
use livegrep.Diff.Header.{span_digits}
use livegrep.GoText.Decimal.{digits_value, magnitude, atoi, is_digit}
use livegrep.GoText.Prefix.{has_prefix, strip_prefix}
use livegrep.GoText.Replace.{replace_first}
use livegrep.Prelude.{
  ℕ, ◌<◌, ◌≡◌, refl, true, Option, some, List, [], ◌∷◌, ◌++◌, Text, codes, text_eq, take, drop,
}

run :
    (Text → List Text → Option BlameOutcome)
    × (Text → BlameChunk → KeyEffect)
    × (ℕ → Dict ℕ Text → Option Text)
    × (List Text → ℕ)
unfolding git_blame_blob blame_loop process_next_chunk fill_chunk read_line match_line_header
    match_chunk_header take_hash take_number is_blank is_hash_char is_digit span_digits read_key
    key_of delete_key replace_first strip_prefix has_prefix add_range insert lookup text_eq atoi
    magnitude digits_value
run = (git_blame_blob, read_key, lookup, code_lines)

abbrev hash : Text
hash = codes "0123456789abcdef0123456789abcdef01234567"

abbrev previous_line : Text
previous_line = codes "previous " ++ hash ++ codes " old.c"

abbrev output : List Text
output =
    (hash ++ codes " 1 1 2")
    ∷ codes "author A"
    ∷ codes "author-time 5"
    ∷ previous_line
    ∷ codes "\tint x;"
    ∷ (hash ++ codes " 2 2")
    ∷ codes "\tint y;"
    ∷ []

-- the maps of the output
abbrev result : Option BlameOutcome → BlameState
result (some (blamed st)) = st
result _ = record { chunks = []; lines = [] }

blame_run :
    git_blame_blob (codes "r") output
    ≡ some (
        blamed (record {
          chunks =
              (
                hash,
                record (new_chunk (codes "r") hash) {
                  author_name = codes "A";
                  author_time = 5;
                  previous_commit_hash = codes "previous 0123456789abcdef0123456789abcde";
                  previous_filename = codes "01234567 old.c";
                  line_ranges = record { start_line = 1; end_line = 2 } ∷ [];
                  already_filled = true;
                },
              )
              ∷ [];
          lines = (1, hash) ∷ (2, hash) ∷ [];
        }))
unfolding run
blame_run = refl

-- output that ends inside a chunk
short_run : git_blame_blob (codes "r") (take 5 output) ≡ some never
unfolding run
short_run = refl

-- a line that is no header ends the loop like the end of the output
junk_run :
    git_blame_blob (codes "r") (codes "junk" ∷ [])
    ≡ some (blamed (record { chunks = []; lines = [] }))
unfolding run
junk_run = refl

git_blame_blob-IsLinked_example : IsLinked (result (git_blame_blob (codes "r") output))
unfolding run
git_blame_blob-IsLinked_example = git_blame_blob-IsLinked (codes "r") output blame_run

git_blame_blob_total_example :
    (out : BlameOutcome) × (git_blame_blob (codes "r") output ≡ some out) × HasNoError out
git_blame_blob_total_example = git_blame_blob_total (codes "r") output

abbrev filled_chunk : BlameChunk
filled_chunk = record (new_chunk (codes "r") hash) { already_filled = true }

fill_chunk-hangs_example :
    (fill_chunk [] 1 2 filled_chunk [] (drop 5 output) ≡ hangs → code_lines (drop 5 output) < 2)
    × (true ≡ true
        → code_lines (drop 5 output) < 2
        → fill_chunk [] 1 2 filled_chunk [] (drop 5 output) ≡ hangs)
fill_chunk-hangs_example = fill_chunk-hangs [] 1 2 filled_chunk [] (drop 5 output)
