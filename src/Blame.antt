-- ===== src/Blame.antt =====
-- `server/fileviewer/fileview.go`: `processNextChunk` and `GitBlameBlob` on the lines that a bufio.Scanner
-- gives of the output of git. A pointer to a chunk is the hash of its commit, the key of the chunk in
-- `commitHashToChunkMap`; while a chunk is read it is held outside the map, and the call writes it back
-- when it returns.
pub mod Cases
pub mod Chunk
pub mod Ends
pub mod Links
use livegrep.Backend.{is_empty_text}
use livegrep.Dict.{Dict, text_key, number_key}
use livegrep.Diff.Header.{span_digits}
use livegrep.GoText.Decimal.{half_word, atoi, is_digit}
use livegrep.GoText.Prefix.{has_prefix}
use livegrep.GoText.Replace.{replace_first}
use livegrep.Prelude.{
  ℕ, zero, suc, ◌-◌, Bool, not, ◌&&◌, ◌||◌, Option, none, some, List, [], ◌∷◌, ltb, leb, ◌==◌,
  if◌then◌else◌, ◌>>=◌, Text, codes, length, take, drop,
}
use livegrep.Runtime.{PanicReason, slice_out_of_range}

pub record LineRange : Type 0 where
  pub start_line : ℕ
  pub end_line : ℕ

pub record BlameChunk : Type 0 where
  pub commit_hash : Text
  pub short_hash : Text
  pub commit_link : Text
  pub author_name : Text
  pub author_email : Text
  pub author_time : ℕ
  pub committer_name : Text
  pub committer_email : Text
  pub committer_time : ℕ
  pub commit_summary : Text
  pub filename : Text
  pub previous_filename : Text
  pub previous_commit_hash : Text
  pub line_ranges : List LineRange
  pub already_filled : Bool

-- the two maps of `GitBlameBlob`
pub record BlameState : Type 0 where
  pub chunks : Dict Text BlameChunk
  pub lines : Dict ℕ Text

-- `\s`
unfoldable pub is_blank : ℕ → Bool
is_blank c = c == 32 || (c == 9 || (c == 10 || (c == 12 || c == 13)))

-- `[0-9a-f]`
unfoldable pub is_hash_char : ℕ → Bool
unfolding is_digit
is_hash_char c = is_digit c || (leb b'a' c && leb c b'f')

-- `n` characters of a hash, and what is left
unfoldable pub take_hash : ℕ → Text → Option (Text × Text)
unfolding is_hash_char
take_hash zero s = some ([], s)
take_hash (suc n) [] = none
take_hash (suc n) (c ∷ s) =
    let rest = take_hash n s in if is_hash_char c then (do r ← rest; some (c ∷ r.0, r.1)) else none

-- `\s(\d+)`, and what is left
unfoldable pub take_number : Text → Option (Text × Text)
unfolding is_blank span_digits
take_number [] = none
take_number (c ∷ s) =
    if is_blank c && not (is_empty_text (span_digits s).0) then some (span_digits s) else none

pub record ChunkHeader : Type 0 where
  pub hash : Text
  pub final_line : Text
  pub count : Text

-- `BlameChunkHeader`
unfoldable pub match_chunk_header : Text → Option ChunkHeader
unfolding take_hash take_number
match_chunk_header s = do
  h ← take_hash 40 s
  a ← take_number h.1
  b ← take_number a.1
  c ← take_number b.1
  if is_empty_text c.1 then some (record { hash = h.0; final_line = b.0; count = c.0 }) else none

-- `LineInChunkHeader`
unfoldable pub match_line_header : Text → Option Text
unfolding take_hash take_number
match_line_header s = do
  h ← take_hash 40 s
  a ← take_number h.1
  b ← take_number a.1
  if is_empty_text b.1 then some b.0 else none

-- the value of strconv.Atoi at digits, with the error dropped: the greatest int if there are too many
abbrev pub clamped_atoi : Text → ℕ
clamped_atoi s = elim (atoi s) [ none ↦ half_word - 1 | some v ↦ v ]

-- `deleteKey`
unfoldable pub delete_key : Text → Text → Text
unfolding replace_first
delete_key line key = elim (replace_first key [] line) [ none ↦ line | some t ↦ t ]

-- what a line about the commit does: it fills in a field, ends the call, or panics
pub data KeyEffect : Type 0 where
  fills : BlameChunk → KeyEffect
  ends : KeyEffect
  breaks : PanicReason → KeyEffect

-- `line[:40]` and `line[41:]`
abbrev pub fill_previous : Text → BlameChunk → KeyEffect
fill_previous line chunk =
    if ltb (length line) 41
    then breaks slice_out_of_range
    else fills
        (record chunk { previous_commit_hash = take 40 line; previous_filename = drop 41 line })

-- the keys `AuthorKey` to `FilenameKey`, and a line that begins with none
pub data CommitKey : Type 0 where
  author_key author_mail_key author_time_key : CommitKey
  committer_key committer_mail_key committer_time_key : CommitKey
  summary_key filename_key previous_key no_key : CommitKey

-- the tests of the line, in the order of the code
unfoldable pub key_of : Text → CommitKey
unfolding has_prefix
key_of line =
    if has_prefix line (codes "author ")
    then author_key
    else if has_prefix line (codes "author-mail ")
    then author_mail_key
    else if has_prefix line (codes "author-time ")
    then author_time_key
    else if has_prefix line (codes "committer ")
    then committer_key
    else if has_prefix line (codes "committer-mail ")
    then committer_mail_key
    else if has_prefix line (codes "committer-time ")
    then committer_time_key
    else if has_prefix line (codes "summary ")
    then summary_key
    else if has_prefix line (codes "filename ")
    then filename_key
    else if has_prefix line (codes "previous ")
    then previous_key
    else no_key

-- a time is parsed before it is set; an error ends the call
abbrev pub fill_time : Option ℕ → (ℕ → BlameChunk) → KeyEffect
fill_time none set = ends
fill_time (some t) set = fills (set t)

abbrev pub apply_key : CommitKey → Text → BlameChunk → KeyEffect
apply_key author_key line chunk =
    fills (record chunk { author_name = delete_key line (codes "author ") })
apply_key author_mail_key line chunk =
    fills (record chunk { author_email = delete_key line (codes "author-mail ") })
apply_key author_time_key line chunk =
    fill_time (atoi (delete_key line (codes "author-time ")))
      (λ t. record chunk { author_time = t })
apply_key committer_key line chunk =
    fills (record chunk { committer_name = delete_key line (codes "committer ") })
apply_key committer_mail_key line chunk =
    fills (record chunk { committer_email = delete_key line (codes "committer-mail ") })
apply_key committer_time_key line chunk =
    fill_time (atoi (delete_key line (codes "committer-time ")))
      (λ t. record chunk { committer_time = t })
apply_key summary_key line chunk =
    fills (record chunk { commit_summary = delete_key line (codes "summary ") })
apply_key filename_key line chunk =
    fills (record chunk { filename = delete_key line (codes "filename ") })
apply_key previous_key line chunk = fill_previous line chunk
apply_key no_key line chunk = fills chunk

unfoldable pub read_key : Text → BlameChunk → KeyEffect
unfolding key_of delete_key
read_key line chunk = apply_key (key_of line) line chunk
