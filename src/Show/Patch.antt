-- ===== src/Show/Patch.antt =====
-- The parts of `GitShowCommit` behind the call of git, in `server/fileviewer/fileview.go`: the fields of the
-- commit and the diffs.
pub mod Diffs
use livegrep.Backend.{is_empty_text}
use livegrep.GoText.Decimal.{increment}
use livegrep.GoText.Prefix.{has_prefix}
use livegrep.GoText.Split.{split}
use livegrep.Prelude.{
  ℕ, Option, none, some, List, [], ◌∷◌, ◌++◌, ◌==◌, if◌then◌else◌, Text, codes, get_elem?, drop,
}
use livegrep.Runtime.{Run, ret, ◌>>=◌}
use livegrep.Search.Reply.{deref}
use livegrep.Show.Stat.{parse_stat, DiffStat, full_lines}

-- the struct `Commit`
pub record ShowCommit : Type 0 where
  pub hash : Text
  pub short_hash : Text
  pub parent_hashes : List Text
  pub parent_short_hashes : List Text
  pub author_name : Text
  pub author_email : Text
  pub subject : Text
  pub date : Text
  pub body : Text

-- the struct `DiffLine`; its type is one of three texts
pub data ShowLineType : Type 0 where
  context_type insert_type delete_type : ShowLineType

pub record ShowLine : Type 0 where
  pub line : Text
  pub line_type : ShowLineType

-- the struct `Diff`
pub record ShowDiff : Type 0 where
  pub header : Text
  pub header_lines : List Text
  pub chunk_line : Text
  pub lines : List ShowLine
  pub hunk_num : ℕ

pub record GitShow : Type 0 where
  pub commit : ShowCommit
  pub diffs : List ShowDiff
  pub diff_stat : DiffStat

abbrev pub line_type_of : Text → ShowLineType
line_type_of [] = context_type
line_type_of (c ∷ s) =
    if c == b'+' then insert_type else if c == b'-' then delete_type else context_type

-- the variables of the loop over the diffs
pub record PatchState : Type 0 where
  pub diffs : List ShowDiff
  pub current : Option ShowDiff
  pub hunk_num : ℕ

-- the diff that was read is added to the others
abbrev pub end_diff : PatchState → List ShowDiff
end_diff st = elim st.current [ none ↦ st.diffs | some d ↦ st.diffs ++ (d ∷ []) ]

abbrev pub new_diff : Text → ℕ → ShowDiff
new_diff header hunk_num = record {
  header = header;
  header_lines = [];
  chunk_line = [];
  lines = [];
  hunk_num = hunk_num;
}

-- the number of the diff that begins
abbrev pub next_number : PatchState → ℕ
next_number st = elim st.current [ none ↦ st.hunk_num | some d ↦ increment st.hunk_num ]

abbrev pub start_diff : Text → PatchState → PatchState
start_diff line st = record {
  diffs = end_diff st;
  current = some (new_diff line (next_number st));
  hunk_num = next_number st;
}

-- a line of the header of a diff, or behind a line `@@`
abbrev pub keep_line : Text → ShowDiff → ShowDiff
keep_line line d =
    if is_empty_text d.chunk_line
    then record d { header_lines = d.header_lines ++ (line ∷ []) }
    else record d {
      lines = d.lines ++ (record { line = line; line_type = line_type_of line } ∷ []);
    }

abbrev change_current : (ShowDiff → ShowDiff) → PatchState → Run PatchState
change_current f st = do d ← deref st.current; ret (record st { current = some (f d) })

unfoldable pub patch_line : Text → PatchState → Run PatchState
unfolding has_prefix
patch_line line st =
    if has_prefix line (codes "diff")
    then ret (start_diff line st)
    else if has_prefix line (codes "@@")
    then change_current (λ d. record d { chunk_line = line }) st
    else change_current (keep_line line) st

unfoldable pub read_patch : PatchState → List Text → Run (List ShowDiff)
unfolding patch_line
read_patch st [] = ret (end_diff st)
read_patch st (line ∷ lines) = do st' ← patch_line line st; read_patch st' lines

-- the entries of the output, one by one; behind the last one an entry is empty
unfoldable pub entry_at : List Text → ℕ → Text
entry_at entries i = elim (get_elem? entries i) [ none ↦ [] | some e ↦ e ]

abbrev pub start_patch : PatchState
start_patch = record { diffs = []; current = none; hunk_num = 0 }

unfoldable pub git_show : List Text → Run GitShow
unfolding entry_at full_lines parse_stat read_patch split
git_show entries = do
  diffs ← read_patch start_patch (full_lines (entry_at entries 10))
  ret (record {
    commit = record {
      hash = entry_at entries 0;
      short_hash = entry_at entries 1;
      parent_hashes = split 32 (entry_at entries 2);
      parent_short_hashes = split 32 (entry_at entries 3);
      author_name = entry_at entries 4;
      author_email = entry_at entries 5;
      subject = entry_at entries 6;
      date = entry_at entries 7;
      body = entry_at entries 8;
    };
    diffs = diffs;
    diff_stat = parse_stat 0 [] (drop 1 (full_lines (entry_at entries 9)));
  })
