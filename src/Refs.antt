-- ===== src/Refs.antt =====
-- `ListAllBranches`, `parseGitListTagsOutput` and `ReverseSlice` of `server/fileviewer/fileview.go`, on the
-- lines that a bufio.Scanner gives of the output of git.
pub mod Head
pub mod Reverse
use livegrep.Directory.{part_at}
use livegrep.GoText.Split.{split, split_n}
use livegrep.Prelude.{
  ℕ, zero, suc, ◌+◌, ◌-◌, Bool, Option, none, some, List, [], ◌∷◌, ◌++◌, ltb, ◌==◌, if◌then◌else◌,
  Text, codes, text_eq, length, get_elem?, take, drop,
}
use livegrep.Runtime.{index_out_of_range, Run, ret, panic, ◌>>=◌}

pub record GitBranch : Type 0 where
  pub name : Text
  pub is_head : Bool
  pub last_activity_date : Text

pub record GitTag : Type 0 where
  pub name : Text
  pub is_head : Bool
  pub last_activity_date : Text

module _ {ℓ} {A : Type ℓ} where
  unfoldable pub set_at : ℕ → A → List A → List A
  set_at k v [] = []
  set_at zero v (x ∷ xs) = v ∷ xs
  set_at (suc k) v (x ∷ xs) = x ∷ set_at k v xs

  -- `swap(i, j)`, at indices in range
  abbrev pub swap : ℕ → ℕ → List A → List A
  swap i j xs = elim (get_elem? xs i) [
    | none ↦ xs
    | some a ↦ elim (get_elem? xs j) [ none ↦ xs | some b ↦ set_at i b (set_at j a xs) ]
  ]

  -- the loop of `ReverseSlice`; there are fewer rounds than entries
  unfoldable pub reverse_loop : ℕ → ℕ → ℕ → List A → List A
  unfolding set_at
  reverse_loop zero i j xs = xs
  reverse_loop (suc fuel) i j xs =
      let more = reverse_loop fuel (i + 1) (j - 1) (swap i j xs) in if ltb i j then more else xs

  unfoldable pub reverse_slice : List A → List A
  unfolding reverse_loop
  reverse_slice xs = reverse_loop (length xs) 0 (length xs - 1) xs

unfoldable pub parse_branch : Text → Run GitBranch
unfolding split text_eq
parse_branch line = do
  mark ← part_at (split 0 line) 0
  name ← part_at (split 0 line) 2
  date ← part_at (split 0 line) 1
  ret (record { name = name; is_head = text_eq mark (codes "*"); last_activity_date = date })

-- the variables of the loop of `ListAllBranches`; `idx` is the number of branches
pub record BranchScan : Type 0 where
  pub branches : List GitBranch
  pub head_idx : Option ℕ

unfoldable pub scan_branches : BranchScan → List Text → Run BranchScan
unfolding parse_branch
scan_branches st [] = ret st
scan_branches st (line ∷ lines) = do
  b ← parse_branch line
  scan_branches
      (record {
        branches = st.branches ++ (b ∷ []);
        head_idx = if b.is_head then some (length st.branches) else st.head_idx;
      })
      lines

-- the entry at `i` to the end
abbrev pub move_to_end : ℕ → List GitBranch → Run (List GitBranch)
move_to_end i branches = elim (get_elem? branches i) [
  | none ↦ panic index_out_of_range
  | some tmp ↦ ret (take i branches ++ drop (i + 1) branches ++ (tmp ∷ []))
]

-- `headIdx` is -1 where no branch is HEAD: that is the last index of an empty list only
unfoldable pub move_head : BranchScan → Run (List GitBranch)
move_head st = elim st.head_idx [
  | none ↦ elim st.branches [ [] ↦ ret [] | b ∷ bs ↦ panic index_out_of_range ]
  | some i ↦ if i + 1 == length st.branches then ret st.branches else move_to_end i st.branches
]

unfoldable pub list_all_branches : List Text → Run (List GitBranch)
unfolding scan_branches move_head reverse_slice
list_all_branches lines = do
  st ← scan_branches (record { branches = []; head_idx = none }) lines
  branches ← move_head st
  ret (reverse_slice branches)

unfoldable pub scan_tags : List GitTag → List Text → Run (List GitTag)
unfolding split_n text_eq
scan_tags tags [] = ret tags
scan_tags tags (line ∷ lines) = do
  name ← part_at (split_n 0 2 line) 2
  mark ← part_at (split_n 0 2 line) 0
  date ← part_at (split_n 0 2 line) 1
  scan_tags
      (tags
        ++ (record { name = name; is_head = text_eq mark (codes "*"); last_activity_date = date }
            ∷ []))
      lines

unfoldable pub parse_git_list_tags_output : List Text → Run (List GitTag)
unfolding scan_tags reverse_slice
parse_git_list_tags_output lines = do tags ← scan_tags [] lines; ret (reverse_slice tags)
