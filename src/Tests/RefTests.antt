-- ===== src/Tests/RefTests.antt =====
-- Branches and tags at concrete outputs of git, and instances of the theorems.
use livegrep.GoText.Split.{cut_at, split_n, split}
use livegrep.Prelude.{
  ℕ, ◌≡◌, refl, true, false, List, [], ◌∷◌, ◌++◌, map, reverse, Text, codes, text_eq,
}
use livegrep.Refs.{
  GitTag, scan_tags, set_at, reverse_loop, move_head, parse_branch, scan_branches, GitBranch,
  list_all_branches, parse_git_list_tags_output, reverse_slice,
}
use livegrep.Refs.Head.{list_all_branches-head, render_branch}
use livegrep.Refs.Reverse.{reverse_slice-reverse}
use livegrep.Runtime.{Run, ret, panic, index_out_of_range}

run : (List Text → Run (List GitBranch)) × (List Text → Run (List GitTag)) × (List ℕ → List ℕ)
unfolding list_all_branches scan_branches parse_branch move_head reverse_slice reverse_loop set_at
    split split_n cut_at text_eq parse_git_list_tags_output scan_tags
run = (list_all_branches, parse_git_list_tags_output, reverse_slice)

abbrev main_branch : GitBranch
main_branch = record { name = codes "main"; is_head = true; last_activity_date = codes "today" }

abbrev old_branch : GitBranch
old_branch = record { name = codes "old"; is_head = false; last_activity_date = codes "2020" }

abbrev new_branch : GitBranch
new_branch = record { name = codes "new"; is_head = false; last_activity_date = codes "now" }

branches_run :
    list_all_branches (map render_branch (old_branch ∷ main_branch ∷ new_branch ∷ []))
    ≡ ret (main_branch ∷ new_branch ∷ old_branch ∷ [])
unfolding run
branches_run = refl

-- with a detached HEAD no branch is marked
detached_run : list_all_branches (map render_branch (old_branch ∷ [])) ≡ panic index_out_of_range
unfolding run
detached_run = refl

tags_run :
    parse_git_list_tags_output (map render_branch (old_branch ∷ []))
    ≡ ret (record { name = codes "old"; is_head = false; last_activity_date = codes "2020" } ∷ [])
unfolding run
tags_run = refl

list_all_branches-head_example :
    list_all_branches (
      map render_branch (old_branch ∷ [])
      ++ (render_branch main_branch ∷ map render_branch (new_branch ∷ [])))
    ≡ ret (main_branch ∷ reverse (old_branch ∷ new_branch ∷ []))
list_all_branches-head_example =
    list_all_branches-head (old_branch ∷ []) main_branch (new_branch ∷ [])
      ((((refl, (refl, (refl, (refl, tt)))), (refl, (refl, (refl, tt)))), refl), tt)
      ((refl, (refl, (refl, (refl, (refl, tt))))), (refl, (refl, (refl, (refl, tt))))) refl
      ((((refl, (refl, (refl, tt))), (refl, (refl, (refl, tt)))), refl), tt)

reverse_slice-reverse_example :
    reverse_slice (main_branch ∷ old_branch ∷ new_branch ∷ [])
    ≡ reverse (main_branch ∷ old_branch ∷ new_branch ∷ [])
reverse_slice-reverse_example = reverse_slice-reverse (main_branch ∷ old_branch ∷ new_branch ∷ [])
