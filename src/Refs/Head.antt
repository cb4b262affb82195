-- ===== src/Refs/Head.antt =====
-- The branch that is HEAD comes first.
use livegrep.GoText.Split.{Lacks, split_n-join_by, join_by, split}
use livegrep.Prelude.{
  suc, ◌+◌, ◌≤◌, ◌≡◌, refl, sym, ap, ◌∙◌, inl, inr, Bool, true, false, none, some, List, [], ◌∷◌,
  ◌++◌, append-nil, append_assoc, arith, map, reverse, ◌==◌, if◌then◌else◌, Bool-cases, Text, codes,
  text_eq, length, get_elem?, take, drop, length-append, All,
}
use livegrep.Refs.{
  move_to_end, BranchScan, GitBranch, list_all_branches, move_head, parse_branch, scan_branches,
}
use livegrep.Refs.Reverse.{reverse_slice-reverse}
use livegrep.Runtime.{ret}
use mathlib.Core.List.{reverse-append}

-- the three fields of a line, which hold no NUL byte
abbrev pub branch_mark : GitBranch → Text
branch_mark b = if b.is_head then codes "*" else codes " "

abbrev pub render_branch : GitBranch → Text
render_branch b = join_by 0 (branch_mark b ∷ (b.last_activity_date ∷ (b.name ∷ [])))

abbrev pub IsWritten : GitBranch → Type 0
IsWritten b = Lacks 0 b.last_activity_date × Lacks 0 b.name

mark_lem :
    (b : GitBranch) → Lacks 0 (branch_mark b) × (text_eq (branch_mark b) (codes "*") ≡ b.is_head)
unfolding text_eq
mark_lem b = elim (Bool-cases b.is_head) [
  | inl h ↦ rw h ((refl, tt), refl)
  | inr h ↦ rw h ((refl, tt), refl)
]

long_enough : (p q r : Text) → 2 ≤ length (join_by 0 (p ∷ (q ∷ (r ∷ []))))
long_enough p q r = omega (arith, length-append p (0 ∷ (q ++ (0 ∷ r))), length-append q (0 ∷ r))

fields_of :
    (b : GitBranch)
    → IsWritten b
    → split 0 (render_branch b) ≡ branch_mark b ∷ (b.last_activity_date ∷ (b.name ∷ []))
unfolding split
fields_of b (d, n) =
    let (m, e) = mark_lem b in
    split_n-join_by 0 (length (render_branch b)) (branch_mark b)
      (b.last_activity_date ∷ (b.name ∷ []))
      (long_enough (branch_mark b) b.last_activity_date b.name) (m, (d, (n, tt)))

parse_branch-render_branch : (b : GitBranch) → IsWritten b → parse_branch (render_branch b) ≡ ret b
unfolding parse_branch
parse_branch-render_branch b w = rw (parse_branch, fields_of b w, (mark_lem b).1)

abbrev pub IsOther : GitBranch → Type 0
IsOther b = IsWritten b × (b.is_head ≡ false)

-- the variables behind a branch
abbrev scanned : GitBranch → Bool → BranchScan → BranchScan
scanned b is_head st = record {
  branches = st.branches ++ (b ∷ []);
  head_idx = if is_head then some (length st.branches) else st.head_idx;
}

scan_branches-render_branch :
    (b : GitBranch) (is_head : Bool) (st : BranchScan) (more : List Text)
    → IsWritten b
    → b.is_head ≡ is_head
    → scan_branches st (render_branch b ∷ more) ≡ scan_branches (scanned b is_head st) more
unfolding scan_branches
scan_branches-render_branch b is_head st more w e =
    rw (parse_branch-render_branch b w) (ap (λ f. scan_branches (scanned b f st) more) e)

scan_branches-others :
    (bs : List GitBranch) (st : BranchScan) (more : List Text)
    → All IsOther bs
    → scan_branches st (map render_branch bs ++ more)
      ≡ scan_branches (record st { branches = st.branches ++ bs }) more
unfolding scan_branches
scan_branches-others [] st more h = simp append-nil
scan_branches-others (b ∷ bs) st more ((w, n), h) =
    scan_branches-render_branch b false st (map render_branch bs ++ more) w n
    ∙ scan_branches-others bs (scanned b false st) more h
    ∙ simp append_assoc

take_front : (xs ys : List GitBranch) → take (length xs) (xs ++ ys) ≡ xs
take_front [] ys = refl
take_front (x ∷ xs) ys = ap (λ r. x ∷ r) (take_front xs ys)

drop_front :
    (xs : List GitBranch) (y : GitBranch) (ys : List GitBranch)
    → drop (suc (length xs)) (xs ++ (y ∷ ys)) ≡ ys
drop_front [] y ys = refl
drop_front (x ∷ xs) y ys = drop_front xs y ys

at_front :
    (xs : List GitBranch) (y : GitBranch) (ys : List GitBranch)
    → get_elem? (xs ++ (y ∷ ys)) (length xs) ≡ some y
at_front [] y ys = refl
at_front (x ∷ xs) y ys = at_front xs y ys

move_to_end_lem :
    (pre : List GitBranch) (h : GitBranch) (post : List GitBranch)
    → move_to_end (length pre) (pre ++ (h ∷ post)) ≡ ret (pre ++ post ++ (h ∷ []))
move_to_end_lem pre h post =
    let e : length pre + 1 ≡ suc (length pre) = omega arith in
    rw (move_to_end, at_front pre h post, take_front pre (h ∷ post), e, drop_front pre h post)

move_head_lem :
    (pre : List GitBranch) (h : GitBranch) (post : List GitBranch)
    → move_head (record { branches = pre ++ (h ∷ post); head_idx = some (length pre) })
      ≡ ret (pre ++ post ++ (h ∷ []))
unfolding move_head
move_head_lem pre h [] =
    let c : (length pre + 1 == length (pre ++ (h ∷ []))) ≡ true =
      ground (arith, length-append pre (h ∷ [])) in
    rw c (simp append-nil)
move_head_lem pre h (p ∷ post) =
    let c : (length pre + 1 == length (pre ++ (h ∷ (p ∷ post)))) ≡ false =
      ground (arith, length-append pre (h ∷ (p ∷ post))) in
    rw c (move_to_end_lem pre h (p ∷ post))

scan_branches-head :
    (pre : List GitBranch) (h : GitBranch) (post : List GitBranch)
    → All IsOther pre
    → IsWritten h
    → h.is_head ≡ true
    → All IsOther post
    → scan_branches
        (record { branches = []; head_idx = none })
        (map render_branch pre ++ (render_branch h ∷ map render_branch post))
      ≡ ret (record { branches = pre ++ (h ∷ post); head_idx = some (length pre) })
unfolding scan_branches
scan_branches-head pre h post a w e b =
    let st : BranchScan = record { branches = []; head_idx = none } in
    let st' : BranchScan = record { branches = pre; head_idx = none } in
    scan_branches-others pre st (render_branch h ∷ map render_branch post) a
    ∙ scan_branches-render_branch h true st' (map render_branch post) w e
    ∙ ap (scan_branches (scanned h true st')) (sym (append-nil (map render_branch post)))
    ∙ scan_branches-others post (scanned h true st') [] b
    ∙ simp append_assoc

-- For lines of branches without a NUL byte in their names and dates, of which exactly one is HEAD,
-- `ListAllBranches` returns that branch and then the others in the reverse of git's order.
pub list_all_branches-head :
    (pre : List GitBranch) (h : GitBranch) (post : List GitBranch)
    → All IsOther pre
    → IsWritten h
    → h.is_head ≡ true
    → All IsOther post
    → list_all_branches (map render_branch pre ++ (render_branch h ∷ map render_branch post))
      ≡ ret (h ∷ reverse (pre ++ post))
unfolding list_all_branches
list_all_branches-head pre h post a w e b =
    rw (list_all_branches, scan_branches-head pre h post a w e b, move_head_lem pre h post)
      (ap ret
        (reverse_slice-reverse (pre ++ post ++ (h ∷ [])) ∙ reverse-append (pre ++ post) (h ∷ [])))
