-- ===== src/Directory/Tree/Nesting.antt =====
-- Where `buildDirectoryTree` puts the entries of a listing.
use livegrep.Directory.{drop_last}
use livegrep.Directory.Tree.{
  root_info, close, place, Children, TreeBuild, TreeState, add_child, children_of, close_all,
  path_depth, NodeInfo, OpenDir, TreeNode, build_directory_tree, climb, parse_tree_line, tree_loop,
  tree_step, node, child, no_children, built, refused, entry, wrong,
}
use livegrep.Directory.Tree.Preorder.{
  ParsedEntry-cases, IsLevel, named, AllParse, build_directory_tree-infos,
}
use livegrep.GoText.Split.{split}
use livegrep.Prelude.{
  ℕ, zero, suc, ◌≤◌, ◌≡◌, refl, sym, ap, ◌∙◌, inl, inr, List, [], ◌∷◌, ◌++◌, append-nil,
  append_assoc, arith, ltb, if◌then◌else◌, Bool-cases, Text, codes, text_eq, length,
}
use livegrep.Runtime.{ret-injective, ret}
use mathlib.Core.Path.{subst}

abbrev mutual
  -- the entries of a tree with the number of directories around each, a directory in front of what it holds
  pub levels : ℕ → TreeNode → List (ℕ × NodeInfo)
  levels d (node i cs) = (d, i) ∷ levels_below (suc d) cs

  pub levels_below : ℕ → Children → List (ℕ × NodeInfo)
  levels_below d no_children = []
  levels_below d (child t cs) = levels d t ++ levels_below d cs

abbrev levels_list : ℕ → List TreeNode → List (ℕ × NodeInfo)
levels_list d ts = levels_below d (children_of ts)

levels_list-append :
    (d : ℕ) (xs ys : List TreeNode)
    → levels_list d (xs ++ ys) ≡ levels_list d xs ++ levels_list d ys
levels_list-append d [] ys = refl
levels_list-append d (x ∷ xs) ys = simp (levels_list-append d xs ys, append_assoc)

-- the entries of open directories with their levels, the outermost first
abbrev order_at : List OpenDir → List (ℕ × NodeInfo)
order_at [] = []
order_at (d ∷ ds) = order_at ds ++ ((length ds, d.info) ∷ levels_list (suc (length ds)) d.children)

order_at-close :
    (c p : OpenDir) (ps : List OpenDir)
    → order_at (add_child (close c) p ∷ ps) ≡ order_at (c ∷ (p ∷ ps))
order_at-close c p ps =
    simp (levels_list-append (suc (length ps)) p.children (close c ∷ []), append_assoc, append-nil)

order_at-add :
    (x : NodeInfo) (c : OpenDir) (ps : List OpenDir)
    → order_at (add_child (node x no_children) c ∷ ps)
      ≡ order_at (c ∷ ps) ++ ((suc (length ps), x) ∷ [])
order_at-add x c ps =
    simp (levels_list-append (suc (length ps)) c.children (node x no_children ∷ []), append_assoc)

-- from a level that is not above the asked one, the loop ends at the asked one
climb_lem :
    (depth n : ℕ) (c : OpenDir) (ps : List OpenDir)
    → n ≡ length ps
    → depth ≤ n
    → (st : TreeState) × (climb depth n c ps ≡ ret st)
      × IsLevel st
      × (st.prev_depth ≡ depth)
      × (order_at (st.current ∷ st.parents) ≡ order_at (c ∷ ps))
unfolding climb
climb_lem depth zero c ps e le =
    (record { prev_depth = 0; current = c; parents = ps }, refl, e, omega arith, refl)
climb_lem depth (suc n) c [] e le = absurd (omega arith)
climb_lem depth (suc n) c (p ∷ ps) e le = elim (Bool-cases (ltb depth (suc n))) [
  | inl h ↦
      let less : depth ≤ n = ground arith in
      let (st, f, l, d, o) = climb_lem depth n (add_child (close c) p) ps (omega arith) less in
      rw h (st, f, l, d, o ∙ order_at-close c p ps)
  | inr h ↦
      let same : suc n ≡ depth = ground arith in
      rw h (record { prev_depth = suc n; current = c; parents = p ∷ ps }, refl, e, same, refl)
]

-- the level behind an entry
abbrev pub level_behind : NodeInfo → ℕ
level_behind info =
    if text_eq info.node_type (codes "tree")
    then suc (path_depth info.name)
    else path_depth info.name

-- Each entry is in the directory of the entry before it, in that entry, or further out.
abbrev pub IsNested : ℕ → List Text → Type 0
IsNested level [] = Unit
IsNested level (line ∷ lines) = elim (parse_tree_line line) [
  | wrong e ↦ Unit
  | entry info ↦ (path_depth info.name ≤ level) × IsNested (level_behind info) lines
]

module _ (base : Text → Text) where
  place_lem :
      (info : NodeInfo) (st : TreeState)
      → IsLevel st
      → st.prev_depth ≡ path_depth info.name
      → IsLevel (place base info st)
        × ((place base info st).prev_depth ≡ level_behind info)
        × (order_at ((place base info st).current ∷ (place base info st).parents)
            ≡ order_at (st.current ∷ st.parents)
              ++ ((suc (path_depth info.name), named base info) ∷ []))
  place_lem info st l d =
      let level : length st.parents ≡ path_depth info.name = sym l ∙ d in
      elim (Bool-cases (text_eq info.node_type (codes "tree"))) [
        | inl h ↦ rw h (omega arith, omega arith, rw level refl)
        | inr h ↦ rw h (
          l,
          d,
          order_at-add (named base info) st.current st.parents
              ∙ ap (λ k. order_at (st.current ∷ st.parents) ++ ((suc k, named base info) ∷ []))
                  level,
        )
      ]

  -- the entries of the lines, each one level below the directories that its path names
  abbrev pub entries_at : List Text → List (ℕ × NodeInfo)
  entries_at [] = []
  entries_at (line ∷ lines) = elim (parse_tree_line line) [
    | wrong e ↦ []
    | entry info ↦ (suc (path_depth info.name), named base info) ∷ entries_at lines
  ]

  close_all_lem :
      (c : OpenDir) (ps : List OpenDir) → levels 0 (close_all base c ps) ≡ order_at (c ∷ ps)
  close_all_lem c [] = refl
  close_all_lem c (p ∷ ps) = close_all_lem (add_child (close c) p) ps ∙ order_at-close c p ps

  tree_step_lem :
      (info : NodeInfo) (st : TreeState)
      → IsLevel st
      → path_depth info.name ≤ st.prev_depth
      → (out : TreeState) × (tree_step base info st ≡ ret out)
        × IsLevel out
        × (out.prev_depth ≡ level_behind info)
        × (order_at (out.current ∷ out.parents)
            ≡ order_at (st.current ∷ st.parents)
              ++ ((suc (path_depth info.name), named base info) ∷ []))
  unfolding tree_step
  tree_step_lem info st l le =
      let (st', e, l', d, o) =
        climb_lem (path_depth info.name) st.prev_depth st.current st.parents l le in
      let (l2, d2, o2) = place_lem info st' l' d in
      (
        place base info st',
        rw (tree_step, e),
        l2,
        d2,
        o2 ∙ ap (λ r. r ++ ((suc (path_depth info.name), named base info) ∷ [])) o,
      )

  -- a tree holds the entries of `lines` behind those of `before`, at their levels
  abbrev HoldsAt : List (ℕ × NodeInfo) → List Text → TreeBuild → Type 0
  HoldsAt before lines (refused e) = Unit
  HoldsAt before lines (built t) = levels 0 t ≡ before ++ entries_at lines

  one_more_at :
      (before : List (ℕ × NodeInfo)) (info : NodeInfo) (line : Text) (lines : List Text)
      (r : TreeBuild)
      → parse_tree_line line ≡ entry info
      → HoldsAt (before ++ ((suc (path_depth info.name), named base info) ∷ [])) lines r
      → HoldsAt before (line ∷ lines) r
  one_more_at before info line lines (refused x) e h = tt
  one_more_at before info line lines (built t) e h =
      h ∙ append_assoc before _ _ ∙ rw (entries_at, e)

  tree_loop_lem :
      (lines : List Text) (st : TreeState)
      → IsLevel st
      → IsNested st.prev_depth lines
      → (r : TreeBuild) × (tree_loop base lines st ≡ ret r)
        × HoldsAt (order_at (st.current ∷ st.parents)) lines r
  unfolding tree_loop
  tree_loop_lem [] st l n = (
    built (close_all base st.current st.parents),
    refl,
    close_all_lem st.current st.parents ∙ sym (append-nil _),
  )
  tree_loop_lem (line ∷ lines) st l n = elim (ParsedEntry-cases (parse_tree_line line)) [
    | inr (x, e) ↦ rw (tree_loop, e) (refused x, refl, tt)
    | inl (info, e) ↦
        let (le, rest) = rw (e, IsNested) at n in
        let (st', f, l', d, o) = tree_step_lem info st l le in
        let (r, g, h) = tree_loop_lem lines st' l' (subst (λ k. IsNested k lines) (sym d) rest) in
        (
          r,
          rw (tree_loop, e, f) g,
          one_more_at (order_at (st.current ∷ st.parents)) info line lines r e
              (subst (λ before. HoldsAt before lines r) o h),
        )
  ]

  -- Where every line of a listing is an entry, and each entry is in the directory of the entry
  -- before it, in that entry if it is a directory, or further out, `buildDirectoryTree` returns a
  -- tree whose entries, read with each directory in front of what is in it, are the root and then
  -- the entries of the listing in their order, and each stands in as many directories, the root
  -- included, as its path has slashes and one more.
  pub build_directory_tree-levels :
      (out : Text)
      → AllParse base (drop_last (split 0 out))
      → IsNested 0 (drop_last (split 0 out))
      → (t : TreeNode) × (build_directory_tree base out ≡ ret (built t))
        × (levels 0 t ≡ (0, root_info base) ∷ entries_at (drop_last (split 0 out)))
  unfolding build_directory_tree
  build_directory_tree-levels out p n =
      let start : TreeState = record {
        prev_depth = 0;
        current = record { info = root_info base; children = [] };
        parents = [];
      } in
      let (r, e, h) = tree_loop_lem (drop_last (split 0 out)) start refl n in
      let (r', e', o, all) = build_directory_tree-infos base out in
      let (t, f) = all p in
      let same : r ≡ built t = ret-injective (sym e ∙ e' ∙ ap (λ x. ret x) f) in
      (
        t,
        e' ∙ ap (λ x. ret x) f,
        subst (HoldsAt ((0, root_info base) ∷ []) (drop_last (split 0 out))) same h,
      )
