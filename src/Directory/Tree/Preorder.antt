-- ===== src/Directory/Tree/Preorder.antt =====
-- The tree that `buildDirectoryTree` builds holds the entries in their order.
use livegrep.Directory.{drop_last}
use livegrep.Directory.Tree.{
  TreeError, path_depth, root_info, ParsedEntry, build_directory_tree, tree_step, child,
  no_children, Children, node, entry, built, close, refused, wrong, TreeBuild, add_child,
  children_of, close_all, parse_tree_line, place, NodeInfo, OpenDir, TreeNode, TreeState, climb,
  tree_loop,
}
use livegrep.GoText.Split.{split}
use livegrep.Prelude.{
  ℕ, zero, suc, ◌≡◌, refl, sym, ap, ◌∙◌, ◌⊎◌, inl, inr, List, [], ◌∷◌, ◌++◌, append-nil,
  append_assoc, arith, ltb, Bool-cases, Text, codes, text_eq, length, All,
}
use livegrep.Runtime.{ret}
use mathlib.Core.Path.{subst}

abbrev mutual
  -- the entries of a tree, a directory in front of what it holds
  pub infos : TreeNode → List NodeInfo
  infos (node i cs) = i ∷ infos_below cs

  pub infos_below : Children → List NodeInfo
  infos_below no_children = []
  infos_below (child t cs) = infos t ++ infos_below cs

abbrev infos_list : List TreeNode → List NodeInfo
infos_list ts = infos_below (children_of ts)

infos_list-append : (xs ys : List TreeNode) → infos_list (xs ++ ys) ≡ infos_list xs ++ infos_list ys
infos_list-append [] ys = refl
infos_list-append (x ∷ xs) ys = simp (infos_list-append xs ys, append_assoc)

-- the entries of open directories, the outermost first
abbrev order_of : List OpenDir → List NodeInfo
order_of [] = []
order_of (d ∷ ds) = order_of ds ++ (d.info ∷ infos_list d.children)

order_of-close :
    (c p : OpenDir) (ps : List OpenDir)
    → order_of (add_child (close c) p ∷ ps) ≡ order_of (c ∷ (p ∷ ps))
order_of-close c p ps = simp (infos_list-append p.children (close c ∷ []), append_assoc, append-nil)

-- the loop knows how many directories are open
abbrev pub IsLevel : TreeState → Type 0
IsLevel st = st.prev_depth ≡ length st.parents

climb_lem :
    (depth n : ℕ) (c : OpenDir) (ps : List OpenDir)
    → n ≡ length ps
    → (st : TreeState) × (climb depth n c ps ≡ ret st)
      × IsLevel st
      × (order_of (st.current ∷ st.parents) ≡ order_of (c ∷ ps))
unfolding climb
climb_lem depth zero c ps e = (record { prev_depth = 0; current = c; parents = ps }, refl, e, refl)
climb_lem depth (suc n) c [] e = absurd (omega arith)
climb_lem depth (suc n) c (p ∷ ps) e = elim (Bool-cases (ltb depth (suc n))) [
  | inl h ↦
      let (st, f, l, o) = climb_lem depth n (add_child (close c) p) ps (omega arith) in
      rw h (st, f, l, o ∙ order_of-close c p ps)
  | inr h ↦ rw h (record { prev_depth = suc n; current = c; parents = p ∷ ps }, refl, e, refl)
]

pub ParsedEntry-cases :
    (p : ParsedEntry) → ((info : NodeInfo) × (p ≡ entry info)) ⊎ ((e : TreeError) × (p ≡ wrong e))
ParsedEntry-cases (entry info) = inl (info, refl)
ParsedEntry-cases (wrong e) = inr (e, refl)

module _ (base : Text → Text) where
  abbrev pub named : NodeInfo → NodeInfo
  named info = record info { name = base info.name }

  place_lem :
      (info : NodeInfo) (st : TreeState)
      → IsLevel st
      → IsLevel (place base info st)
        × (order_of ((place base info st).current ∷ (place base info st).parents)
            ≡ order_of (st.current ∷ st.parents) ++ (named info ∷ []))
  place_lem info st l = elim (Bool-cases (text_eq info.node_type (codes "tree"))) [
    | inl h ↦ rw h (omega arith, refl)
    | inr h ↦ rw h (
      l,
      simp (
        infos_list-append st.current.children (node (named info) no_children ∷ []),
        append_assoc,
      ),
    )
  ]

  close_all_lem :
      (c : OpenDir) (ps : List OpenDir) → infos (close_all base c ps) ≡ order_of (c ∷ ps)
  close_all_lem c [] = refl
  close_all_lem c (p ∷ ps) = close_all_lem (add_child (close c) p) ps ∙ order_of-close c p ps

  tree_step_lem :
      (info : NodeInfo) (st : TreeState)
      → IsLevel st
      → (out : TreeState) × (tree_step base info st ≡ ret out)
        × IsLevel out
        × (order_of (out.current ∷ out.parents)
            ≡ order_of (st.current ∷ st.parents) ++ (named info ∷ []))
  unfolding tree_step
  tree_step_lem info st l =
      let (st', e, l', o) =
        climb_lem (path_depth info.name) st.prev_depth st.current st.parents l in
      let (l2, o2) = place_lem info st' l' in
      (place base info st', rw (tree_step, e), l2, o2 ∙ ap (λ r. r ++ (named info ∷ [])) o)

  -- the entries of the lines
  abbrev pub entries_of : List Text → List NodeInfo
  entries_of [] = []
  entries_of (line ∷ lines) = elim (parse_tree_line line) [
    | wrong e ↦ []
    | entry info ↦ named info ∷ entries_of lines
  ]

  -- every line is an entry
  abbrev pub AllParse : List Text → Type 0
  AllParse = All (λ line. (info : NodeInfo) × (parse_tree_line line ≡ entry info))

  -- a tree holds the entries of `lines` behind those of `before`
  abbrev Holds : List NodeInfo → List Text → TreeBuild → Type 0
  Holds before lines (refused e) = ¬ AllParse lines
  Holds before lines (built t) = infos t ≡ before ++ entries_of lines

  one_more :
      (before : List NodeInfo) (info : NodeInfo) (line : Text) (lines : List Text) (r : TreeBuild)
      → parse_tree_line line ≡ entry info
      → Holds (before ++ (named info ∷ [])) lines r
      → Holds before (line ∷ lines) r
  one_more before info line lines (refused x) e h = λ p. h p.1
  one_more before info line lines (built t) e h = h ∙ append_assoc before _ _ ∙ rw (entries_of, e)

  tree_loop_lem :
      (lines : List Text) (st : TreeState)
      → IsLevel st
      → (r : TreeBuild) × (tree_loop base lines st ≡ ret r)
        × Holds (order_of (st.current ∷ st.parents)) lines r
  unfolding tree_loop
  tree_loop_lem [] st l = (
    built (close_all base st.current st.parents),
    refl,
    close_all_lem st.current st.parents ∙ sym (append-nil _),
  )
  tree_loop_lem (line ∷ lines) st l = elim (ParsedEntry-cases (parse_tree_line line)) [
    | inr (x, e) ↦ rw (tree_loop, e) (refused x, refl, λ p. cc (p.0.1, e))
    | inl (info, e) ↦
        let (st', f, l', o) = tree_step_lem info st l in
        let (r, g, h) = tree_loop_lem lines st' l' in
        (
          r,
          rw (tree_loop, e, f) g,
          one_more (order_of (st.current ∷ st.parents)) info line lines r e
              (subst (λ before. Holds before lines r) o h),
        )
  ]

  is_built :
      (before : List NodeInfo) (lines : List Text) (r : TreeBuild)
      → Holds before lines r
      → AllParse lines
      → (t : TreeNode) × (r ≡ built t)
  is_built before lines (refused e) h p = absurd (h p)
  is_built before lines (built t) h p = (t, refl)

  -- `buildDirectoryTree` returns on every listing without a panic; a tree that it returns holds,
  -- each directory in front of what is in it, the entries of the listing in their order, named by
  -- the last parts of their paths, and where every line is an entry it returns a tree.
  pub build_directory_tree-infos :
      (out : Text)
      → (r : TreeBuild) × (build_directory_tree base out ≡ ret r)
        × ((t : TreeNode)
            → r ≡ built t
            → infos t ≡ root_info base ∷ entries_of (drop_last (split 0 out)))
        × (AllParse (drop_last (split 0 out)) → (t : TreeNode) × (r ≡ built t))
  unfolding build_directory_tree
  build_directory_tree-infos out =
      let start : TreeState = record {
        prev_depth = 0;
        current = record { info = root_info base; children = [] };
        parents = [];
      } in
      let (r, e, h) = tree_loop_lem (drop_last (split 0 out)) start refl in
      (
        r,
        e,
        λ t f. subst (Holds (root_info base ∷ []) (drop_last (split 0 out))) f h,
        is_built (root_info base ∷ []) (drop_last (split 0 out)) r h,
      )
