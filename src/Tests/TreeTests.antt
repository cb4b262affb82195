-- ===== src/Tests/TreeTests.antt =====
-- Directory trees at a concrete listing, and an instance of the theorem.
use livegrep.Directory.Tree.Nesting.{build_directory_tree-levels, levels, IsNested, entries_at}
use livegrep.Directory.{drop_last}
use livegrep.Directory.Tree.{
  children_of, node, no_children, ParsedEntry, octal_value, parse_mode, parse_tree_line, path_depth,
  climb, root_info, tree_step, TreeNode, built, tree_loop, NodeInfo, TreeBuild,
  build_directory_tree,
}
use livegrep.Directory.Tree.Preorder.{build_directory_tree-infos, AllParse, entries_of, infos}
use livegrep.GoText.Decimal.{is_digit, digits_value, magnitude, atoi}
use livegrep.GoText.Space.{is_space, trim_left, trim_space}
use livegrep.GoText.Split.{split, split_n, cut_at}
use livegrep.Prelude.{◌≡◌, refl, none, some, [], ◌∷◌, ◌++◌, arith, reverse, Text, codes, text_eq}
use livegrep.Runtime.{Run, ret}

run : ((Text → Text) → Text → Run TreeBuild) × (Text → ParsedEntry)
unfolding build_directory_tree tree_loop tree_step climb path_depth text_eq parse_tree_line cut_at
    split_n split trim_space trim_left is_space atoi magnitude digits_value is_digit parse_mode
    octal_value
run = (build_directory_tree, parse_tree_line)

-- a stand-in for filepath.Base: what stands behind the last slash
abbrev last_part : Text → Text
last_part s = elim (cut_at b'/' (reverse s)) [ none ↦ s | some r ↦ reverse r.0 ]

abbrev listing : Text
listing =
    codes "040000 tree h1       -\ta"
    ++ (0 ∷ codes "100644 blob h2      12\ta/b.c")
    ++ (0 ∷ codes "100644 blob h3       0\tz")
    ++ (0 ∷ [])

abbrev blob : Text → Text → Text → NodeInfo
blob name path hash = record {
  name = name;
  path = path;
  mode = 33188;
  hash = hash;
  node_type = codes "blob";
}

abbrev tree_a : NodeInfo
tree_a = record {
  name = codes "a";
  path = codes "a";
  mode = 16384;
  hash = codes "h1";
  node_type = codes "tree";
}

tree_run :
    build_directory_tree last_part listing
    ≡ ret (
        built (
          node (root_info last_part) (
            children_of (
              node tree_a (
                children_of
                  (node (blob (codes "b.c") (codes "a/b.c") (codes "h2")) no_children ∷ []))
              ∷ node (blob (codes "z") (codes "z") (codes "h3")) no_children
              ∷ []))))
unfolding run
tree_run = refl

build_directory_tree-infos_example :
    (r : TreeBuild) × (build_directory_tree last_part listing ≡ ret r)
    × ((t : TreeNode)
        → r ≡ built t
        → infos t ≡ root_info last_part ∷ entries_of last_part (drop_last (split 0 listing)))
    × (AllParse last_part (drop_last (split 0 listing)) → (t : TreeNode) × (r ≡ built t))
build_directory_tree-infos_example = build_directory_tree-infos last_part listing

listing-AllParse : AllParse last_part (drop_last (split 0 listing))
unfolding run
listing-AllParse = ((_, refl), ((_, refl), ((_, refl), tt)))

listing-IsNested : IsNested 0 (drop_last (split 0 listing))
unfolding run path_depth
listing-IsNested = (omega arith, (omega arith, (omega arith, tt)))

build_directory_tree-levels_example :
    (t : TreeNode) × (build_directory_tree last_part listing ≡ ret (built t))
    × (levels 0 t ≡ (0, root_info last_part) ∷ entries_at last_part (drop_last (split 0 listing)))
build_directory_tree-levels_example =
    build_directory_tree-levels last_part listing listing-AllParse listing-IsNested
