-- ===== src/Directory/Tree.antt =====
-- `buildDirectoryTree` of `server/fileviewer/fileview.go`, with `TreeNode` of `server/api/types.go`. The
-- pointers to the directory that is filled and to its parents are a stack of open directories: a
-- directory joins the children of its parent when it is left, and the parent has no new child before.
pub mod Nesting
pub mod Preorder
use livegrep.Directory.{drop_last}
use livegrep.GoText.Decimal.{half_word, atoi}
use livegrep.GoText.Space.{trim_space}
use livegrep.GoText.Split.{split_n, cut_at, split}
use livegrep.Prelude.{
  ℕ, zero, suc, ◌+◌, ◌-◌, ◌*◌, ◌%◌, ◌^◌, Bool, true, false, ◌&&◌, Option, none, some, List, [], ◌∷◌,
  ◌++◌, ltb, leb, ◌==◌, if◌then◌else◌, Text, codes, text_eq,
}
use livegrep.Runtime.{nil_dereference, Run, ret, panic, ◌>>=◌}

pub record NodeInfo : Type 0 where
  pub name : Text
  pub path : Text
  pub mode : ℕ
  pub hash : Text
  pub node_type : Text

mutual
  pub data TreeNode : Type 0 where
    node : NodeInfo → Children → TreeNode

  pub data Children : Type 0 where
    no_children : Children
    child : TreeNode → Children → Children

abbrev pub children_of : List TreeNode → Children
children_of [] = no_children
children_of (t ∷ ts) = child t (children_of ts)

pub data TreeError : Type 0 where
  invalid_output invalid_size invalid_mode : TreeError

pub data TreeBuild : Type 0 where
  built : TreeNode → TreeBuild
  refused : TreeError → TreeBuild

-- octal digits behind `n`
unfoldable pub octal_value : ℕ → Text → Option ℕ
octal_value n [] = some n
octal_value n (c ∷ s) =
    if leb b'0' c && leb c b'7' then octal_value (n * 8 + (c - b'0')) s else none

abbrev below : ℕ → Option ℕ → Option ℕ
below bound none = none
below bound (some v) = if ltb v bound then some v else none

abbrev octal_digits : Text → Option ℕ
octal_digits [] = none
octal_digits (c ∷ s) = octal_value 0 (c ∷ s)

-- `os.FileMode` of strconv.ParseInt in base 8 with 32 bits
unfoldable pub parse_mode : Text → Option ℕ
unfolding octal_value
parse_mode [] = none
parse_mode (c ∷ s) =
    if c == b'-'
    then (elim (below (2 ^ 31 + 1) (octal_digits s)) [
      | none ↦ none
      | some v ↦ some ((2 ^ 32 - v) % 2 ^ 32)
    ])
    else if c == b'+'
    then below (2 ^ 31) (octal_digits s)
    else below (2 ^ 31) (octal_digits (c ∷ s))

-- the size is only looked at for an error
abbrev pub has_size : Text → Bool
has_size size =
    if text_eq size (codes "-")
    then true
    else elim (atoi size) [ none ↦ false | some v ↦ ltb v half_word ]

-- what a line gives: an entry, or the error that ends the function
pub data ParsedEntry : Type 0 where
  entry : NodeInfo → ParsedEntry
  wrong : TreeError → ParsedEntry

-- the count of slashes
unfoldable pub path_depth : Text → ℕ
path_depth [] = 0
path_depth (c ∷ s) = (if c == b'/' then 1 else 0) + path_depth s

-- the four parts in front of the tab, and the name behind it
abbrev pub make_entry : List Text → Text → ParsedEntry
make_entry (mode ∷ (node_type ∷ (hash ∷ (size ∷ [])))) name =
    if has_size (trim_space size)
    then (elim (parse_mode mode) [
      | none ↦ wrong invalid_mode
      | some m ↦
          entry (record { name = name; path = name; mode = m; hash = hash; node_type = node_type })
    ])
    else wrong invalid_size
make_entry _ name = wrong invalid_output

unfoldable pub parse_tree_line : Text → ParsedEntry
unfolding cut_at split_n trim_space text_eq atoi parse_mode
parse_tree_line line = elim (cut_at b'\t' line) [
  | none ↦ wrong invalid_output
  | some r ↦ make_entry (split_n 32 3 r.0) r.1
]

-- an open directory with its children so far
pub record OpenDir : Type 0 where
  pub info : NodeInfo
  pub children : List TreeNode

-- the variables of the loop; `parents` has the directories around `current`, the nearest first
pub record TreeState : Type 0 where
  pub prev_depth : ℕ
  pub current : OpenDir
  pub parents : List OpenDir

abbrev pub close : OpenDir → TreeNode
close d = node d.info (children_of d.children)

abbrev pub add_child : TreeNode → OpenDir → OpenDir
add_child t d = record d { children = d.children ++ (t ∷ []) }

-- `for prevDepth > pathDepth`; the root has no parent
unfoldable pub climb : ℕ → ℕ → OpenDir → List OpenDir → Run TreeState
climb depth zero current parents =
    ret (record { prev_depth = 0; current = current; parents = parents })
climb depth (suc n) current [] =
    if ltb depth (suc n)
    then panic nil_dereference
    else ret (record { prev_depth = suc n; current = current; parents = [] })
climb depth (suc n) current (p ∷ ps) =
    let more = climb depth n (add_child (close current) p) ps in
    if ltb depth (suc n)
    then more
    else ret (record { prev_depth = suc n; current = current; parents = p ∷ ps })

-- `base` is filepath.Base
module _ (base : Text → Text) where
  -- the entry, named by the last part of its path, in the current directory
  abbrev pub place : NodeInfo → TreeState → TreeState
  place info st =
      let named = record info { name = base info.name } in
      if text_eq info.node_type (codes "tree")
      then record {
        prev_depth = st.prev_depth + 1;
        current = record { info = named; children = [] };
        parents = st.current ∷ st.parents;
      }
      else record st { current = add_child (node named no_children) st.current }

  unfoldable pub tree_step : NodeInfo → TreeState → Run TreeState
  unfolding climb path_depth text_eq
  tree_step info st = do
    st' ← climb (path_depth info.name) st.prev_depth st.current st.parents
    ret (place info st')

  -- the root, when everything is left
  abbrev pub close_all : OpenDir → List OpenDir → TreeNode
  close_all current [] = close current
  close_all current (p ∷ ps) = close_all (add_child (close current) p) ps

  -- the loop; what stands behind the last NUL is not looked at
  unfoldable pub tree_loop : List Text → TreeState → Run TreeBuild
  unfolding parse_tree_line tree_step
  tree_loop [] st = ret (built (close_all st.current st.parents))
  tree_loop (line ∷ lines) st = elim (parse_tree_line line) [
    | wrong e ↦ ret (refused e)
    | entry info ↦ do st' ← tree_step info st; tree_loop lines st'
  ]

  abbrev pub root_info : NodeInfo
  root_info = record { name = codes "root"; path = []; mode = 0; hash = []; node_type = [] }

  unfoldable pub build_directory_tree : Text → Run TreeBuild
  unfolding tree_loop split
  build_directory_tree out = tree_loop (drop_last (split 0 out)) (record {
    prev_depth = 0;
    current = record { info = root_info; children = [] };
    parents = [];
  })
