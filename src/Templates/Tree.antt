-- ===== src/Templates/Tree.antt =====
-- `getTreeItemLink` and `RenderDirectoryTree` of `server/templates/templates.go`. A padding is an `int`, kept as
-- its 64-bit pattern.
use livegrep.Directory.Tree.{TreeNode, child, no_children, node, Children, NodeInfo}
use livegrep.GoText.Decimal.{int_lt, print_int, word}
use livegrep.GoText.Prefix.{has_prefix}
use livegrep.Prelude.{
  ℕ, ◌+◌, ◌-◌, ◌%◌, Bool, ◌||◌, [], ◌++◌, ◌==◌, if◌then◌else◌, Text, codes, text_eq,
}

abbrev pub img_link : Text
img_link = codes "<img src=\"/assets/img/file-icon.svg\" width=\"16px\" height=\"16px\" />"

-- -15
abbrev pub root_padding : ℕ
root_padding = word - 15

abbrev pub deeper : ℕ → ℕ
deeper padding = (padding + 15) % word

-- a class that is added behind another one
abbrev pub with_class : Text → Bool → Text → Text
with_class cls present other = if present then cls ++ other else cls

abbrev pub in_div : Text → Text → Text
in_div cls inner = codes "<div class=\"" ++ (cls ++ (codes "\">" ++ (inner ++ codes "</div>")))

module _ (repo_name repo_rev : Text) where
  abbrev pub item_href : NodeInfo → Text
  item_href info =
      codes "/experimental/"
      ++ (repo_name
          ++ (codes "/"
              ++ (info.node_type ++ (codes "/" ++ (repo_rev ++ (codes "/" ++ info.path))))))

  abbrev pub expander : Bool → Text
  expander file_in_path =
      codes "<button class=\"expander\"><div class=\""
      ++ (with_class (codes "arrow") file_in_path (codes " expanded") ++ codes "\" /></button>")

  unfoldable pub get_tree_item_link : NodeInfo → ℕ → Bool → Text
  unfolding text_eq print_int
  get_tree_item_link info padding file_in_path =
      codes "<a style=\"padding-left:"
      ++ (print_int (if int_lt padding 0 then 0 else padding)
          ++ (codes "px;\" data-path=\""
              ++ (info.path
                  ++ (codes "\" data-hash=\""
                      ++ (repo_rev
                          ++ (codes "\" href=\""
                              ++ (item_href info
                                  ++ (codes "\">"
                                      ++ ((if text_eq info.node_type (codes "tree")
                                            then expander file_in_path
                                            else img_link)
                                          ++ (codes "<span>"
                                              ++ (info.name ++ codes "</span></a>")))))))))))

  module _ (filepath : Text) where
    abbrev pub selected : NodeInfo → Text
    selected info = if text_eq info.path filepath then codes "selected" else []

    abbrev pub in_path : NodeInfo → Bool
    in_path info = has_prefix filepath info.path

    -- what stands for a directory or a file itself, below the root
    abbrev pub own_item : NodeInfo → ℕ → Text
    own_item info padding =
        let link = get_tree_item_link info padding (in_path info) in
        if text_eq info.node_type (codes "tree")
        then codes "<div>" ++ (link ++ codes "</div>")
        else in_div (selected info) (img_link ++ link)

    abbrev pub opening : NodeInfo → ℕ → Text
    opening info padding =
        codes "<div class=\"\""
        ++ (if padding == root_padding
            then codes "id=\"root\">"
            else codes ">" ++ own_item info padding)

    abbrev pub closing : ℕ → Text
    closing padding = codes "</div>" ++ (if padding == root_padding then codes "</nav>" else [])

    -- the box around the children, if there are any
    abbrev pub children_box : Bool → Children → Text → Text
    children_box expanded no_children inner = []
    children_box expanded (child t ts) inner =
        in_div (with_class (codes "children") expanded (codes " expanded")) inner

    -- a child without children is drawn at once
    abbrev pub leaf_or : TreeNode → ℕ → Bool → Text → Text
    leaf_or (node info no_children) padding file_in_path rendered =
        in_div (selected info) (get_tree_item_link info padding file_in_path)
    leaf_or (node info (child t ts)) padding file_in_path rendered = rendered

    unfoldable mutual
      unfolding get_tree_item_link text_eq has_prefix

      pub render_directory_tree : TreeNode → ℕ → Text
      render_directory_tree (node info children) padding =
          opening info padding
          ++ (children_box (in_path info || padding == root_padding) children
                (render_children children (deeper padding) (in_path info))
              ++ closing padding)

      pub render_children : Children → ℕ → Bool → Text
      render_children no_children padding file_in_path = []
      render_children (child t ts) padding file_in_path =
          leaf_or t padding file_in_path (render_directory_tree t padding)
          ++ render_children ts padding file_in_path
