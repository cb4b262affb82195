-- ===== src/Directory/Entries.antt =====
-- What `git cat-file -p` writes of a tree, `gitListDir` reads.
use livegrep.Directory.{parse_entries, GitTreeEntry, drop_last, git_list_dir, git_parse_tree_entry}
use livegrep.GoText.Split.{split-join_by, split_n-fields, Lacks, join_by, split}
use livegrep.Prelude.{◌≡◌, refl, ap, List, [], ◌∷◌, ◌++◌, Text, All}
use livegrep.Runtime.{ret}

-- An entry that git can write: no blank in the first three fields, no tab in them, no newline at all.
pub record IsWritten (e : GitTreeEntry) : Type 0 where
  pub no_blank : All (Lacks b' ') (e.mode ∷ e.object_type ∷ e.object_id ∷ [])
  pub no_tab : Lacks b'\t' (join_by b' ' (e.mode ∷ e.object_type ∷ e.object_id ∷ []))
  pub no_newline :
      Lacks b'\n'
        (join_by b' ' (e.mode ∷ e.object_type ∷ e.object_id ∷ []) ++ (b'\t' ∷ e.object_name))

abbrev pub render_entry : GitTreeEntry → Text
render_entry e = join_by b' ' (e.mode ∷ e.object_type ∷ e.object_id ∷ []) ++ (b'\t' ∷ e.object_name)

-- Each line ends in a newline.
abbrev pub render_tree : List GitTreeEntry → Text
render_tree [] = []
render_tree (e ∷ es) = render_entry e ++ (b'\n' ∷ render_tree es)

pub git_parse_tree_entry-render_entry :
    (e : GitTreeEntry) → IsWritten e → git_parse_tree_entry (render_entry e) ≡ ret e
unfolding git_parse_tree_entry
git_parse_tree_entry-render_entry e w = rw (
  split_n-fields b'\t' (join_by b' ' (e.mode ∷ e.object_type ∷ e.object_id ∷ []) ∷ []) e.object_name
      (w.no_tab, tt),
  split-join_by b' ' e.mode (e.object_type ∷ e.object_id ∷ []) w.no_blank,
)

abbrev lines_of : List GitTreeEntry → List Text
lines_of [] = []
lines_of (e ∷ es) = render_entry e ∷ lines_of es

render_tree_lines :
    (es : List GitTreeEntry) → render_tree es ≡ join_by b'\n' (lines_of es ++ ([] ∷ []))
render_tree_lines [] = refl
render_tree_lines (e ∷ []) = refl
render_tree_lines (e ∷ (f ∷ es)) =
    ap (λ s. render_entry e ++ (b'\n' ∷ s)) (render_tree_lines (f ∷ es))

lines_of-Lacks :
    (es : List GitTreeEntry) → All IsWritten es → All (Lacks b'\n') (lines_of es ++ ([] ∷ []))
lines_of-Lacks [] w = (tt, tt)
lines_of-Lacks (e ∷ es) (w, ws) = (w.no_newline, lines_of-Lacks es ws)

split-lines :
    (es : List GitTreeEntry)
    → All IsWritten es
    → split b'\n' (join_by b'\n' (lines_of es ++ ([] ∷ []))) ≡ lines_of es ++ ([] ∷ [])
split-lines [] w = split-join_by b'\n' [] [] (tt, tt)
split-lines (e ∷ es) w =
    split-join_by b'\n' (render_entry e) (lines_of es ++ ([] ∷ [])) (lines_of-Lacks (e ∷ es) w)

drop_last-append : (ls : List Text) (l : Text) → drop_last (ls ++ (l ∷ [])) ≡ ls
drop_last-append [] l = refl
drop_last-append (k ∷ []) l = refl
drop_last-append (k ∷ (m ∷ ls)) l = ap (λ r. k ∷ r) (drop_last-append (m ∷ ls) l)

parse_entries-lines_of :
    (es : List GitTreeEntry) → All IsWritten es → parse_entries (lines_of es) ≡ ret es
parse_entries-lines_of [] w = refl
parse_entries-lines_of (e ∷ es) (w, ws) =
    rw (git_parse_tree_entry-render_entry e w, parse_entries-lines_of es ws)

-- For tree entries whose first three fields hold no blank and no tab and which hold no newline,
-- `gitListDir` reads from git's listing exactly these entries, in order, names with blanks and tabs
-- included.
pub git_list_dir-render_tree :
    (es : List GitTreeEntry) → All IsWritten es → git_list_dir (render_tree es) ≡ ret es
unfolding git_list_dir
git_list_dir-render_tree es w =
    rw (render_tree_lines es, split-lines es w, drop_last-append (lines_of es) [])
      (parse_entries-lines_of es w)
