-- ===== src/Server/Revision.antt =====
-- The revision and the path behind `/+/` in a URL, which seven handlers of `server/server.go` split, and the
-- links of `server/fileviewer/fileview.go` that lead there.
use livegrep.Backend.{is_empty_text}
use livegrep.GoText.Split.{join_by, split-join_by, Lacks, split}
use livegrep.Prelude.{◌≡◌, ap, List, [], ◌∷◌, ◌++◌, if◌then◌else◌, Text, codes, All}

-- `sp` is `strings.Split(repoRevAndPath, ":")`
abbrev pub of_parts : List Text → Text × Text
of_parts (rev ∷ (path ∷ [])) = (rev, path)
of_parts (rev ∷ []) = (if is_empty_text rev then codes "HEAD" else rev, [])
of_parts _ = (codes "HEAD", [])

unfoldable pub split_rev_path : Text → Text × Text
unfolding split
split_rev_path t = of_parts (split b':' t)

-- For texts without a colon, the handlers read from a revision, a colon and a path that revision
-- and that path, from a revision alone that revision, or HEAD where it is empty, and from more than
-- two parts HEAD and the empty path.
pub split_rev_path-link :
    (rev path more : Text) (others : List Text)
    → All (Lacks b':') (rev ∷ (path ∷ (more ∷ others)))
    → (split_rev_path (rev ++ (codes ":" ++ path)) ≡ (rev, path))
      × (split_rev_path rev ≡ (if is_empty_text rev then codes "HEAD" else rev, []))
      × (split_rev_path (join_by b':' (rev ∷ (path ∷ (more ∷ others)))) ≡ (codes "HEAD", []))
unfolding split_rev_path
split_rev_path-link rev path more others (hr, (hp, hs)) = (
  ap of_parts (split-join_by b':' rev (path ∷ []) (hr, (hp, tt))),
  ap of_parts (split-join_by b':' rev [] (hr, tt)),
  ap of_parts (split-join_by b':' rev (path ∷ (more ∷ others)) (hr, (hp, hs))),
)
