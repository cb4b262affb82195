-- ===== src/Tests/DirectoryTests.antt =====
-- The theorems about directories in `server/fileviewer/fileview.go` at a concrete tree.
use livegrep.Call.{Git, value, error}
use livegrep.Dict.{text_key, number_key}
use livegrep.Directory.{
  LangMap, get_lang, git_parse_tree_entry, GitTreeEntry, file_language, git_list_dir, less,
}
use livegrep.Directory.Entries.{render_tree, IsWritten}
use livegrep.GoText.Regexp.{contains_byte}
use livegrep.GoText.Split.{contains_byte-Lacks, cut_at, split_n, split}
use livegrep.Pages.{DirectoryContent, clean_path, FileViewerContext, Paths, RepoConfig}
use livegrep.Pages.Build.{build_file_data}
use livegrep.Pages.Build.Complete.{build_file_data-directory}
use livegrep.Pages.Content.{list_entry}
use livegrep.Pages.Content.Entries.{NamesCommit, ListsDirectory}
use livegrep.Pages.Readme.{supported_readme_extensions}
use livegrep.Prelude.{
  ◌≡◌, refl, true, false, none, some, List, [], ◌∷◌, ◌++◌, arith, map, if◌then◌else◌, Text, codes,
  text_eq,
}
use livegrep.Runtime.{index_out_of_range, Run, panic}
use livegrep.Sort.Laws.{IsSorted}
use mathlib.Core.List.{Perm}

run : (Text → Run (List GitTreeEntry)) × (LangMap → Text → Text)
unfolding git_list_dir git_parse_tree_entry split split_n cut_at get_lang text_eq
run = (git_list_dir, get_lang)

abbrev source_entry : GitTreeEntry
source_entry = record {
  mode = codes "040000";
  object_type = codes "tree";
  object_id = codes "ab12";
  object_name = codes "src";
}

abbrev odd_entry : GitTreeEntry
odd_entry = record {
  mode = codes "100644";
  object_type = codes "blob";
  object_id = codes "cd34";
  object_name = codes "a b\tc";
}

source_entry-IsWritten : IsWritten source_entry
source_entry-IsWritten = record {
  no_blank = (
    (refl, (refl, (refl, (refl, (refl, (refl, tt)))))),
    ((refl, (refl, (refl, (refl, tt)))), ((refl, (refl, (refl, (refl, tt)))), tt)),
  );
  no_tab = (
    refl,
    (
      refl,
      (
        refl,
        (
          refl,
          (
            refl,
            (
              refl,
              (refl, (refl, (refl, (refl, (refl, (refl, (refl, (refl, (refl, (refl, tt)))))))))),
            ),
          ),
        ),
      ),
    ),
  );
  no_newline = (
    refl,
    (
      refl,
      (
        refl,
        (
          refl,
          (
            refl,
            (
              refl,
              (
                refl,
                (
                  refl,
                  (
                    refl,
                    (
                      refl,
                      (
                        refl,
                        (refl, (refl, (refl, (refl, (refl, (refl, (refl, (refl, (refl, tt))))))))),
                      ),
                    ),
                  ),
                ),
              ),
            ),
          ),
        ),
      ),
    ),
  );
}

odd_entry-IsWritten : IsWritten odd_entry
odd_entry-IsWritten = record {
  no_blank = (
    (refl, (refl, (refl, (refl, (refl, (refl, tt)))))),
    ((refl, (refl, (refl, (refl, tt)))), ((refl, (refl, (refl, (refl, tt)))), tt)),
  );
  no_tab = (
    refl,
    (
      refl,
      (
        refl,
        (
          refl,
          (
            refl,
            (
              refl,
              (refl, (refl, (refl, (refl, (refl, (refl, (refl, (refl, (refl, (refl, tt)))))))))),
            ),
          ),
        ),
      ),
    ),
  );
  no_newline = (
    refl,
    (
      refl,
      (
        refl,
        (
          refl,
          (
            refl,
            (
              refl,
              (
                refl,
                (
                  refl,
                  (
                    refl,
                    (
                      refl,
                      (
                        refl,
                        (
                          refl,
                          (
                            refl,
                            (
                              refl,
                              (refl, (refl, (refl, (refl, (refl, (refl, (refl, (refl, tt)))))))),
                            ),
                          ),
                        ),
                      ),
                    ),
                  ),
                ),
              ),
            ),
          ),
        ),
      ),
    ),
  );
}

broken_run : git_list_dir (codes "040000 tree\n") ≡ panic index_out_of_range
unfolding run
broken_run = refl

languages :
    (file_language (codes "BUILD") [] ≡ codes "python")
    × (file_language (codes "a.yml") (codes ".yml") ≡ codes "yaml")
    × (file_language (codes "a.zzz") (codes ".zzz") ≡ [])
unfolding run
languages = (refl, refl, refl)

abbrev hash : Text
hash = codes "0123456789abcdef01"

-- git, where every commit has one hash and every object is a directory of two entries
abbrev directory_git : Git
directory_git (c ∷ (path ∷ (verb ∷ (flag ∷ args)))) =
    if text_eq verb (codes "rev-parse")
    then value (hash ++ codes "\n")
    else if text_eq flag (codes "-t")
    then value (codes "tree\n")
    else value (render_tree (source_entry ∷ odd_entry ∷ []))
directory_git _ = error []

abbrev paths : Paths
paths = record {
  clean = λ p. p;
  join = λ a b. a ++ codes "/" ++ b;
  base = λ p. p;
  ext = λ p. [];
  host = λ u. none;
}

abbrev kernel : RepoConfig
kernel = record {
  path = codes "/k";
  name = codes "torvalds/linux";
  revisions = [];
  metadata = [];
  walk_submodules = false;
}

names_hash : NamesCommit directory_git (codes "/k") (codes "v6") hash
unfolding text_eq contains_byte
names_hash = record { rev_parse = refl; one_line = contains_byte-Lacks b'\n' hash refl }

lists_both :
    ListsDirectory directory_git
      (codes "/k")
      (hash ++ (codes ":" ++ clean_path paths (codes "d")))
      (source_entry ∷ odd_entry ∷ [])
unfolding text_eq
lists_both = record {
  is_tree = refl;
  listing = refl;
  written_entries = (source_entry-IsWritten, (odd_entry-IsWritten, tt));
}

build_file_data-directory_example :
    (d : FileViewerContext) × (c : DirectoryContent) × (build_file_data directory_git paths
        supported_readme_extensions
        (codes "d")
        kernel
        (codes "v6")
      ≡ value d)
    × (d.dir_content ≡ some c)
    × (d.commit_hash ≡ hash)
    × IsSorted less c.entries
    × Perm c.entries (
        map
          (list_entry directory_git paths
            (clean_path paths (codes "d"))
            kernel.name
            kernel.path
            hash
            true)
          (source_entry ∷ odd_entry ∷ []))
build_file_data-directory_example =
    build_file_data-directory directory_git paths supported_readme_extensions (codes "d")
      (codes "v6") hash kernel (source_entry ∷ odd_entry ∷ []) names_hash lists_both (omega arith)
