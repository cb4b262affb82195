-- ===== src/Lib.antt =====
-- livegrep: a model of the Go server of the repository, and the properties that make it correct.
-- The server answers code searches and shows files, histories and diffs of git repositories. The
-- text that a user types goes through `ParseQuery` and then to a search backend. The diff pages run
-- `git diff`, read its output by `parseGitUnifiedDiff` and lay the hunks out side by side by
-- `GetDiffRowsSplit`. The model has these parts:
-- - Diff.antt, Diff/: `server/fileviewer/fileview.go`, from `GitDiffLineType` to
--   `getModifiedDiffRows`. Diff/Header is `diffHeaderRe`, `numberFromGroup`,
--   `parseGitDiffHunkHeader` and `toString`; Diff/Hunk is `getDiffLineType`, `HunkScanner` and
--   `parseGitDiffHunk`; Diff/Unified is `parseGitDiffHeader` and `parseGitUnifiedDiff`; Diff/Rows
--   is `GetDiffRowsSplit`, `getDiffRowsFromHunk` and `getModifiedDiffRows`.
-- - Query.antt, Query/: `server/query.go`. Query/Types is the query, its errors and `knownTags`;
--   Query/Piece is `pieceRE`; Query/Group is the inner loop over a balanced group; Query/Loop is
--   the outer loop; Query/Build is `onlyOneSynonym`, the part behind the loop, and `ParseQuery`;
--   Query/Terms is the operator queries of the round trip.
-- - Log.antt, Log/: `git log` in `server/fileviewer/fileview.go`. Log/Arguments is `genLogArgs`;
--   Log/Commits is `parseNextCommitFromLog`, `parseCommitFileNames` and `parseCommitLogOutput`;
--   Log/Build is `BuildGitLog`, which joins them.
-- - Directory.antt, Directory/: listings in `server/fileviewer/fileview.go`: `gitParseTreeEntry`,
--   `gitListDir`, `DirListingSort`, `buildDirectoryListEntry`, the links and the tables of
--   languages; Directory/Tree is `buildDirectoryTree`. The functions of package path and the call
--   of git are parameters.
-- - Api.antt, Api/: `server/api.go`: `extractQuery`, `reverse` and `convertBounds`.
-- - Search.antt, Search/: the rest of `server/api.go`, with `server/api/types.go` and the messages
--   of `src/proto/livegrep.proto`. Search/Types is the messages and the types, Search/Merge is the
--   loop of `doSearchV2` over the hits, Search/Extensions the popular extensions, Search/Reply is
--   `doSearch` and `doSearchV2` behind the call, Search/NextPage is `getNextPageUrl`, and
--   Search/Handlers is the failover, `getBackendFromQuery`, `getQueryError`, `ServeAPISearch` and
--   `ServerSideAPISearchV2`. `Surroundings` holds the orders in which loops visit maps, the time
--   that passed and the texts of times. Dict.antt is Go's maps, and Sort.antt, Sort/ is sort.Slice.
-- - Show.antt, Show/: `server/fileviewer/fileview.go`: `dropCR`, `ScanGitShowEntry`,
--   `CommitId.Short` and `isValidDiffLinePrefix`; Show/Stat and Show/Patch are `GitShowCommit`
--   behind the call of git. `scan_entries` is the loop of a scanner that splits by
--   `ScanGitShowEntry` once all data is there; its fuel is a parameter, and more than the number of
--   entries is enough.
-- - Blame.antt, Blame/: `processNextChunk` and `GitBlameBlob` of `server/fileviewer/fileview.go`
--   behind the call of git. A pointer to a chunk is the hash of its commit.
-- - Refs.antt, Refs/: `ListAllBranches`, `parseGitListTagsOutput` and `ReverseSlice` of
--   `server/fileviewer/fileview.go`.
-- - Pages.antt, Pages/: the data of the file pages in `server/fileviewer/fileview.go`.
--   Pages/Commands is the calls of git, Pages/Readme the choice of the readme, Pages/Segments
--   `getPathSegments`, Pages/Content what is read of a directory or a file, Pages/Build
--   `BuildFileData` and `BuildFileDataForZoektFilePreview`, and Pages/SimpleLog
--   `BuildSimpleGitLogData` with `gitLogRegex`. Call.antt is a call that returns a value or an
--   error, or panics; git is a function from its arguments to such a call.
-- - Server.antt, Server/: the handlers of `server/server.go`, as functions of the server, the
--   request and what git writes. Server/Git has those of a repository of the configuration,
--   Server/History `ServeSimpleGitLog`, Server/Zoekt those of the cache of Zoekt, Server/Blob the
--   pages of files and `ServeDiff`, Server/Experimental `ServeExperimental`, Server/Status those
--   about the backends, Server/Revision the revision and the path of a URL, Server/Repos the maps
--   of repositories and `getRepoPathFromURL`, and Server/Env what they call outside.
-- - Templates.antt, Templates/: `server/templates/templates.go`. Templates/CodeLine is
--   `renderCodeLine` and `splitCodeLineIntoParts`, which mark the matches in a line;
--   Templates/DiffRow is `getDiffRowType` and `getClassFromRowType`; Templates/Tree is
--   `RenderDirectoryTree`, and Templates/Highlight the syntax highlighting, where chroma is a
--   parameter; Templates/Listing is `getFirstNFiles`, `shouldInsertBlankLine` and
--   `getLineNumberLinkClass`.
-- - Backend.antt, Backend/: `server/backend.go`. `poll`, `getInfo` and `refresh` as functions of
--   the answers of the two remote calls, and the invariants of what a backend records;
--   Backend/Status is `getStatus`. A time is the number of nanoseconds since the zero time of
--   package time, so an index time before 1970 is outside the model.
-- - Scanner.antt: what the code sees of a bufio.Scanner, the tokens to come and whether reading
--   fails at the end. GoText.antt, GoText/: the documented functions of strings, bytes, strconv and
--   regexp that the code calls. Runtime.antt: a call returns or panics. Prelude.antt, Prelude/:
--   shared helpers. Tests.antt, Tests/: runs, among them the cases of `server/query_test.go`, and
--   instances of the theorems.
--
-- A component keeps its state explicitly: `HunkScanner` is the struct of that name, `ParseState`
-- holds the local variables of the loop of `ParseQuery`, and a function that changes its argument
-- returns the new one. A text is a list of code points in Query and Api and in the queries and URLs
-- of Search, and of bytes elsewhere. An `int` is kept as its 64-bit pattern and its increments wrap
-- around. `lines` and `hunk.Lines` of `parseGitDiffHunk` share an array until an append moves the
-- latter; the capacity of that array is the choice of the Go runtime, and a parameter.
--
-- Loops on fuel: the loop of `parseGitUnifiedDiff` gets one unit more than there are lines, that of
-- `ParseQuery` one more than there are characters, that of `parseCommitLogOutput` one more than
-- there are bytes, that of `GitBlameBlob` one more than there are lines, that of `ReverseSlice` as
-- many as there are entries, and that over the matches of `gitLogRegex` as many as there are bytes.
-- The theorems that end in `_total`, `reverse_slice-reverse` and `simple_log_of_output-git_log_z`
-- show that this is enough; all other loops are structural.
--
-- Not modelled: what git itself does, the routing and the start of the server, the execution and
-- the loading of templates, the lexers of chroma, logging, the dialling of backends and their
-- mutexes, the command line tools, and the C++ index.
pub mod Prelude
pub mod Runtime
pub mod Call
pub mod Dict
pub mod Sort
pub mod GoText
pub mod Scanner
pub mod Diff
pub mod Query
pub mod Log
pub mod Show
pub mod Directory
pub mod Api
pub mod Backend
pub mod Blame
pub mod Refs
pub mod Pages
pub mod Search
pub mod Server
pub mod Templates
pub mod Tests
