-- ===== src/Templates.antt =====
-- Functions that the templates of `server/templates/templates.go` call: CodeLine marks the matches in a
-- line of code, DiffRow names the kinds of rows of the split view, Highlight marks the tokens of a line,
-- Listing shortens and spaces lists of results, and Tree links the files of a directory.
pub mod CodeLine
pub mod DiffRow
pub mod Highlight
pub mod Listing
pub mod Tree
