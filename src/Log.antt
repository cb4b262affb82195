-- ===== src/Log.antt =====
-- `git log` of `server/fileviewer/fileview.go`: Log/Arguments builds its command line, and Log/Commits
-- reads its output; Log/Build joins the two around the call of git.
pub mod Arguments
pub mod Build
pub mod Commits
