-- ===== src/Query.antt =====
-- The search query language: `ParseQuery` of `server/query.go`.
pub mod Types
pub mod Piece
pub mod Group
pub mod Loop
pub mod Build
pub mod Terms
