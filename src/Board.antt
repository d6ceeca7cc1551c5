-- ===== src/Board.antt =====
-- The task board, src-tauri/src/board/todos.rs.
pub mod Todo
pub mod Edit
pub mod Deps
pub mod Numbers
pub mod Refs
pub mod Import
pub mod Wire
pub mod Roles
pub mod Graph
pub mod Transact
pub mod Samples
mod Tests
