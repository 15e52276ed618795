-- ===== src/Query.antt =====
-- pkg/query: the state of a `Query`, how it is compiled, and batch operations.
pub mod State
pub mod Keys
pub mod Compile
pub mod Writes
pub mod GetItem
pub mod BatchGet
pub mod BatchWrite
pub mod Cursor
pub mod Paging
