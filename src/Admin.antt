-- ===== src/Admin.antt =====
-- AdminQueries.h: administrator queries over a snapshot of the server.
pub mod Query
pub mod Access
