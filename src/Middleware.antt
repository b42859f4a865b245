-- ===== src/Middleware.antt =====
-- Package middleware (middleware/): the context of a request and the chain of its handlers.
pub mod Metadata
pub mod Context
pub mod Chain
pub mod Pool
