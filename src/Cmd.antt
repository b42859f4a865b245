-- ===== src/Cmd.antt =====
-- The command (cmd/grpcat/): its flags, its two middlewares and what main starts.
pub mod Route
pub mod Logging
pub mod Main
pub mod Startup
pub mod Output
