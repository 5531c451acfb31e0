-- ===== src/MapReduce/Apps.antt =====
-- mr-main/mrapps: plugins, with their map and reduce functions, and what their jobs count. Strings are of
-- any type `S`; a file's contents are bytes.
pub mod Counts
pub mod Wc
pub mod Credit
pub mod Indexer
pub mod EarlyExit
pub mod Crash
pub mod Processes
