-- ===== src/Logs.antt =====
-- runtime/logs.rs and runtime/log_tail.rs: the pages of a log file and the follower of its end. A file is its
-- bytes; the lossy decoding of UTF-8 is a parameter.
pub mod Tail
pub mod Follow
mod Tests
