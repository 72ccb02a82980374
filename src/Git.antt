-- ===== src/Git.antt =====
-- src/kohakuhub/api/git: the Smart HTTP protocol of Git. Bytes are numbers below 256.
pub mod PktLine
pub mod SideBand
mod Tests
