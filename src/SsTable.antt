-- ===== src/SsTable.antt =====
-- src/SSTableBuilder.cpp, src/SSTableReader.cpp and src/BlockBuilder.cpp: the table on disk, with the
-- file of include/FileFormats.h and the formats of include/Storage.h.
pub mod Format
pub mod Block
pub mod Builder
pub mod Reader
pub mod Scan
pub mod Rows
pub mod Layout
pub mod Whole
pub mod Opened
pub mod Lookup
pub mod Built
pub mod Corrupt
pub mod Interface
mod Runs
mod DbRuns
