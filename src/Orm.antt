-- ===== src/Orm.antt =====
-- src/orm: the query builders over text files. A file system is a function from paths to contents,
-- `none` where there is no file; opening a file for writing is assumed to be permitted.
pub mod Files
pub mod Filtering
pub mod Insert
pub mod Select
pub mod Table
pub mod Tests
