-- ===== src/Database.antt =====
-- src/common/db.rs: the history database. The two tables are lists of rows in the order of their
-- ids, and each SQL statement is a function on them that may fail and then changes nothing.
mod Schema
mod Statement
pub mod Calls
pub mod History
pub mod Lasting
pub mod Limited
pub mod Open
pub mod Query
pub mod Store
pub mod Trim
pub mod Valid
unfoldable pub use Schema.*
unfoldable pub use Statement.*
