-- ===== src/Db.antt =====
-- syncmaster/db/models: the rows of the tables, and the database as the rows of every table.
mod Rows
pub mod Cascade
pub mod Json
pub use Rows.*
