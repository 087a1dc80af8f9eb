-- ===== src/Database.antt =====
-- The PostgreSQL database (db/migrations) and src/db/tx.js: the rows (Rows, Accounts), the errors that a
-- statement or a service throws, and the transaction that they run in.
mod Rows
mod Columns
mod Exports
mod Accounts
mod Failures
mod Transaction
mod Steps
pub use Rows.*
pub use Columns.*
pub use Exports.*
pub use Accounts.*
pub use Failures.*
unfoldable pub use Transaction.*
pub use Steps.*
