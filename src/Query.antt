-- ===== src/Query.antt =====
-- pkg/query: what the queries are compiled from and the cursors of their pages.
pub mod Cursor
pub mod State
pub mod Keys
pub mod Compile
pub mod Chain
pub mod Calls
pub mod FirstError
pub mod Total
pub mod PrimaryKey
pub mod Write
pub mod Retries
pub mod Read
pub mod Pagination
pub mod Outcomes
pub mod Settings
pub mod Splitting
pub mod BestIndex
pub mod Sample
mod Cases
mod Examples
