-- ===== src/Model.antt =====
-- The database and what a request or a job does to it: the rows of backend/app/models, the world
-- that holds the tables, and actions that read and write it and may raise.
pub mod Status
pub mod Json
pub mod JsonSchema
pub mod Rows
pub mod Effects
pub mod Store
pub mod Validity
pub mod Ledger
pub mod Settled
pub mod Keeps
pub mod Pending
pub mod Insert
pub mod Inversion
unfoldable pub use Status.*
pub use Rows.*
unfoldable pub use Effects.*
unfoldable pub use Store.*
pub use Validity.*
