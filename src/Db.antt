-- ===== src/Db.antt =====
-- The rows of the database and the session through which the services reach them.
mod Status
mod Rows
mod Session
mod Inversion
mod Preservation
pub use Status.*
pub use Rows.*
pub use Session.*
pub use Inversion.*
pub use Preservation.*
